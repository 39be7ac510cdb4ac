-- ===== src/Text.antt =====
-- Go strings as internal/ and cmd/ use them: sequences of bytes.
pub mod Eq
pub mod Fold
pub mod Order
pub mod Split
pub mod Trim
pub use Eq.*
