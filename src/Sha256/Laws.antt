-- ===== src/Sha256/Laws.antt =====
-- The shape of a digest and of its hexadecimal text.
use thalassa_workload_identi.Common.{
  ℕ, zero, suc, ◌*◌, ◌/◌, ◌%◌, ◌≤◌, ◌<◌, ◌≡◌, refl, ◌⊎◌, [], ◌∷◌, arith, length, take, All,
  All-append, length-append,
}
use thalassa_workload_identi.Text.Eq.{Text}
use thalassa_workload_identi.Sha256.{bytes_of, sum256, hex_digit, hex_encode}

abbrev pub IsByte : ℕ → Type 0
IsByte b = b < 256

-- A digit or a letter from a to f.
abbrev pub IsHexDigit : ℕ → Type 0
IsHexDigit c = ((b'0' ≤ c) × (c ≤ b'9')) ⊎ ((b'a' ≤ c) × (c ≤ b'f'))

length-bytes_of : (n x : ℕ) → length (bytes_of n x) ≡ n
unfolding bytes_of
length-bytes_of zero x = refl
length-bytes_of (suc n) x = omega (arith, length-bytes_of n x)

bytes_of-IsByte : (n x : ℕ) → All IsByte (bytes_of n x)
unfolding bytes_of
bytes_of-IsByte zero x = tt
bytes_of-IsByte (suc n) x = (omega arith, bytes_of-IsByte n x)

pub length-sum256 : (m : Text) → length (sum256 m) ≡ 32
unfolding sum256
length-sum256 m = omega (arith, length-append {0}, length-bytes_of)

pub sum256-IsByte : (m : Text) → All IsByte (sum256 m)
unfolding sum256
sum256-IsByte m = search (All-append, bytes_of-IsByte) depth 10

pub take-IsByte : (n : ℕ) (m : Text) → All IsByte m → All IsByte (take n m)
take-IsByte zero m h = tt
take-IsByte (suc n) [] h = tt
take-IsByte (suc n) (b ∷ m) (p, h) = (p, take-IsByte n m h)

pub length-hex_encode : (m : Text) → length (hex_encode m) ≡ 2 * length m
unfolding hex_encode
length-hex_encode [] = refl
length-hex_encode (b ∷ m) = omega (arith, length-hex_encode m)

hex_digit-IsHexDigit : (n : ℕ) → n < 16 → IsHexDigit (hex_digit n)
unfolding hex_digit
hex_digit-IsHexDigit n h = ground arith

pub hex_encode-IsHexDigit : (m : Text) → All IsByte m → All IsHexDigit (hex_encode m)
unfolding hex_encode
hex_encode-IsHexDigit [] h = tt
hex_encode-IsHexDigit (b ∷ m) (p, h) = (
  hex_digit-IsHexDigit (b / 16) (omega arith),
  (hex_digit-IsHexDigit (b % 16) (omega arith), hex_encode-IsHexDigit m h),
)
