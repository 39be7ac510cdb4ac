-- ===== src/Text/Trim.antt =====
-- `strings.TrimSpace` and `strings.TrimSuffix` on bytes. White space is that of `unicode.IsSpace`,
-- in its UTF-8 encoding.
pub mod Laws
use thalassa_workload_identi.Common.{
  ℕ, zero, suc, Bool, true, false, ◌&&◌, ◌||◌, List, [], ◌∷◌, reverse, leb, ◌==◌, if◌then◌else◌,
}
use thalassa_workload_identi.Text.Eq.{Text}

-- Tab to carriage return, and the blank.
is_space1 : ℕ → Bool
is_space1 a = leb 9 a && leb a 13 || a == 32

-- U+0085 and U+00A0.
is_space2 : ℕ → ℕ → Bool
is_space2 a b = a == 0xc2 && (b == 0x85 || b == 0xa0)

-- U+1680, U+2000 to U+200A, U+2028, U+2029, U+202F, U+205F and U+3000.
is_space3 : ℕ → ℕ → ℕ → Bool
is_space3 a b c =
    a == 0xe1 && (b == 0x9a && c == 0x80)
    || a == 0xe2
      && (b == 0x80 && (leb 0x80 c && leb c 0x8a || c == 0xa8 || c == 0xa9 || c == 0xaf)
          || b == 0x81 && c == 0x9f)
    || a == 0xe3 && (b == 0x80 && c == 0x80)

-- How many bytes the white-space character at the front takes; 0 if there is none.
pub front_width : Text → ℕ
unfolding is_space1 is_space2 is_space3
front_width [] = 0
front_width (a ∷ []) = if is_space1 a then 1 else 0
front_width (a ∷ b ∷ []) = if is_space1 a then 1 else if is_space2 a b then 2 else 0
front_width (a ∷ b ∷ c ∷ _) =
    if is_space1 a then 1 else if is_space2 a b then 2 else if is_space3 a b c then 3 else 0

-- The same for the character at the end of a text that is given backwards.
pub back_width : Text → ℕ
unfolding is_space1 is_space2 is_space3
back_width [] = 0
back_width (a ∷ []) = if is_space1 a then 1 else 0
back_width (a ∷ b ∷ []) = if is_space1 a then 1 else if is_space2 b a then 2 else 0
back_width (a ∷ b ∷ c ∷ _) =
    if is_space1 a then 1 else if is_space2 b a then 2 else if is_space3 c b a then 3 else 0

-- Drops the bytes that are left of a character, then one character after another.
strip : (Text → ℕ) → ℕ → Text → Text
strip width k [] = []
strip width zero (c ∷ s) = elim (width (c ∷ s)) [ zero ↦ c ∷ s | suc k ↦ strip width k s ]
strip width (suc k) (c ∷ s) = strip width k s

trim_left : Text → Text
unfolding strip front_width
trim_left s = strip front_width 0 s

trim_right : Text → Text
unfolding strip back_width
trim_right s = reverse (strip back_width 0 (reverse s))

-- `strings.TrimSpace`
unfoldable pub trim_space : Text → Text
unfolding trim_left trim_right
trim_space s = trim_right (trim_left s)

trim_prefix : Text → Text → Text → Text
trim_prefix whole s [] = s
trim_prefix whole [] (d ∷ t) = whole
trim_prefix whole (c ∷ s) (d ∷ t) = if c == d then trim_prefix whole s t else whole

-- `strings.TrimSuffix`
unfoldable pub trim_suffix : Text → Text → Text
unfolding trim_prefix
trim_suffix s suffix = reverse (trim_prefix (reverse s) (reverse s) (reverse suffix))
