-- ===== src/Text/Fold.antt =====
-- `strings.ToLower` of ASCII, and `strings.EqualFold`. The case tables of Unicode are modelled for
-- the ASCII letters and the two other characters that fold to one: U+017F, a long s, and U+212A,
-- the Kelvin sign. All else compares byte by byte, which is exact when one of the texts is ASCII.
use thalassa_workload_identi.Common.{
  ℕ, ◌+◌, ◌≡◌, refl, ◌↔◌, Bool, true, false, ◌&&◌, [], ◌∷◌, map, leb, ◌==◌, if◌then◌else◌,
}
use thalassa_workload_identi.Text.Eq.{Text, text_eq, text_eq_iff}

unfoldable pub lower : ℕ → ℕ
lower c = if leb b'A' c && leb c b'Z' then c + 32 else c

unfoldable pub to_lower : Text → Text
unfolding lower
to_lower s = map lower s

is_long_s : ℕ → ℕ → Bool
is_long_s a b = a == 0xc5 && b == 0xbf

is_kelvin : ℕ → ℕ → ℕ → Bool
is_kelvin a b c = a == 0xe2 && (b == 0x84 && c == 0xaa)

-- The text with each character replaced by the one that stands for its case class.
unfoldable pub fold_case : Text → Text
unfolding is_long_s is_kelvin lower
fold_case [] = []
fold_case (a ∷ []) = lower a ∷ []
fold_case (a ∷ b ∷ []) = elim (is_long_s a b) [
  | true ↦ b's' ∷ []
  | false ↦ lower a ∷ fold_case (b ∷ [])
]
fold_case (a ∷ b ∷ c ∷ s) = elim (is_long_s a b) [
  | true ↦ b's' ∷ fold_case (c ∷ s)
  | false ↦ elim (is_kelvin a b c) [
    | true ↦ b'k' ∷ fold_case s
    | false ↦ lower a ∷ fold_case (b ∷ c ∷ s)
  ]
]

-- `strings.EqualFold`
unfoldable pub equal_fold : Text → Text → Bool
unfolding fold_case
equal_fold s t = text_eq (fold_case s) (fold_case t)

pub equal_fold_iff : (s t : Text) → (equal_fold s t ≡ true) ↔ (fold_case s ≡ fold_case t)
unfolding equal_fold
equal_fold_iff s t = text_eq_iff _ _

pub equal_fold_refl : (s : Text) → equal_fold s s ≡ true
equal_fold_refl s = (equal_fold_iff s s).1 refl
