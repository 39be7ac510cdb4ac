-- ===== src/Text/Eq.antt =====
-- Texts as Go has them: sequences of bytes. Equality, emptiness, and tests on single bytes.
use Prim.Native.Char.{code}
use Prim.Native.String.{String}
use thalassa_workload_identi.Common.{
  ℕ, ◌≡◌, refl, ◌↔◌, Bool, true, false, ◌&&◌, List, [], ◌∷◌, arith, ◌==◌, any, length, take,
  length-take-le, ltb, ◌≤◌, if◌then◌else◌,
}

abbrev pub Text : Type 0
Text = List ℕ

-- The bytes of a literal, all of them ASCII.
abbrev pub codes : String → Text
codes String.[] = []
codes (String.◌∷◌ c s) = code c ∷ codes s

-- Go's `==` on strings.
unfoldable pub text_eq : Text → Text → Bool
text_eq [] [] = true
text_eq [] (d ∷ t) = false
text_eq (c ∷ s) [] = false
text_eq (c ∷ s) (d ∷ t) = c == d && text_eq s t

pub text_eq_iff : (s t : Text) → (text_eq s t ≡ true) ↔ (s ≡ t)
unfolding text_eq
text_eq_iff [] [] = (λ _. refl, λ _. refl)
text_eq_iff [] (d ∷ t) = (λ h. cc, λ h. cc)
text_eq_iff (c ∷ s) [] = (λ h. cc, λ h. cc)
text_eq_iff (c ∷ s) (d ∷ t) = ground (arith, text_eq_iff s t)

pub text_eq_refl : (s : Text) → text_eq s s ≡ true
text_eq_refl s = (text_eq_iff s s).1 refl

-- `s == ""`
abbrev pub is_empty : Text → Bool
is_empty [] = true
is_empty (c ∷ s) = false

pub is_empty_iff : (s : Text) → (is_empty s ≡ true) ↔ (s ≡ [])
is_empty_iff [] = (λ _. refl, λ _. refl)
is_empty_iff (c ∷ s) = (λ h. cc, λ h. cc)

-- `strings.Contains(s, string(c))` for a single byte.
unfoldable pub contains_byte : ℕ → Text → Bool
contains_byte c s = any (λ d. d == c) s

-- `if len(s) > n { s = s[:n] }`
unfoldable pub cut : ℕ → Text → Text
cut n s = if ltb n (length s) then take n s else s

pub length-cut-le : (n : ℕ) (s : Text) → length (cut n s) ≤ n
unfolding cut
length-cut-le n s = ground (arith, length-take-le n s)

pub cut_of_le : (n : ℕ) (s : Text) → length s ≤ n → cut n s ≡ s
unfolding cut
cut_of_le n s h = ground arith
