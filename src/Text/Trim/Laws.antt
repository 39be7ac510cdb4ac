-- ===== src/Text/Trim/Laws.antt =====
-- Trimming leaves no white space at either end, and trims nothing twice.
use mathlib.Core.List.{reverse-reverse, reverse-append}
use thalassa_workload_identi.Common.{
  ℕ-cases, ℕ, zero, suc, ◌≡◌, refl, sym, ap, ◌∙◌, inl, inr, [], ◌∷◌, ◌++◌, reverse, arith,
}
use thalassa_workload_identi.Text.Eq.{Text}
use thalassa_workload_identi.Text.Trim.{
  front_width, back_width, strip, trim_left, trim_right, trim_space,
}

module _ (width : Text → ℕ) where
  strip-width : (k : ℕ) (s : Text) → width [] ≡ 0 → width (strip width k s) ≡ 0
  unfolding strip
  strip-width k [] e = e
  strip-width (suc k) (c ∷ s) e = strip-width k s e
  strip-width zero (c ∷ s) e = elim (ℕ-cases (width (c ∷ s))) [
    | inl stop ↦ rw (stop, strip) stop
    | inr (k, more) ↦ rw (more, strip) (strip-width k s e)
  ]

  strip_of_width : (s : Text) → width s ≡ 0 → strip width 0 s ≡ s
  unfolding strip
  strip_of_width [] e = refl
  strip_of_width (c ∷ s) e = rw (e, strip)

  -- What is stripped stands in front.
  strip-suffix : (k : ℕ) (s : Text) → (p : Text) × (s ≡ p ++ strip width k s)
  unfolding strip
  strip-suffix k [] = ([], refl)
  strip-suffix (suc k) (c ∷ s) = let (p, e) = strip-suffix k s in (c ∷ p, ap (◌∷◌ c) e)
  strip-suffix zero (c ∷ s) = elim (ℕ-cases (width (c ∷ s))) [
    | inl stop ↦ rw (stop, strip) ([], refl)
    | inr (k, more) ↦ let (p, e) = strip-suffix k s in rw (more, strip) (c ∷ p, ap (◌∷◌ c) e)
  ]

-- A shorter text has no more white space in front than one that it begins.
front_width-prefix : (s t : Text) → front_width (s ++ t) ≡ 0 → front_width s ≡ 0
unfolding front_width
front_width-prefix [] t h = refl
front_width-prefix (a ∷ []) [] h = h
front_width-prefix (a ∷ []) (b ∷ []) h = ground arith
front_width-prefix (a ∷ []) (b ∷ c ∷ t) h = ground arith
front_width-prefix (a ∷ b ∷ []) [] h = h
front_width-prefix (a ∷ b ∷ []) (c ∷ t) h = ground arith
front_width-prefix (a ∷ b ∷ c ∷ s) t h = h

-- No white space at either end.
pub record IsTrimmed (s : Text) : Type 0 where
  pub front : front_width s ≡ 0
  pub back : back_width (reverse s) ≡ 0

trim_right-prefix : (s : Text) → (t : Text) × (s ≡ trim_right s ++ t)
unfolding trim_right
trim_right-prefix s =
    let (p, e) = strip-suffix back_width 0 (reverse s) in
    (reverse p, sym (reverse-reverse s) ∙ ap reverse e ∙ reverse-append p _)

-- The result of `TrimSpace` has no white space at either end.
pub trim_space-IsTrimmed : (s : Text) → IsTrimmed (trim_space s)
unfolding trim_space
trim_space-IsTrimmed s =
    let (t, e) = trim_right-prefix (trim_left s) in
    record {
      front =
          front_width-prefix (trim_space s) t
            (rw (← e) (strip-width front_width 0 s (unfold front_width in refl)));
      back =
          rw reverse-reverse
            (strip-width back_width 0 (reverse (trim_left s)) (unfold back_width in refl));
    }

-- A text with no white space at either end is left alone.
pub trim_space_of_IsTrimmed : (s : Text) → IsTrimmed s → trim_space s ≡ s
unfolding trim_space trim_left trim_right
trim_space_of_IsTrimmed s h =
    rw (strip_of_width front_width s h.front, strip_of_width back_width (reverse s) h.back)
      (reverse-reverse s)

pub trim_space_idem : (s : Text) → trim_space (trim_space s) ≡ trim_space s
trim_space_idem s = trim_space_of_IsTrimmed _ (trim_space-IsTrimmed s)

pub trim_space-nil : trim_space [] ≡ []
unfolding trim_space trim_left trim_right strip
trim_space-nil = refl
