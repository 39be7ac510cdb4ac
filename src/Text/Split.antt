-- ===== src/Text/Split.antt =====
-- `strings.Split` at a separator of one byte, and `strings.Join` for the laws.
use thalassa_workload_identi.Common.{
  ◌∙◌, ==_iff, inl, inr, Bool-cases, ℕ, ◌≡◌, refl, ap, List, [], ◌∷◌, ◌++◌, ◌==◌, if◌then◌else◌,
}
use thalassa_workload_identi.Text.Eq.{Text}

push : ℕ → List Text → List Text
push c [] = (c ∷ []) ∷ []
push c (p ∷ ps) = (c ∷ p) ∷ ps

unfoldable pub split : ℕ → Text → List Text
unfolding push
split sep [] = [] ∷ []
split sep (c ∷ s) = let rest = split sep s in if c == sep then [] ∷ rest else push c rest

unfoldable pub join : ℕ → List Text → Text
join sep [] = []
join sep (p ∷ []) = p
join sep (p ∷ q ∷ ps) = p ++ sep ∷ join sep (q ∷ ps)

-- Joining undoes splitting.
join-push : (sep c : ℕ) (ps : List Text) → join sep (push c ps) ≡ c ∷ join sep ps
unfolding join push
join-push sep c [] = refl
join-push sep c (p ∷ []) = refl
join-push sep c (p ∷ q ∷ ps) = refl

abbrev NonEmpty : List Text → Type 0
NonEmpty [] = ⊥
NonEmpty (p ∷ ps) = Unit

push-NonEmpty : (c : ℕ) (ps : List Text) → NonEmpty (push c ps)
unfolding push
push-NonEmpty c [] = tt
push-NonEmpty c (p ∷ ps) = tt

split-NonEmpty : (sep : ℕ) (s : Text) → NonEmpty (split sep s)
unfolding split
split-NonEmpty sep [] = tt
split-NonEmpty sep (c ∷ s) = elim (Bool-cases (c == sep)) [
  | inl yes_sep ↦ rw yes_sep tt
  | inr other ↦ rw other (push-NonEmpty c (split sep s))
]

join-nil-cons : (sep : ℕ) (ps : List Text) → NonEmpty ps → join sep ([] ∷ ps) ≡ sep ∷ join sep ps
unfolding join
join-nil-cons sep [] h = absurd h
join-nil-cons sep (p ∷ ps) h = refl

pub join-split : (sep : ℕ) (s : Text) → join sep (split sep s) ≡ s
unfolding split join
join-split sep [] = refl
join-split sep (c ∷ s) = elim (Bool-cases (c == sep)) [
  | inl same ↦ rw same (
      join-nil-cons sep (split sep s) (split-NonEmpty sep s)
      ∙ rw ((==_iff c sep).0 same) (ap (◌∷◌ sep) (join-split sep s)))
  | inr other ↦ rw other (join-push sep c (split sep s) ∙ ap (◌∷◌ c) (join-split sep s))
]
