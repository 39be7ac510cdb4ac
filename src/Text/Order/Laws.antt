-- ===== src/Text/Order/Laws.antt =====
-- Sorting forgets exactly the order: two lists sort alike when they are permutations.
use native.Mathlib.Nat.{ℕ_set}
use mathlib.Core.Logic.{∥∥₁_elim}
use mathlib.Core.List.{Perm, Permᴰ}
use mathlib.Core.List.Perm
use mathlib.Core.Path.{ap₂}
use thalassa_workload_identi.Common.{
  ◌≡◌, refl, ◌∙◌, ◌↔◌, inl, inr, true, false, List, [], ◌∷◌, arith, Bool-cases,
}
use thalassa_workload_identi.Text.Eq.{Text, text_eq_iff}
use thalassa_workload_identi.Text.Order.{text_le, insert_sorted, sort, list_eq}

pub list_eq_iff : (xs ys : List Text) → (list_eq xs ys ≡ true) ↔ (xs ≡ ys)
unfolding list_eq
list_eq_iff [] [] = (λ _. refl, λ _. refl)
list_eq_iff [] (y ∷ ys) = (λ h. cc, λ h. cc)
list_eq_iff (x ∷ xs) [] = (λ h. cc, λ h. cc)
list_eq_iff (x ∷ xs) (y ∷ ys) = ground (arith, text_eq_iff x y, list_eq_iff xs ys)

text_le_total : (s t : Text) → text_le s t ≡ false → text_le t s ≡ true
unfolding text_le
text_le_total [] t h = cc
text_le_total (c ∷ s) [] h = refl
text_le_total (c ∷ s) (d ∷ t) h = ground (arith, text_le_total s t)

text_le_antisymm : (s t : Text) → text_le s t ≡ true → text_le t s ≡ true → s ≡ t
unfolding text_le
text_le_antisymm [] [] h k = refl
text_le_antisymm [] (d ∷ t) h k = cc
text_le_antisymm (c ∷ s) [] h k = cc
text_le_antisymm (c ∷ s) (d ∷ t) h k = ground (arith, text_le_antisymm s t)

text_le_trans : (s t u : Text) → text_le s t ≡ true → text_le t u ≡ true → text_le s u ≡ true
unfolding text_le
text_le_trans [] t u h k = refl
text_le_trans (c ∷ s) [] u h k = cc
text_le_trans (c ∷ s) (d ∷ t) [] h k = cc
text_le_trans (c ∷ s) (d ∷ t) (e ∷ u) h k = ground (arith, text_le_trans s t u)

-- Inserting two texts in either order gives the same list.
insert_sorted_comm :
    (x y : Text) (l : List Text)
    → insert_sorted x (insert_sorted y l) ≡ insert_sorted y (insert_sorted x l)
unfolding insert_sorted
insert_sorted_comm x y [] = ground (arith, text_le_total x y, text_le_antisymm x y)
insert_sorted_comm x y (z ∷ l) = ground (
  arith,
  text_le_total x y,
  text_le_antisymm x y,
  text_le_trans x y z,
  text_le_trans y x z,
  insert_sorted_comm x y l,
)

insert_sorted-perm : (x : Text) (l : List Text) → Perm (insert_sorted x l) (x ∷ l)
unfolding insert_sorted
insert_sorted-perm x [] = Perm.refl _
insert_sorted-perm x (y ∷ l) = elim (Bool-cases (text_le x y)) [
  | inl le ↦ rw le (Perm.refl _)
  | inr gt ↦ rw gt (Perm.trans (Perm.cons y (insert_sorted-perm x l)) (Perm.swap x y l))
]

pub sort-perm : (l : List Text) → Perm (sort l) l
unfolding sort
sort-perm [] = Perm.refl _
sort-perm (x ∷ l) = Perm.trans (insert_sorted-perm x (sort l)) (Perm.cons x (sort-perm l))

sort-eq_of_permᴰ : {xs ys : List Text} → Permᴰ xs ys → sort xs ≡ sort ys
unfolding sort
sort-eq_of_permᴰ Permᴰ.nil = refl
sort-eq_of_permᴰ (Permᴰ.cons e p) = ap₂ insert_sorted e (sort-eq_of_permᴰ p)
sort-eq_of_permᴰ (Permᴰ.swap {a = a} {b = b} {a' = c} {b' = d} {l = l} e f) =
    rw (e, f) (insert_sorted_comm d c (sort l))
sort-eq_of_permᴰ (Permᴰ.trans p q) = sort-eq_of_permᴰ p ∙ sort-eq_of_permᴰ q

texts-set : IsSet (List Text)
texts-set = hlevel ℕ_set

pub sort-eq_iff : (xs ys : List Text) → (sort xs ≡ sort ys) ↔ Perm xs ys
sort-eq_iff xs ys = (
  λ e. Perm.trans (Perm.symm (sort-perm xs)) (rw e (sort-perm ys)),
  λ p. ∥∥₁_elim p (texts-set _ _) sort-eq_of_permᴰ,
)
