-- ===== src/Text/Order.antt =====
-- `slices.Sort` on strings, in the order of their bytes. The sort is by insertion; the result of
-- sorting by a total order does not depend on the algorithm.
pub mod Laws
use thalassa_workload_identi.Common.{
  ℕ, ◌≡◌, refl, Bool, true, false, List, [], ◌∷◌, arith, ltb, ◌==◌, ◌&&◌, ◌||◌, if◌then◌else◌,
}
use thalassa_workload_identi.Text.Eq.{Text, text_eq}

-- `s <= t` on Go strings.
unfoldable pub text_le : Text → Text → Bool
text_le [] t = true
text_le (c ∷ s) [] = false
text_le (c ∷ s) (d ∷ t) = ltb c d || c == d && text_le s t

insert_sorted : Text → List Text → List Text
insert_sorted x [] = x ∷ []
insert_sorted x (y ∷ ys) = if text_le x y then x ∷ y ∷ ys else y ∷ insert_sorted x ys

unfoldable pub sort : List Text → List Text
unfolding insert_sorted text_le
sort [] = []
sort (x ∷ xs) = insert_sorted x (sort xs)

-- `slices.Equal` on strings.
unfoldable pub list_eq : List Text → List Text → Bool
unfolding text_eq
list_eq [] [] = true
list_eq [] (y ∷ ys) = false
list_eq (x ∷ xs) [] = false
list_eq (x ∷ xs) (y ∷ ys) = text_eq x y && list_eq xs ys
