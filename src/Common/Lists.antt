-- ===== src/Common/Lists.antt =====
-- Lists measured and tested by native numbers and Booleans, under the library's names.
use Prim.Native.Nat.{ℕ, zero, suc, ◌+◌, ◌≤◌, min}
use mathlib.Core.Path.{◌≡◌, refl}
use mathlib.Core.Logic.{◌↔◌, ◌⊎◌, inl, inr}
use mathlib.Core.Bool.{Bool, true, false, ◌&&◌, ◌||◌}
use mathlib.Core.List.{List, [], ◌∷◌, ◌++◌, map}
use native.Mathlib.Omega.{arith}

module _ {ℓ} {A : Type ℓ} where
  abbrev pub length : List A → ℕ
  length [] = 0
  length (x ∷ xs) = suc (length xs)

  abbrev pub take : ℕ → List A → List A
  take zero xs = []
  take (suc n) [] = []
  take (suc n) (x ∷ xs) = x ∷ take n xs

  -- A test on every element, and on some element.
  abbrev pub all : (A → Bool) → List A → Bool
  all p [] = true
  all p (x ∷ xs) = p x && all p xs

  abbrev pub any : (A → Bool) → List A → Bool
  any p [] = false
  any p (x ∷ xs) = p x || any p xs

  abbrev pub is_nil : List A → Bool
  is_nil [] = true
  is_nil (x ∷ xs) = false

  pub is_nil_iff : (l : List A) → (is_nil l ≡ true) ↔ (l ≡ [])
  is_nil_iff [] = (λ _. refl, λ _. refl)
  is_nil_iff (x ∷ l) = (λ h. cc, λ h. cc)

  pub any-append : (p : A → Bool) (xs ys : List A) → any p (xs ++ ys) ≡ (any p xs || any p ys)
  any-append p [] ys = refl
  any-append p (x ∷ xs) ys = ground (arith, any-append p xs ys)

  pub length-append : (xs ys : List A) → length (xs ++ ys) ≡ length xs + length ys
  length-append [] ys = omega arith
  length-append (x ∷ xs) ys = omega (arith, length-append xs ys)

  pub length-take : (n : ℕ) (xs : List A) → length (take n xs) ≡ min n (length xs)
  length-take zero xs = omega arith
  length-take (suc n) [] = omega arith
  length-take (suc n) (x ∷ xs) = omega (arith, length-take n xs)

  pub length-take-le : (n : ℕ) (xs : List A) → length (take n xs) ≤ n
  length-take-le zero xs = omega arith
  length-take-le (suc n) [] = omega arith
  length-take-le (suc n) (x ∷ xs) = omega (arith, length-take-le n xs)

module _ {ℓ} {A : Type ℓ} (P : A → Type 0) where
  -- A predicate on every element, and on some element, by recursion.
  abbrev pub All : List A → Type 0
  All [] = Unit
  All (x ∷ xs) = P x × All xs

  abbrev pub Any : List A → Type 0
  Any [] = ⊥
  Any (x ∷ xs) = P x ⊎ Any xs

  pub All-append : (xs ys : List A) → All xs → All ys → All (xs ++ ys)
  All-append [] ys h k = k
  All-append (x ∷ xs) ys (p, h) k = (p, All-append xs ys h k)

module _ {ℓ} {A : Type ℓ} {P : A → Type 0} (p : A → Bool)
    (agree : (a : A) → (p a ≡ true) ↔ P a) where
  pub all_iff : (xs : List A) → (all p xs ≡ true) ↔ All P xs
  all_iff [] = (λ _. tt, λ _. refl)
  all_iff (x ∷ xs) = ground (arith, agree x, all_iff xs)

  pub any_iff : (xs : List A) → (any p xs ≡ true) ↔ Any P xs
  any_iff [] = (λ h. cc, λ h. absurd h)
  any_iff (x ∷ xs) = ground (arith, agree x, any_iff xs)

-- A test that some element meets has an element of what it tests for.
pub any-Any :
    {A : Type 0} (P : A → Type 0) (p : A → Bool)
    → ((a : A) → p a ≡ true → P a)
    → (xs : List A) → any p xs ≡ true
    → Any P xs
any-Any P p sound [] h = cc
any-Any P p sound (x ∷ xs) h = ground (arith, sound x, any-Any P p sound xs)

pub Any-append_last :
    {A : Type 0} (P : A → Type 0) (xs : List A) (x : A) → P x → Any P (xs ++ x ∷ [])
Any-append_last P [] x h = inl h
Any-append_last P (y ∷ xs) x h = inr (Any-append_last P xs x h)

pub All-map :
    {A B : Type 0} (P : B → Type 0) (f : A → B)
    → ((a : A) → P (f a))
    → (xs : List A) → All P (map f xs)
All-map P f h [] = tt
All-map P f h (x ∷ xs) = (h x, All-map P f h xs)
