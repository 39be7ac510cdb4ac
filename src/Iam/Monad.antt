-- ===== src/Iam/Monad.antt =====
-- Calls one after another: the state goes on, and the first error ends the chain.
use thalassa_workload_identi.Common.{◌≡◌, refl, Option, none}
use thalassa_workload_identi.Errors.{Error, remote, wrapped, Context, Result, ok, err}
use thalassa_workload_identi.Iam.{Reply, answer, refusal}

abbrev pub M : Type 0 → Type 0 → Type 0
M S A = S → Result A × S

abbrev pub pure : {S A : Type 0} → A → M S A
pure a s = (ok a, s)

abbrev pub throw : {S A : Type 0} → Error → M S A
throw e s = (err e, s)

-- `if err != nil { return nil, err }` after a call.
abbrev pub after : {S A B : Type 0} → Result A × S → (A → M S B) → Result B × S
after (ok a, s) f = f a s
after (err e, s) f = (err e, s)

infixl 5 ◌>>=◌ ◌>>◌
abbrev pub ◌>>=◌ : {S A B : Type 0} → M S A → (A → M S B) → M S B
◌>>=◌ m f s = after (m s) f

abbrev pub ◌>>◌ : {S B : Type 0} → M S (Unit {0}) → M S B → M S B
m >> k = m >>= λ _. k

-- An answer of the client; its error is returned as it is.
abbrev pub received : {S A : Type 0} → Reply A × S → Result A × S
received (answer a, s) = (ok a, s)
received (refusal e, s) = (err (remote e), s)

abbrev pub call : {S A : Type 0} → (S → Reply A × S) → M S A
call op s = received (op s)

-- `fmt.Errorf("...: %w", err)`
abbrev pub rewrap : {S A : Type 0} → Context → Result A × S → Result A × S
rewrap context (ok a, s) = (ok a, s)
rewrap context (err e, s) = (err (wrapped context e), s)

abbrev pub wrapping : {S A : Type 0} → Context → M S A → M S A
wrapping context m s = rewrap context (m s)

-- `x, err := call(); if err == nil && ...`: an error is no more than a missing value.
abbrev pub tried : {S A : Type 0} → Reply (Option A) × S → Result (Option A) × S
tried (answer a, s) = (ok a, s)
tried (refusal e, s) = (ok none, s)

abbrev pub try_call : {S A : Type 0} → (S → Reply (Option A) × S) → M S (Option A)
try_call op s = tried (op s)

-- A pure step that may fail.
abbrev pub lift : {S A : Type 0} → Result A → M S A
lift r s = (r, s)

-- A chain that succeeds has succeeded in each step.
pub >>=-eq-ok :
    {S A B : Type 0} (m : M S A) (f : A → M S B) (s : S) {b : B} {t : S}
    → ◌≡◌ {A = Result B × S} ((m >>= f) s) (ok b, t)
    → (a : A) × (u : S) × ◌≡◌ {A = Result A × S} (m s) (ok a, u)
      × ◌≡◌ {A = Result B × S} (f a u) (ok b, t)
>>=-eq-ok {S} {A} {B} m f s {b} {t} e = split (m s) refl e
  where
    split :
        (r : Result A × S)
        → ◌≡◌ {A = Result A × S} (m s) r
        → ◌≡◌ {A = Result B × S} (after r f) (ok b, t)
        → (a : A) × (u : S) × ◌≡◌ {A = Result A × S} (m s) (ok a, u)
          × ◌≡◌ {A = Result B × S} (f a u) (ok b, t)
    split (ok a, u) p q = (a, u, p, q)
    split (err x, u) p q = cc

pub received-eq-ok :
    {S A : Type 0} (r : Reply A × S) {a : A} {t : S}
    → ◌≡◌ {A = Result A × S} (received r) (ok a, t)
    → ◌≡◌ {A = Reply A × S} r (answer a, t)
received-eq-ok (answer b, s) e = cc
received-eq-ok (refusal x, s) e = cc

pub pure-eq-ok :
    {S A : Type 0} {a b : A} {s t : S}
    → ◌≡◌ {A = Result A × S} (ok a, s) (ok b, t)
    → (a ≡ b) × (s ≡ t)
pure-eq-ok e = (cc, cc)

pub lift-eq-ok :
    {S A : Type 0} (r : Result A) {b : A} {s t : S}
    → ◌≡◌ {A = Result A × S} (r, s) (ok b, t)
    → (r ≡ ok b) × (s ≡ t)
lift-eq-ok r e = (cc, cc)
