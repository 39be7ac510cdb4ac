-- ===== src/Config/Allowlist/Laws.antt =====
-- What the allowlist lets through.
use thalassa_workload_identi.Common.{
  ◌≡◌, refl, ◌≢◌, ◌↔◌, ◌⊎◌, inl, inr, Bool, true, List, [], ◌∷◌, arith, Any, any, any_iff,
  any-append, not, ◌&&◌, ◌||◌,
}
use thalassa_workload_identi.Text.Eq.{Text, is_empty, is_empty_iff}
use thalassa_workload_identi.Text.Trim.{trim_space}
use thalassa_workload_identi.Text.Fold.{equal_fold, fold_case, equal_fold_iff}
use thalassa_workload_identi.Errors.{ok}
use thalassa_workload_identi.Config.Allowlist.{
  add_candidate, add_candidates, candidates, entry_allows, ref_allowed, check_ref_allowlist,
}

-- The entry of an allowlist is one of the given names: neither is blank, and without the space
-- round them they differ in case at most.
abbrev pub Names : Text → List Text → Type 0
Names entry names =
    (trim_space entry ≢ [])
    × Any (λ c. (trim_space c ≢ []) × (fold_case (trim_space entry) ≡ fold_case (trim_space c)))
        names

abbrev accepts : (Text → Bool) → Text → Bool
accepts p r = not (is_empty (trim_space r)) && p (trim_space r)

any-add_candidate :
    (p : Text → Bool) (r : Text) (cs : List Text)
    → any p (add_candidate r cs) ≡ (any p cs || accepts p r)
unfolding add_candidate
any-add_candidate p r cs = ground (arith, any-append p cs (trim_space r ∷ []))

any-add_candidates :
    (p : Text → Bool) (resolved cs : List Text)
    → any p (add_candidates resolved cs) ≡ (any p cs || any (accepts p) resolved)
unfolding add_candidates
any-add_candidates p [] cs = ground arith
any-add_candidates p (r ∷ resolved) cs =
    rw (any-add_candidates p resolved (add_candidate r cs), any-add_candidate p r cs) (ground arith)

any-candidates :
    (p : Text → Bool) (ref : Text) (resolved : List Text)
    → any p (candidates ref resolved) ≡ any (accepts p) (ref ∷ resolved)
unfolding candidates
any-candidates p ref resolved =
    rw (any-add_candidates p resolved (add_candidate ref []), any-add_candidate p ref []) refl

accepts_iff :
    (entry r : Text)
    → (accepts (λ c. equal_fold (trim_space entry) c) r ≡ true)
      ↔ ((trim_space r ≢ []) × (fold_case (trim_space entry) ≡ fold_case (trim_space r)))
accepts_iff entry r =
    ground (arith, is_empty_iff (trim_space r), equal_fold_iff (trim_space entry) (trim_space r))

entry_allows_iff :
    (ref : Text) (resolved : List Text) (entry : Text)
    → (entry_allows (candidates ref resolved) entry ≡ true) ↔ Names entry (ref ∷ resolved)
unfolding entry_allows
entry_allows_iff ref resolved entry =
    let found =
      any_iff (accepts (λ c. equal_fold (trim_space entry) c)) (accepts_iff entry)
        (ref ∷ resolved) in
    rw (any-candidates (λ c. equal_fold (trim_space entry) c) ref resolved, entry_allows)
      (ground (arith, is_empty_iff (trim_space entry), found.0, found.1))

-- A reference is let through exactly when the allowlist is empty, or one of its entries that is not
-- blank equals the reference, or one of the resolved names, up to case and surrounding space.
pub ref_allowed_iff :
    (ref : Text) (allowlist resolved : List Text)
    → (ref_allowed ref allowlist resolved ≡ true)
      ↔ ((allowlist ≡ []) ⊎ Any (λ entry. Names entry (ref ∷ resolved)) allowlist)
unfolding ref_allowed
ref_allowed_iff ref [] resolved = (λ _. inl refl, λ _. refl)
ref_allowed_iff ref (entry ∷ rest) resolved =
    let found =
      any_iff (entry_allows (candidates ref resolved)) (entry_allows_iff ref resolved)
        (entry ∷ rest) in
    (λ h. inr (found.0 h), λ h. elim h [ inl e ↦ cc | inr f ↦ found.1 f ])

-- The check fails exactly when the reference is not blank, the allowlist is not empty and none of
-- its entries names the reference or what it was resolved to.
pub check_ref_allowlist_iff :
    (kind ref : Text) (allowlist resolved : List Text)
    → (check_ref_allowlist kind ref allowlist resolved ≡ ok tt) ↔ (
        (trim_space ref ≡ [])
        ⊎ ((allowlist ≡ []) ⊎ Any (λ entry. Names entry (trim_space ref ∷ resolved)) allowlist))
unfolding check_ref_allowlist
check_ref_allowlist_iff kind ref allowlist resolved =
    ground
      (arith, is_empty_iff (trim_space ref), ref_allowed_iff (trim_space ref) allowlist resolved)
