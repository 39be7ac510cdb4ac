-- ===== src/Wif/Find/Laws.antt =====
-- What the searches of internal/wif/ensure.go find.
use thalassa_workload_identi.Common.{
  is_nil_iff, ℕ, ◌+◌, ◌≡◌, refl, ap, ◌≢◌, ◌↔◌, ◌⊎◌, inl, inr, Bool, Option, none, some, List, [],
  ◌∷◌, arith, length, if◌then◌else◌, Bool-cases,
}
use thalassa_workload_identi.Text.Eq.{Text, codes, text_eq_iff, is_empty_iff}
use thalassa_workload_identi.Text.Trim.{trim_space}
use thalassa_workload_identi.Text.Fold.{equal_fold}
use thalassa_workload_identi.Dict.{Dict}
use thalassa_workload_identi.Errors.{provider_not_ready, multiple_providers, Result, ok, err}
use thalassa_workload_identi.Iam.{FederatedIdentityProvider, IamPolicy}
use thalassa_workload_identi.Wif.Labels.{labels_match}
use thalassa_workload_identi.Wif.Find.{
  scan_providers, one_provider, or_policy_not_found, policy_alias, scan_policies,
}
use thalassa_workload_identi.Wif.Ensure.{EnsureInput, validate_ensure_input}

-- The providers whose labels match.
abbrev pub matching : Dict → List FederatedIdentityProvider → List FederatedIdentityProvider
matching want [] = []
matching want (p ∷ ps) =
    if labels_match p.labels want then p ∷ matching want ps else matching want ps

abbrev pub the_only : Text → List FederatedIdentityProvider → Result FederatedIdentityProvider
the_only id [] = err (provider_not_ready id)
the_only id (p ∷ []) = ok p
the_only id (p ∷ q ∷ ps) = err (multiple_providers id)

abbrev last_or :
    Option FederatedIdentityProvider
    → List FederatedIdentityProvider
    → Option FederatedIdentityProvider
last_or o [] = o
last_or o (p ∷ ps) = last_or (some p) ps

at_count :
    {m n : ℕ} (o : Option FederatedIdentityProvider)
    → m ≡ n
    → ◌≡◌ {A = ℕ × Option FederatedIdentityProvider} (m, o) (n, o)
at_count o e = ap (λ (k : ℕ). (k, o)) e

scan_providers_lem :
    (want : Dict) (ps : List FederatedIdentityProvider) (n : ℕ)
    (o : Option FederatedIdentityProvider)
    → scan_providers want ps n o ≡ (length (matching want ps) + n, last_or o (matching want ps))
unfolding scan_providers
scan_providers_lem want [] n o = at_count o (omega arith)
scan_providers_lem want (p ∷ ps) n o = elim (Bool-cases (labels_match p.labels want)) [
  | inl hit ↦ rw (hit, scan_providers_lem want ps) (at_count _ (omega arith))
  | inr miss ↦ rw miss (scan_providers_lem want ps n o)
]

-- The search for a provider succeeds exactly with the one provider whose labels match, and tells
-- none from several.
pub one_provider-scan_providers :
    (id : Text) (want : Dict) (ps : List FederatedIdentityProvider)
    → one_provider id (scan_providers want ps 0 none) ≡ the_only id (matching want ps)
unfolding one_provider
one_provider-scan_providers id want ps =
    rw (scan_providers_lem want ps 0 none) (decided (matching want ps))
  where
    decided :
        (ms : List FederatedIdentityProvider)
        → one_provider id (length ms + 0, last_or none ms) ≡ the_only id ms
    decided [] = refl
    decided (p ∷ []) = refl
    decided (p ∷ q ∷ ms) = ground arith

abbrev pub first_policy : (IamPolicy → Bool) → List IamPolicy → Option IamPolicy
first_policy test [] = none
first_policy test (p ∷ ps) = if test p then some p else first_policy test ps

abbrev pub or_policy : Option IamPolicy → Option IamPolicy → Option IamPolicy
or_policy none o = o
or_policy (some p) o = some p

scan_policies_from :
    (ref : Text) (ps : List IamPolicy) (o : Option IamPolicy)
    → scan_policies ref ps o
      ≡ or_policy_not_found ref (
          or_policy
            (first_policy (λ p. equal_fold p.identity ref) ps)
            (or_policy o (first_policy (policy_alias ref) ps)))
unfolding scan_policies
scan_policies_from ref [] none = refl
scan_policies_from ref [] (some q) = refl
scan_policies_from ref (p ∷ ps) none =
    ground (arith, scan_policies_from ref ps none, scan_policies_from ref ps (some p))
scan_policies_from ref (p ∷ ps) (some q) = ground (arith, scan_policies_from ref ps (some q))

-- A policy is found by its identity before any is found by slug or name, wherever they stand in the
-- list; the first of either kind wins.
pub scan_policies_lem :
    (ref : Text) (ps : List IamPolicy)
    → scan_policies ref ps none
      ≡ or_policy_not_found ref (
          or_policy
            (first_policy (λ p. equal_fold p.identity ref) ps)
            (first_policy (policy_alias ref) ps))
scan_policies_lem ref ps = scan_policies_from ref ps none

-- What an input must have.
pub record IsEnsureInput (input : EnsureInput) : Type 0 where
  pub namespace : trim_space input.namespace ≢ []
  pub service_account : trim_space input.service_account ≢ []
  pub ref : (trim_space input.role_ref ≢ []) ⊎ (trim_space input.policy_ref ≢ [])
  pub no_wild_role : trim_space input.role_ref ≢ codes "*"
  pub no_wild_policy : trim_space input.policy_ref ≢ codes "*"
  pub cluster : trim_space input.cluster_identity ≢ []
  pub audiences : input.trusted_audiences ≢ []
  pub scopes : input.scopes ≢ []

-- An input is accepted exactly when it names a service account, a role or a policy and no wildcard,
-- a cluster, audiences and scopes.
pub validate_ensure_input_iff :
    (input : EnsureInput) → (validate_ensure_input input ≡ ok tt) ↔ IsEnsureInput input
unfolding validate_ensure_input
validate_ensure_input_iff input = ground (
  arith,
  is_empty_iff (trim_space input.namespace),
  is_empty_iff (trim_space input.service_account),
  is_empty_iff (trim_space input.role_ref),
  is_empty_iff (trim_space input.policy_ref),
  text_eq_iff (trim_space input.role_ref) (codes "*"),
  text_eq_iff (trim_space input.policy_ref) (codes "*"),
  is_empty_iff (trim_space input.cluster_identity),
  is_nil_iff input.trusted_audiences,
  is_nil_iff input.scopes,
)
