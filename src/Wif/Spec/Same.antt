-- ===== src/Wif/Spec/Same.antt =====
-- The names that a run derives, and that a lookup in the view depends on its own part of it alone.
use thalassa_workload_identi.Common.{◌≡◌, ap, ◌∙◌, inl, inr, true, List, any, arith}
use thalassa_workload_identi.Text.Eq.{Text}
use thalassa_workload_identi.Dict.{Dict}
use thalassa_workload_identi.Errors.{ok, Result-cases}
use thalassa_workload_identi.Iam.{FederatedIdentityProvider, ServiceAccount, FederatedIdentity}
use thalassa_workload_identi.Iam.Laws.{View, account_in, identity_in}
use thalassa_workload_identi.Wif.Labels.{labels_match}
use thalassa_workload_identi.Wif.Labels.Laws.{ownership_labels_match_self}
use thalassa_workload_identi.Wif.Subject.{build_kubernetes_subject, normalize_issuer}
use thalassa_workload_identi.Wif.Find.{first_labelled, binds}
use thalassa_workload_identi.Wif.Ensure.{EnsureInput}
use thalassa_workload_identi.Wif.Workload.{Names, names_of, derive_names}
use thalassa_workload_identi.Wif.Spec.{provider_in, PolicySettled}
use thalassa_workload_identi.Wif.Spec.Bound.{policy_in-same}

-- Names come from an issuer that is not empty and an accepted subject.
pub derive_names-eq-ok :
    (input : EnsureInput) (provider : FederatedIdentityProvider) {n : Names}
    → derive_names input provider ≡ ok n
    → (subject : Text) × (build_kubernetes_subject input.namespace input.service_account
        ≡ ok subject)
      × (n ≡ names_of input (normalize_issuer provider.provider_issuer) subject)
unfolding derive_names
derive_names-eq-ok input provider {n} e =
    elim (Result-cases (build_kubernetes_subject input.namespace input.service_account)) [
      | inl (subject, built) ↦ (subject, built, ground arith)
      | inr (x, failed) ↦ absurd (ground arith)
    ]

-- The labels that a run gives its resources match themselves.
pub derive_names-labels :
    (input : EnsureInput) (provider : FederatedIdentityProvider) {n : Names}
    → derive_names input provider ≡ ok n
    → labels_match n.labels n.labels ≡ true
derive_names-labels input provider e =
    let (subject, _, same) = derive_names-eq-ok input provider e in
    rw same (ownership_labels_match_self _ _ _)

-- A lookup depends on its own part of the view.
pub account_in-same :
    (v w : View) (want : Dict) → v.accounts ≡ w.accounts → account_in v want ≡ account_in w want
account_in-same v w want e =
    ap (λ (f : Dict → List ServiceAccount). first_labelled (λ sa. sa.labels) want (f want)) e

pub identity_in-same :
    (v w : View) (want : Dict)
    → v.identities ≡ w.identities
    → identity_in v want ≡ identity_in w want
identity_in-same v w want e =
    ap (λ (f : Dict → List FederatedIdentity). first_labelled (λ fi. fi.labels) want (f want)) e

pub provider_in-same :
    (v w : View) (id : Text) → v.providers ≡ w.providers → provider_in v id ≡ provider_in w id
unfolding provider_in
provider_in-same v w id e = rw e

pub PolicySettled-same :
    (v w : View) (input : EnsureInput) (sa : ServiceAccount) (id : Text)
    → v ≡ record w { role_bindings = v.role_bindings }
    → PolicySettled w input sa id
    → PolicySettled v input sa id
PolicySettled-same v w input sa id frame (inl none_asked) = inl none_asked
PolicySettled-same v w input sa id frame (inr b) = inr (record {
  policy = b.policy;
  resolved =
      policy_in-same v w _ (ap (λ (x : View). x.policy) frame) (ap (λ (x : View). x.policies) frame)
      ∙ b.resolved;
  allowed = b.allowed;
  bound =
      ap (λ (x : View). any (binds sa.identity) (x.policy_bindings b.policy.identity)) frame
      ∙ b.bound;
  recorded = b.recorded;
})
