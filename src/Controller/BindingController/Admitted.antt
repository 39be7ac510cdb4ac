-- ===== src/Controller/BindingController/Admitted.antt =====
-- The rules by which the API server admits a binding, against what the controller accepts.
use thalassa_workload_identi.Common.{
  ◌≡◌, ◌≢◌, refl, sym, ap, ◌∙◌, true, false, not, List, [], ◌∷◌, All, all, arith, inl, inr,
  Bool-cases,
}
use thalassa_workload_identi.Text.Eq.{Text, codes, text_eq, text_eq_iff, is_empty}
use thalassa_workload_identi.Text.Trim.{trim_space}
use thalassa_workload_identi.Text.Trim.Laws.{trim_space-nil}
use thalassa_workload_identi.Errors.{ok}
use thalassa_workload_identi.Api.{WorkloadIdentityBinding}
use thalassa_workload_identi.Api.Rules.{admitted}
use thalassa_workload_identi.Wif.Scopes.{IamConstants, parse_scope_list}
use thalassa_workload_identi.Wif.Scopes.Laws.{Acceptable, parse_scope_list-accepts_iff}
use thalassa_workload_identi.Controller.Cleanup.{validate_desired, validate_desired_iff}
use thalassa_workload_identi.Controller.BindingController.{desired_of}

trim_space-star : trim_space (codes "*") ≡ codes "*"
unfolding trim_space
trim_space-star = refl

-- A text that is not blank is not empty, and one that is the wildcard once trimmed is the only one.
set_of_trimmed : (s : Text) → trim_space s ≢ [] → is_empty s ≡ false
set_of_trimmed [] h = absurd (h trim_space-nil)
set_of_trimmed (c ∷ s) h = refl

tame_of_trimmed : (s : Text) → trim_space s ≢ codes "*" → text_eq s (codes "*") ≡ false
tame_of_trimmed s h = elim (Bool-cases (text_eq s (codes "*"))) [
  | inl star ↦ absurd (h (ap trim_space ((text_eq_iff s (codes "*")).0 star) ∙ trim_space-star))
  | inr tame ↦ tame
]

tame_scopes :
    (k : IamConstants) (scopes : List Text)
    → All (Acceptable k) scopes
    → all (λ s. not (text_eq s (codes "*"))) scopes ≡ true
tame_scopes k [] h = refl
tame_scopes k (s ∷ scopes) (inl blank, h) =
    rw (tame_of_trimmed s (λ e. let e' = sym blank ∙ e in cc), tame_scopes k scopes h)
tame_scopes k (s ∷ scopes) (inr (tame, _), h) = rw (tame_of_trimmed s tame, tame_scopes k scopes h)

-- A binding that the controller accepts is one that the API server admits: the rules of the resource
-- never keep out a binding whose desired state and scopes pass.
pub validate_desired-admitted :
    (k : IamConstants) (b : WorkloadIdentityBinding) (scopes : List Text)
    → validate_desired (desired_of b) ≡ ok tt
    → parse_scope_list k b.scopes ≡ ok scopes
    → admitted b ≡ true
unfolding admitted desired_of
validate_desired-admitted k b scopes valid scoped =
    let d = (validate_desired_iff (desired_of b)).0 valid in
    let account = set_of_trimmed b.service_account_name d.service_account in
    let role = tame_of_trimmed b.role_ref d.no_wild_role in
    let policy = tame_of_trimmed b.policy_ref d.no_wild_policy in
    let tame =
      tame_scopes k b.scopes ((parse_scope_list-accepts_iff k b.scopes).0 (scopes, scoped)) in
    elim d.ref [
      | inl named ↦ (let set = set_of_trimmed b.role_ref named in ground arith)
      | inr named ↦ (let set = set_of_trimmed b.policy_ref named in ground arith)
    ]
