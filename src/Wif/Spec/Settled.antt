-- ===== src/Wif/Spec/Settled.antt =====
-- The binding steps find nothing to do where the bindings are there already.
use thalassa_workload_identi.Common.{◌≡◌, ◌∙◌, ◌≢◌, inl, inr, true, [], any, arith, Bool-cases}
use thalassa_workload_identi.Text.Eq.{Text, is_empty, is_empty_iff}
use thalassa_workload_identi.Text.Trim.{trim_space}
use thalassa_workload_identi.Text.Trim.Laws.{trim_space_idem}
use thalassa_workload_identi.Dict.{Dict}
use thalassa_workload_identi.Errors.{ok}
use thalassa_workload_identi.Iam.{ServiceAccount, OrganisationRole, IamPolicy, IamClient}
use thalassa_workload_identi.Iam.Laws.{View, IsLawful}
use thalassa_workload_identi.Wif.Find.{binds}
use thalassa_workload_identi.Wif.Ensure.{EnsureInput}
use thalassa_workload_identi.Wif.Bindings.{ensure_policy_binding, ensure_role_binding}
use thalassa_workload_identi.Wif.Workload.{bind_policy, ensure_policy, bind_role, ensure_role}
use thalassa_workload_identi.Wif.Spec.{
  PolicyBound, RoleBound, PolicySettled, RoleSettled, policy_in,
}
use thalassa_workload_identi.Wif.Spec.Reads.{
  resolve_organisation_role_lem, resolve_iam_policy_lem, has_role_binding_for_sa_lem,
  has_policy_binding_for_sa_lem,
}

-- A blank reference resolves to no policy.
policy_in-blank :
    (v : View) (ref : Text) {p : IamPolicy} → trim_space ref ≡ [] → policy_in v ref ≢ ok p
unfolding policy_in
policy_in-blank v ref blank e = ground arith

module _ (c : IamClient) (L : IsLawful c) where
  open L use {view}

  ensure_policy_binding_bound :
      (policy : IamPolicy) (sa : ServiceAccount) (key : Text) (labels : Dict) (s : c.State)
      → any (binds sa.identity) ((view s).policy_bindings policy.identity) ≡ true
      → ensure_policy_binding c policy sa key labels s ≡ (ok tt, s)
  unfolding ensure_policy_binding
  ensure_policy_binding_bound policy sa key labels s there =
      rw (has_policy_binding_for_sa_lem c L policy.identity sa.identity s, there)

  ensure_role_binding_bound :
      (role : OrganisationRole) (sa : ServiceAccount) (key : Text) (labels : Dict) (s : c.State)
      → any (binds sa.identity) ((view s).role_bindings role.identity) ≡ true
      → ensure_role_binding c role sa key labels s ≡ (ok tt, s)
  unfolding ensure_role_binding
  ensure_role_binding_bound role sa key labels s there =
      rw (has_role_binding_for_sa_lem c L role.identity sa.identity s, there)

  module _ (input : EnsureInput) (sa : ServiceAccount) (key : Text) (labels : Dict)
      (s : c.State) where
    bind_policy_bound :
        {id : Text}
        → (b : PolicyBound (view s) input sa id)
        → bind_policy c input sa key labels b.policy s ≡ (ok id, s)
    unfolding bind_policy
    bind_policy_bound b =
        rw (b.allowed, ensure_policy_binding_bound b.policy sa key labels s b.bound, ← b.recorded)

    -- A policy that is settled stays as it is.
    pub ensure_policy_settled :
        {id : Text}
        → PolicySettled (view s) input sa id
        → ensure_policy c input sa key labels s ≡ (ok id, s)
    unfolding ensure_policy
    ensure_policy_settled (inl (blank, unset)) = rw ((is_empty_iff _).1 blank, unset)
    ensure_policy_settled (inr b) = elim (Bool-cases (is_empty (trim_space input.policy_ref))) [
      | inl blank ↦
          absurd
            (policy_in-blank (view s) _ (trim_space_idem _ ∙ (is_empty_iff _).0 blank) b.resolved)
      | inr full ↦ rw full (
          rw (resolve_iam_policy_lem c L (trim_space input.policy_ref) s, b.resolved)
            (bind_policy_bound b))
    ]

    bind_role_bound :
        (b : RoleBound (view s) input sa) → bind_role c input sa key labels b.role s ≡ (ok tt, s)
    unfolding bind_role
    bind_role_bound b = rw (b.allowed, ensure_role_binding_bound b.role sa key labels s b.bound)

    -- So does a role.
    pub ensure_role_settled :
        RoleSettled (view s) input sa → ensure_role c input sa key labels s ≡ (ok tt, s)
    unfolding ensure_role
    ensure_role_settled (inl blank) = rw ((is_empty_iff _).1 blank)
    ensure_role_settled (inr b) = elim (Bool-cases (is_empty (trim_space input.role_ref))) [
      | inl blank ↦ rw blank
      | inr full ↦ rw full (
          rw (resolve_organisation_role_lem c L (trim_space input.role_ref) s, b.resolved)
            (bind_role_bound b))
    ]
