-- ===== src/Wif/Spec/Bound.antt =====
-- What the binding steps of an ensure run leave behind in a lawful service, and that they find
-- nothing to do where the bindings are there already.
use thalassa_workload_identi.Common.{
  ◌≡◌, refl, sym, ap, ◌∙◌, inl, inr, true, Option, [], ◌∷◌, any, arith, Bool-cases,
}
use thalassa_workload_identi.Text.Eq.{Text, codes, is_empty, is_empty_iff}
use thalassa_workload_identi.Text.Trim.{trim_space}
use thalassa_workload_identi.Dict.{Dict}
use thalassa_workload_identi.Errors.{ok}
use thalassa_workload_identi.Config.Allowlist.{check_ref_allowlist}
use thalassa_workload_identi.Iam.{ServiceAccount, OrganisationRole, IamPolicy, Reply, IamClient}
use thalassa_workload_identi.Iam.Monad.{
  >>=-eq-ok, received-eq-ok, pure-eq-ok, lift-eq-ok, call, lift,
}
use thalassa_workload_identi.Iam.Laws.{View, IsLawful}
use thalassa_workload_identi.Wif.Find.{binds, resolve_iam_policy, resolve_organisation_role}
use thalassa_workload_identi.Wif.Ensure.{EnsureInput}
use thalassa_workload_identi.Wif.Bindings.{
  ensure_policy_binding, ensure_role_binding, policy_binding_request, role_binding_request,
}
use thalassa_workload_identi.Wif.Workload.{bind_policy, ensure_policy, bind_role, ensure_role}
use thalassa_workload_identi.Wif.Spec.{
  PolicyBound, RoleBound, PolicySettled, RoleSettled, policy_in, role_in,
}
use thalassa_workload_identi.Wif.Spec.Reads.{
  resolve_organisation_role_lem, resolve_iam_policy_lem, has_role_binding_for_sa_lem,
  has_policy_binding_for_sa_lem,
}

-- Only the policies matter to a policy reference, and only the roles to a role reference.
pub policy_in-same :
    (v w : View) (ref : Text)
    → v.policy ≡ w.policy
    → v.policies ≡ w.policies
    → policy_in v ref ≡ policy_in w ref
unfolding policy_in
policy_in-same v w ref e e' =
    ground (arith, ap (λ (f : Text → Reply (Option IamPolicy)). f (trim_space ref)) e)

pub role_in-same :
    (v w : View) (ref : Text) → v.role ≡ w.role → v.roles ≡ w.roles → role_in v ref ≡ role_in w ref
unfolding role_in
role_in-same v w ref e e' =
    ground (arith, ap (λ (f : Text → Reply (Option OrganisationRole)). f (trim_space ref)) e)

module _ (c : IamClient) (L : IsLawful c) where
  open L use {view}

  ensure_policy_binding_lem :
      (policy : IamPolicy) (sa : ServiceAccount) (key : Text) (labels : Dict) (s : c.State)
      {x : Unit {0}} {t : c.State}
      → ensure_policy_binding c policy sa key labels s ≡ (ok x, t)
      → (view t ≡ record (view s) { policy_bindings = (view t).policy_bindings })
        × (any (binds sa.identity) ((view t).policy_bindings policy.identity) ≡ true)
  unfolding ensure_policy_binding
  ensure_policy_binding_lem policy sa key labels s e =
      elim (Bool-cases (any (binds sa.identity) ((view s).policy_bindings policy.identity))) [
        | inl there ↦
            let (_, still) =
              pure-eq-ok (
                rw (has_policy_binding_for_sa_lem c L policy.identity sa.identity s, there) at e) in
            rw (← still) (refl, there)
        | inr missing ↦
            let e' =
              rw (has_policy_binding_for_sa_lem c L policy.identity sa.identity s, missing) at e in
            let (b, u, created, done) =
              >>=-eq-ok
                (call (
                  c.create_iam_policy_binding policy.identity
                    (policy_binding_request sa.identity key labels)))
                _ s e' in
            let (_, still) = pure-eq-ok done in
            rw (← still) (L.create_policy_binding policy.identity _ s (received-eq-ok _ created))
      ]

  ensure_role_binding_lem :
      (role : OrganisationRole) (sa : ServiceAccount) (key : Text) (labels : Dict) (s : c.State)
      {x : Unit {0}} {t : c.State}
      → ensure_role_binding c role sa key labels s ≡ (ok x, t)
      → (view t ≡ record (view s) { role_bindings = (view t).role_bindings })
        × (any (binds sa.identity) ((view t).role_bindings role.identity) ≡ true)
  unfolding ensure_role_binding
  ensure_role_binding_lem role sa key labels s e =
      elim (Bool-cases (any (binds sa.identity) ((view s).role_bindings role.identity))) [
        | inl there ↦
            let (_, still) =
              pure-eq-ok
                (rw (has_role_binding_for_sa_lem c L role.identity sa.identity s, there) at e) in
            rw (← still) (refl, there)
        | inr missing ↦
            let e' =
              rw (has_role_binding_for_sa_lem c L role.identity sa.identity s, missing) at e in
            let (b, u, created, done) =
              >>=-eq-ok
                (call (
                  c.create_role_binding role.identity
                    (role_binding_request sa.identity key labels)))
                _ s e' in
            let (_, still) = pure-eq-ok done in
            rw (← still) (L.create_role_binding role.identity _ s (received-eq-ok _ created))
      ]

  module _ (input : EnsureInput) (sa : ServiceAccount) (key : Text) (labels : Dict) where
    bind_policy_lem :
        (policy : IamPolicy) (s : c.State) {id : Text} {t : c.State}
        → bind_policy c input sa key labels policy s ≡ (ok id, t)
        → policy_in (view s) (trim_space input.policy_ref) ≡ ok policy
        → (view t ≡ record (view s) { policy_bindings = (view t).policy_bindings })
          × PolicyBound (view t) input sa id
    unfolding bind_policy
    bind_policy_lem policy s e resolved =
        let (_, u, checked, rest) =
          >>=-eq-ok
            (lift (
              check_ref_allowlist (codes "policy") (trim_space input.policy_ref)
                input.allowed_policies (policy.identity ∷ policy.slug ∷ policy.name ∷ [])))
            _ s e in
        let (allowed, at_u) = lift-eq-ok _ checked in
        let (_, u', bound, done) =
          >>=-eq-ok (ensure_policy_binding c policy sa key labels) _ u rest in
        let (same, at_t) = pure-eq-ok done in
        let (frame, there) =
          ensure_policy_binding_lem policy sa key labels s (rw (← at_u, at_t) at bound) in
        (
          frame,
          record {
            policy = policy;
            resolved =
                policy_in-same _ _ _ (ap (λ v. v.policy) frame) (ap (λ v. v.policies) frame)
                ∙ resolved;
            allowed = allowed;
            bound = there;
            recorded = sym same;
          },
        )

    -- The policy is settled afterwards, and nothing but policy bindings has changed.
    pub ensure_policy_lem :
        (s : c.State) {id : Text} {t : c.State}
        → ensure_policy c input sa key labels s ≡ (ok id, t)
        → (view t ≡ record (view s) { policy_bindings = (view t).policy_bindings })
          × PolicySettled (view t) input sa id
    unfolding ensure_policy
    ensure_policy_lem s e = elim (Bool-cases (is_empty (trim_space input.policy_ref))) [
      | inl blank ↦
          let (same, still) = pure-eq-ok (rw blank at e) in
          rw (← still) (refl, inl ((is_empty_iff _).0 blank, sym same))
      | inr full ↦
          let (policy, u, found, rest) =
            >>=-eq-ok (resolve_iam_policy c (trim_space input.policy_ref))
              (bind_policy c input sa key labels) s (rw full at e) in
          let (resolved, at_u) = lift-eq-ok _ (rw (resolve_iam_policy_lem c L _ s) at found) in
          let (frame, bound) = bind_policy_lem policy s (rw (← at_u) at rest) resolved in
          (frame, inr bound)
    ]

    bind_role_lem :
        (role : OrganisationRole) (s : c.State) {x : Unit {0}} {t : c.State}
        → bind_role c input sa key labels role s ≡ (ok x, t)
        → role_in (view s) (trim_space input.role_ref) ≡ ok role
        → (view t ≡ record (view s) { role_bindings = (view t).role_bindings })
          × RoleBound (view t) input sa
    unfolding bind_role
    bind_role_lem role s e resolved =
        let (_, u, checked, bound) =
          >>=-eq-ok
            (lift (
              check_ref_allowlist (codes "role") (trim_space input.role_ref) input.allowed_roles
                (role.identity ∷ role.slug ∷ role.name ∷ [])))
            _ s e in
        let (allowed, at_u) = lift-eq-ok _ checked in
        let (frame, there) = ensure_role_binding_lem role sa key labels s (rw (← at_u) at bound) in
        (
          frame,
          record {
            role = role;
            resolved =
                role_in-same _ _ _ (ap (λ v. v.role) frame) (ap (λ v. v.roles) frame) ∙ resolved;
            allowed = allowed;
            bound = there;
          },
        )

    -- The role is settled afterwards, and nothing but role bindings has changed.
    pub ensure_role_lem :
        (s : c.State) {x : Unit {0}} {t : c.State}
        → ensure_role c input sa key labels s ≡ (ok x, t)
        → (view t ≡ record (view s) { role_bindings = (view t).role_bindings })
          × RoleSettled (view t) input sa
    unfolding ensure_role
    ensure_role_lem s e = elim (Bool-cases (is_empty (trim_space input.role_ref))) [
      | inl blank ↦
          let (_, still) = pure-eq-ok (rw blank at e) in
          rw (← still) (refl, inl ((is_empty_iff _).0 blank))
      | inr full ↦
          let (role, u, found, rest) =
            >>=-eq-ok (resolve_organisation_role c (trim_space input.role_ref))
              (bind_role c input sa key labels) s (rw full at e) in
          let (resolved, at_u) =
            lift-eq-ok _ (rw (resolve_organisation_role_lem c L _ s) at found) in
          let (frame, bound) = bind_role_lem role s (rw (← at_u) at rest) resolved in
          (frame, inr bound)
    ]
