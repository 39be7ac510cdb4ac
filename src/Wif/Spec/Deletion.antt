-- ===== src/Wif/Spec/Deletion.antt =====
-- What `DeleteWorkloadIdentity` takes out of a lawful IAM service, said of its view alone.
use thalassa_workload_identi.Common.{
  ◌≡◌, sym, ap, ◌∙◌, inl, inr, Option, none, some, List, [], ◌∷◌, if◌then◌else◌, Bool-cases,
}
use thalassa_workload_identi.Text.Eq.{Text, is_empty}
use thalassa_workload_identi.Text.Trim.{trim_space}
use thalassa_workload_identi.Dict.{Dict}
use thalassa_workload_identi.Errors.{Context, Result, ok, err, Result-cases}
use thalassa_workload_identi.Iam.{ServiceAccount, FederatedIdentity, Binding, IamClient}
use thalassa_workload_identi.Iam.Monad.{M, wrapping, rewrap, >>=-eq-ok, received-eq-ok, pure-eq-ok}
use thalassa_workload_identi.Iam.Laws.{View, IsLawful, account_in, identity_in}
use thalassa_workload_identi.Iam.Deletion.{
  drop_account, drop_identity, drop_role_binding, drop_policy_binding, IsDeleting,
}
use thalassa_workload_identi.Wif.Labels.{ownership_labels}
use thalassa_workload_identi.Wif.Subject.{build_kubernetes_subject, resource_key}
use thalassa_workload_identi.Wif.Bindings.{
  is_ours, delete_each, delete_role_binding_for_sa, delete_policy_binding_for_sa,
}
use thalassa_workload_identi.Wif.Workload.{
  delete_found_fi, delete_policy_bindings, delete_role_bindings, delete_found_sa,
  delete_workload_identity,
}
use thalassa_workload_identi.Wif.Spec.{role_in, policy_in}
use thalassa_workload_identi.Wif.Spec.Reads.{
  find_by_labels_sa_lem, find_by_labels_fi_lem, resolve_organisation_role_lem,
  resolve_iam_policy_lem,
}

-- The bindings of a list that are ours, dropped one after the other.
abbrev pub drop_ours : (Text → View → View) → Text → List Binding → View → View
drop_ours drop sa [] v = v
drop_ours drop sa (b ∷ bs) v = drop_ours drop sa bs (if is_ours sa b then drop b.identity v else v)

abbrev pub drop_policy_bindings : Text → Text → View → View
drop_policy_bindings policy sa v =
    drop_ours (drop_policy_binding policy) sa (v.policy_bindings policy) v

abbrev pub drop_role_bindings : Text → Text → View → View
drop_role_bindings role sa v = drop_ours (drop_role_binding role) sa (v.role_bindings role) v

-- A blank reference, or one that resolves to nothing, drops nothing.
abbrev pub drop_policy_ref : Text → Text → View → View
drop_policy_ref policy_ref sa v =
    if is_empty (trim_space policy_ref) then v else elim (policy_in v policy_ref) [
      | ok policy ↦ drop_policy_bindings policy.identity sa v
      | err _ ↦ v
    ]

abbrev pub drop_role_ref : Text → Text → View → View
drop_role_ref role_ref sa v =
    if is_empty (trim_space role_ref)
    then v
    else elim (role_in v role_ref) [ ok role ↦ drop_role_bindings role.identity sa v | err _ ↦ v ]

abbrev pub drop_found_identity : Option FederatedIdentity → View → View
drop_found_identity none v = v
drop_found_identity (some fi) v = drop_identity fi.identity v

abbrev pub drop_found_account : Text → Text → Option ServiceAccount → View → View
drop_found_account role_ref policy_ref none v = v
drop_found_account role_ref policy_ref (some sa) v =
    drop_account sa.identity
      (drop_role_ref role_ref sa.identity (drop_policy_ref policy_ref sa.identity v))

-- The first federated identity and the first account with the labels are dropped, and the bindings
-- of the account that are ours under the two references.
abbrev pub deprovisioned : Text → Text → Dict → View → View
deprovisioned role_ref policy_ref want v =
    let w = drop_found_identity (identity_in v want) v in
    drop_found_account role_ref policy_ref (account_in w want) w

rewrap-eq-ok :
    {S A : Type 0} (context : Context) (r : Result A × S) {a : A} {t : S}
    → ◌≡◌ {A = Result A × S} (rewrap context r) (ok a, t)
    → ◌≡◌ {A = Result A × S} r (ok a, t)
rewrap-eq-ok context (ok b, s) e = e
rewrap-eq-ok context (err x, s) e = cc

module _ (c : IamClient) (L : IsLawful c) (D : IsDeleting c L) where
  open L use {view}

  delete_each_lem :
      (context : Context) (delete : Text → M c.State (Unit {0})) (drop : Text → View → View)
      (law : (id : Text) (s : c.State) (x : Unit {0}) (t : c.State)
        → delete id s ≡ (ok x, t)
        → view t ≡ drop id (view s))
      (sa : Text) (bs : List Binding) (s : c.State) {x : Unit {0}} {t : c.State}
      → delete_each c context delete sa bs s ≡ (ok x, t)
      → view t ≡ drop_ours drop sa bs (view s)
  unfolding delete_each
  delete_each_lem context delete drop law sa [] s e = ap view (sym (pure-eq-ok e).1)
  delete_each_lem context delete drop law sa (b ∷ bs) s e = elim (Bool-cases (is_ours sa b)) [
    | inl ours ↦
        let (_, u, gone, rest) =
          >>=-eq-ok (wrapping context (delete b.identity)) _ s (rw ours at e) in
        rw ours (
          delete_each_lem context delete drop law sa bs u rest
          ∙ ap (drop_ours drop sa bs) (law b.identity s _ _ (rewrap-eq-ok context _ gone)))
    | inr other ↦ rw other (delete_each_lem context delete drop law sa bs s (rw other at e))
  ]

  pub delete_policy_binding_for_sa_lem :
      (policy sa : Text) (s : c.State) {x : Unit {0}} {t : c.State}
      → delete_policy_binding_for_sa c policy sa s ≡ (ok x, t)
      → view t ≡ drop_policy_bindings policy sa (view s)
  unfolding delete_policy_binding_for_sa
  delete_policy_binding_for_sa_lem policy sa s e =
      delete_each_lem _ _ (drop_policy_binding policy)
        (λ id u _ _ gone. D.delete_policy_binding policy id u (received-eq-ok _ gone)) sa
        ((view s).policy_bindings policy) s (rw L.read_policy_bindings at e)

  delete_role_binding_for_sa_lem :
      (role sa : Text) (s : c.State) {x : Unit {0}} {t : c.State}
      → delete_role_binding_for_sa c role sa s ≡ (ok x, t)
      → view t ≡ drop_role_bindings role sa (view s)
  unfolding delete_role_binding_for_sa
  delete_role_binding_for_sa_lem role sa s e =
      delete_each_lem _ _ (drop_role_binding role)
        (λ id u _ _ gone. D.delete_role_binding role id u (received-eq-ok _ gone)) sa
        ((view s).role_bindings role) s (rw L.read_role_bindings at e)

  delete_policy_bindings_lem :
      (policy_ref : Text) (sa : ServiceAccount) (s : c.State) {x : Unit {0}} {t : c.State}
      → delete_policy_bindings c policy_ref sa s ≡ (ok x, t)
      → view t ≡ drop_policy_ref policy_ref sa.identity (view s)
  unfolding delete_policy_bindings
  delete_policy_bindings_lem policy_ref sa s e =
      elim (Bool-cases (is_empty (trim_space policy_ref))) [
        | inl blank ↦ rw blank (ap view (sym (pure-eq-ok (rw blank at e)).1))
        | inr set ↦
            let e' = rw (set, resolve_iam_policy_lem c L policy_ref s) at e in
            elim (Result-cases (policy_in (view s) policy_ref)) [
              | inl (policy, found) ↦
                  rw (set, found)
                    (delete_policy_binding_for_sa_lem policy.identity sa.identity s
                      (rw found at e'))
              | inr (x, missing) ↦
                  rw (set, missing) (ap view (sym (pure-eq-ok (rw missing at e')).1))
            ]
      ]

  delete_role_bindings_lem :
      (role_ref : Text) (sa : ServiceAccount) (s : c.State) {x : Unit {0}} {t : c.State}
      → delete_role_bindings c role_ref sa s ≡ (ok x, t)
      → view t ≡ drop_role_ref role_ref sa.identity (view s)
  unfolding delete_role_bindings
  delete_role_bindings_lem role_ref sa s e = elim (Bool-cases (is_empty (trim_space role_ref))) [
    | inl blank ↦ rw blank (ap view (sym (pure-eq-ok (rw blank at e)).1))
    | inr set ↦
        let e' = rw (set, resolve_organisation_role_lem c L role_ref s) at e in
        elim (Result-cases (role_in (view s) role_ref)) [
          | inl (role, found) ↦
              rw (set, found)
                (delete_role_binding_for_sa_lem role.identity sa.identity s (rw found at e'))
          | inr (x, missing) ↦ rw (set, missing) (ap view (sym (pure-eq-ok (rw missing at e')).1))
        ]
  ]

  delete_found_fi_lem :
      (found : Option FederatedIdentity) (s : c.State) {x : Unit {0}} {t : c.State}
      → delete_found_fi c found s ≡ (ok x, t)
      → view t ≡ drop_found_identity found (view s)
  unfolding delete_found_fi
  delete_found_fi_lem none s e = ap view (sym (pure-eq-ok e).1)
  delete_found_fi_lem (some fi) s e =
      D.delete_identity fi.identity s (received-eq-ok _ (rewrap-eq-ok _ _ e))

  delete_found_sa_lem :
      (role_ref policy_ref : Text) (found : Option ServiceAccount) (s : c.State) {x : Unit {0}}
      {t : c.State}
      → delete_found_sa c role_ref policy_ref found s ≡ (ok x, t)
      → view t ≡ drop_found_account role_ref policy_ref found (view s)
  unfolding delete_found_sa
  delete_found_sa_lem role_ref policy_ref none s e = ap view (sym (pure-eq-ok e).1)
  delete_found_sa_lem role_ref policy_ref (some sa) s e =
      let (_, u, e1, f1) = >>=-eq-ok (delete_policy_bindings c policy_ref sa) _ s e in
      let (_, w, e2, f2) = >>=-eq-ok (delete_role_bindings c role_ref sa) _ u f1 in
      D.delete_account sa.identity w (received-eq-ok _ (rewrap-eq-ok _ _ f2))
      ∙ ap (drop_account sa.identity) (
          delete_role_bindings_lem role_ref sa u e2
          ∙ ap (drop_role_ref role_ref sa.identity) (delete_policy_bindings_lem policy_ref sa s e1))

  -- The two searches and deletions, once the labels are known.
  delete_labelled :
      (role_ref policy_ref : Text) (want : Dict) (s u : c.State) {x y : Unit {0}} {t : c.State}
      → delete_found_fi c (identity_in (view s) want) s ≡ (ok x, u)
      → delete_found_sa c role_ref policy_ref (account_in (view u) want) u ≡ (ok y, t)
      → view t ≡ deprovisioned role_ref policy_ref want (view s)
  delete_labelled role_ref policy_ref want s u e f =
      delete_found_sa_lem role_ref policy_ref _ u f
      ∙ ap (λ (v : View). drop_found_account role_ref policy_ref (account_in v want) v)
          (delete_found_fi_lem _ s e)

  -- Over a lawful service that deletes as is relied on, a deletion for two accepted names that succeeds
  -- has taken out of the service what `deprovisioned` says, and nothing else: the first federated identity
  -- and the first account with the labels, and where there is such an account, its bindings that are ours
  -- under the policy and the role to which the two given references resolve. Under a reference that is
  -- blank or does not resolve, and under any other policy or role, its bindings stay.
  pub delete_workload_identity-deprovisioned :
      (namespace name issuer role_ref policy_ref subject : Text) (s : c.State) {x : Unit {0}}
      {t : c.State}
      → build_kubernetes_subject namespace name ≡ ok subject
      → delete_workload_identity c namespace name issuer role_ref policy_ref s ≡ (ok x, t)
      → view t
        ≡ deprovisioned role_ref policy_ref
            (ownership_labels (resource_key namespace name subject issuer) namespace name)
            (view s)
  unfolding delete_workload_identity
  delete_workload_identity-deprovisioned namespace name issuer role_ref policy_ref subject s built
        e =
      let want = ownership_labels (resource_key namespace name subject issuer) namespace name in
      let e1 = rw built at e in
      let e2 = rw (find_by_labels_fi_lem c L want s) at e1 in
      let (_, u, dropped, rest) =
        >>=-eq-ok (delete_found_fi c (identity_in (view s) want)) _ s e2 in
      delete_labelled role_ref policy_ref want s u dropped
        (rw (find_by_labels_sa_lem c L want u) at rest)
