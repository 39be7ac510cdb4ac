-- ===== src/Controller/AccountController/Effects.antt =====
-- What a pass of the ServiceAccount controller does to the IAM service.
use thalassa_workload_identi.Common.{
  ◌≡◌, ◌⊎◌, refl, true, false, ◌&&◌, ◌||◌, Option, none, List, [], inl, inr, Bool-cases,
}
use thalassa_workload_identi.Text.Eq.{Text, is_empty}
use thalassa_workload_identi.Text.Trim.{trim_space}
use thalassa_workload_identi.Dict.{get}
use thalassa_workload_identi.Errors.{
  Error, wrapped, resolve_provider_for_delete, Result, ok, err, Result-cases, is_provider_not_ready,
}
use thalassa_workload_identi.Kube.{ServiceAccount}
use thalassa_workload_identi.Iam.{IamClient}
use thalassa_workload_identi.Iam.Laws
use thalassa_workload_identi.Wif.Keys.{
  annotation_role, annotation_policy, annotation_scopes, finalizer_name, status_pending,
}
use thalassa_workload_identi.Wif.Labels.{is_enabled, delete_resources}
use thalassa_workload_identi.Wif.Scopes.{parse_scopes}
use thalassa_workload_identi.Wif.Ensure.{EnsureResult, is_wildcard}
use thalassa_workload_identi.Wif.Workload.{ensure_workload_identity}
use thalassa_workload_identi.Wif.Spec.{provider_in}
use thalassa_workload_identi.Wif.Spec.Reads.{find_provider_by_cluster_id_lem}
use thalassa_workload_identi.Controller.System.{
  Reconciler, System, ReconcileResult, outside_watch, on_iam,
}
use thalassa_workload_identi.Controller.AccountController.{
  input_of, delete_cloud_resources, noted, unless_failed, release, after_delete, delete_account,
  add_account_finalizer, after_ensure, with_scopes, provision, reconcile_found,
}

-- Over a lawful service, where the search for the provider of the cluster fails, the cleanup of a
-- service account fails with that error and changes nothing.
pub delete_cloud_resources-blocked :
    (c : IamClient) (I : Laws.IsLawful c) (cluster_identity : Text) (sa : ServiceAccount)
    (s : c.State) {e : Error}
    → provider_in (I.view s) cluster_identity ≡ err e
    → delete_cloud_resources c cluster_identity sa s
      ≡ (err (wrapped resolve_provider_for_delete e), s)
unfolding delete_cloud_resources
delete_cloud_resources-blocked c I cluster_identity sa s missing =
    rw (find_provider_by_cluster_id_lem c I cluster_identity s, missing)

module _ (self : Reconciler) where
  -- The ways in which a pass over a service account may move the IAM service from `s` to `t`.
  pub data IamEffect (sa : ServiceAccount) (s t : self.iam.State) : Type 0 where
    untouched : t ≡ s → IamEffect sa s t
    provisioned :
        (scopes : List Text)
        → sa.deleting ≡ false
        → is_enabled sa.annotations ≡ true
        → self.client.contains_finalizer sa.finalizers finalizer_name ≡ true
        → outside_watch self.config sa.namespace ≡ false
        → parse_scopes self.constants (get annotation_scopes sa.annotations) ≡ ok scopes
        → t
          ≡ (ensure_workload_identity self.constants self.iam (input_of self.config sa scopes) s).1
        → IamEffect sa s t
    deprovisioned :
        (sa.deleting ≡ true) ⊎ (is_enabled sa.annotations ≡ false)
        → self.client.contains_finalizer sa.finalizers finalizer_name ≡ true
        → outside_watch self.config sa.namespace ≡ false
        → delete_resources sa.annotations ≡ true
        → t ≡ (delete_cloud_resources self.iam self.config.cluster_identity sa s).1
        → IamEffect sa s t

  noted-iam :
      (sa : ServiceAccount) (status text : Text) (r : Option EnsureResult) (s : System self)
      → (noted self sa status text r s).1 ≡ s.1
  unfolding noted
  noted-iam sa status text r s = refl

  unless_failed-state :
      (r : ReconcileResult) (x : Result (Unit {0}) × System self) → (unless_failed self r x).1 ≡ x.1
  unless_failed-state r (ok _, s) = refl
  unless_failed-state r (err e, s) = refl

  pub release-iam : (sa : ServiceAccount) (s : System self) → (release self sa s).1.1 ≡ s.1
  unfolding release
  release-iam sa s = rw (unless_failed-state _ _)

  add_account_finalizer-iam :
      (sa : ServiceAccount) (s : System self) → (add_account_finalizer self sa s).1.1 ≡ s.1
  unfolding add_account_finalizer
  add_account_finalizer-iam sa s = rw (unless_failed-state _ _)

  after_delete-iam :
      (sa : ServiceAccount) (x : Result (Unit {0}) × System self)
      → (after_delete self sa x).1.1 ≡ x.1.1
  after_delete-iam sa (ok _, s) = release-iam sa s
  after_delete-iam sa (err e, s) = noted-iam sa _ _ _ s

  delete_account-effect :
      (sa : ServiceAccount) (s : System self)
      → (sa.deleting ≡ true) ⊎ (is_enabled sa.annotations ≡ false)
      → self.client.contains_finalizer sa.finalizers finalizer_name ≡ true
      → outside_watch self.config sa.namespace ≡ false
      → IamEffect sa s.1 (delete_account self sa s).1.1
  unfolding delete_account
  delete_account-effect sa s why finalizer watched =
      elim (Bool-cases (delete_resources sa.annotations)) [
        | inl delete ↦ deprovisioned why finalizer watched delete (
            simp delete (
              after_delete-iam sa
                (on_iam (delete_cloud_resources self.iam self.config.cluster_identity sa) s)))
        | inr keep ↦ untouched (simp keep (release-iam sa s))
      ]

  after_ensure-iam :
      (sa : ServiceAccount) (x : Result EnsureResult × System self)
      → (after_ensure self sa x).1.1 ≡ x.1.1
  after_ensure-iam sa (ok r, s) = rw (unless_failed-state _ _)
  after_ensure-iam sa (err e, s) = elim (Bool-cases (is_provider_not_ready e)) [
    | inl waits ↦ rw waits (noted-iam sa _ _ _ s)
    | inr fails ↦ rw fails (noted-iam sa _ _ _ s)
  ]

  ensured-iam :
      (sa : ServiceAccount) (scopes : List Text) (s : System self)
      → (with_scopes self sa (ok scopes) s).1.1
        ≡ (ensure_workload_identity self.constants self.iam (input_of self.config sa scopes) s.1).1
  unfolding noted
  ensured-iam sa scopes s = after_ensure-iam sa (
      on_iam (ensure_workload_identity self.constants self.iam (input_of self.config sa scopes))
        (noted self sa status_pending [] none s))

  provision-effect :
      (sa : ServiceAccount) (s : System self)
      → sa.deleting ≡ false
      → is_enabled sa.annotations ≡ true
      → self.client.contains_finalizer sa.finalizers finalizer_name ≡ true
      → outside_watch self.config sa.namespace ≡ false
      → IamEffect sa s.1 (provision self sa s).1.1
  unfolding provision
  provision-effect sa s live enabled finalizer watched =
      let role = trim_space (get annotation_role sa.annotations) in
      let policy = trim_space (get annotation_policy sa.annotations) in
      elim (Bool-cases (is_empty role && is_empty policy)) [
        | inl blank ↦ untouched (simp blank (noted-iam sa _ _ _ s))
        | inr named ↦ elim (Bool-cases (is_wildcard role || is_wildcard policy)) [
          | inl wild ↦ untouched (simp (named, wild) (noted-iam sa _ _ _ s))
          | inr tame ↦
              elim (Result-cases
                (parse_scopes self.constants (get annotation_scopes sa.annotations))) [
                  | inr (e, bad) ↦ untouched (simp (named, tame, bad) (noted-iam sa _ _ _ s))
                  | inl (scopes, scoped) ↦
                      provisioned scopes live enabled finalizer watched scoped
                        (simp (named, tame, scoped) (ensured-iam sa scopes s))
                ]
        ]
      ]

  -- A pass over a service account leaves the IAM service as it was, or as EnsureWorkloadIdentity leaves
  -- it, which needs our finalizer and a watched account that has opted in and is not being deleted, or
  -- as deleteCloudResources leaves it, which needs our finalizer and an account that asks for it and is
  -- being deleted or has not opted in.
  pub reconcile_found-IamEffect :
      (sa : ServiceAccount) (s : System self) → IamEffect sa s.1 (reconcile_found self sa s).1.1
  unfolding reconcile_found
  reconcile_found-IamEffect sa s = elim (Bool-cases (outside_watch self.config sa.namespace)) [
    | inl outside ↦ untouched (simp outside)
    | inr watched ↦
        let finalizer_cases =
          Bool-cases (self.client.contains_finalizer sa.finalizers finalizer_name) in
        elim (Bool-cases sa.deleting) [
          | inl gone ↦ elim finalizer_cases [
            | inl on ↦ simp (watched, gone, on) (delete_account-effect sa s (inl gone) on watched)
            | inr off ↦ untouched (simp (watched, gone, off))
          ]
          | inr live ↦ elim (Bool-cases (is_enabled sa.annotations)) [
            | inl enabled ↦ elim finalizer_cases [
              | inl on ↦
                  simp (watched, live, enabled, on) (provision-effect sa s live enabled on watched)
              | inr off ↦
                  untouched (simp (watched, live, enabled, off) (add_account_finalizer-iam sa s))
            ]
            | inr disabled ↦ elim finalizer_cases [
              | inl on ↦
                  simp (watched, live, disabled, on)
                    (delete_account-effect sa s (inr disabled) on watched)
              | inr off ↦ untouched (simp (watched, live, disabled, off))
            ]
          ]
        ]
  ]
