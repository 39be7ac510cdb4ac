-- ===== src/Controller/AccountController/Released.antt =====
-- The ServiceAccount controller gives its finalizer up only after the cloud resources.
use thalassa_workload_identi.Common.{
  ◌≡◌, ◌⊎◌, refl, true, false, ◌&&◌, ◌||◌, Option, none, some, List, [], inl, inr, Bool-cases,
}
use thalassa_workload_identi.Text.Eq.{Text, is_empty}
use thalassa_workload_identi.Text.Trim.{trim_space}
use thalassa_workload_identi.Dict.{get}
use thalassa_workload_identi.Errors.{Result, ok, err, is_provider_not_ready}
use thalassa_workload_identi.Kube.{ServiceAccount}
use thalassa_workload_identi.Kube.Laws.{IsLawful}
use thalassa_workload_identi.Wif.Keys.{
  annotation_role, annotation_policy, annotation_scopes, finalizer_name, status_pending,
  status_ready,
}
use thalassa_workload_identi.Wif.Labels.{is_enabled, delete_resources}
use thalassa_workload_identi.Wif.Scopes.{parse_scopes}
use thalassa_workload_identi.Wif.Ensure.{EnsureResult, is_wildcard}
use thalassa_workload_identi.Wif.Workload.{ensure_workload_identity}
use thalassa_workload_identi.Controller.System.{
  Reconciler, System, ReconcileResult, done, outside_watch, on_iam, on_kube,
}
use thalassa_workload_identi.Controller.AccountController.Status.{patch_status}
use thalassa_workload_identi.Controller.AccountController.Effects.{release-iam}
use thalassa_workload_identi.Controller.AccountController.{
  input_of, delete_cloud_resources, noted, unless_failed, after_delete, delete_account,
  after_ensure, with_scopes, provision, reconcile_found,
}
use thalassa_workload_identi.Controller.AccountController.Held.{IsHeld, IsHeld-patch}

module _ (self : Reconciler) (L : IsLawful self.client) where
  abbrev pub Held : ServiceAccount → System self → Type 0
  Held sa s = IsHeld self.client L sa.namespace sa.name (L.view s.0)

  noted-Held :
      (sa : ServiceAccount) (status text : Text) (result : Option EnsureResult) (s : System self)
      → Held sa s
      → Held sa (noted self sa status text result s)
  unfolding noted
  noted-Held sa status text result s held =
      IsHeld-patch self.client L sa status text result s.0 held

  unless_failed-Held :
      (sa : ServiceAccount) (r : ReconcileResult) (x : Result (Unit {0}) × System self)
      → Held sa x.1
      → Held sa (unless_failed self r x).1
  unless_failed-Held sa r (ok _, s) held = held
  unless_failed-Held sa r (err e, s) held = held

  after_ensure-Held :
      (sa : ServiceAccount) (x : Result EnsureResult × System self)
      → Held sa x.1
      → Held sa (after_ensure self sa x).1
  after_ensure-Held sa (ok r, s) held =
      unless_failed-Held sa done (on_kube (patch_status self.client sa status_ready [] (some r)) s)
        (IsHeld-patch self.client L sa status_ready [] (some r) s.0 held)
  after_ensure-Held sa (err e, s) held = elim (Bool-cases (is_provider_not_ready e)) [
    | inl waits ↦ rw waits (noted-Held sa _ _ _ s held)
    | inr fails ↦ rw fails (noted-Held sa _ _ _ s held)
  ]

  with_scopes-Held :
      (sa : ServiceAccount) (x : Result (List Text)) (s : System self)
      → Held sa s
      → Held sa (with_scopes self sa x s).1
  with_scopes-Held sa (err e) s held = noted-Held sa _ _ _ s held
  with_scopes-Held sa (ok scopes) s held =
      after_ensure-Held sa
        (on_iam (ensure_workload_identity self.constants self.iam (input_of self.config sa scopes))
          (noted self sa status_pending [] none s))
        (noted-Held sa status_pending [] none s held)

  provision-Held :
      (sa : ServiceAccount) (s : System self) → Held sa s → Held sa (provision self sa s).1
  unfolding provision
  provision-Held sa s held =
      let role = trim_space (get annotation_role sa.annotations) in
      let policy = trim_space (get annotation_policy sa.annotations) in
      elim (Bool-cases (is_empty role && is_empty policy)) [
        | inl blank ↦ simp blank (noted-Held sa _ _ _ s held)
        | inr named ↦ elim (Bool-cases (is_wildcard role || is_wildcard policy)) [
          | inl wild ↦ simp (named, wild) (noted-Held sa _ _ _ s held)
          | inr tame ↦
              simp (named, tame)
                (with_scopes-Held sa
                  (parse_scopes self.constants (get annotation_scopes sa.annotations)) s held)
        ]
      ]

  -- The cleanup of the account ended well, and this is the state that it left.
  abbrev pub Deprovisioned : ServiceAccount → self.iam.State → self.iam.State → Type 0
  Deprovisioned sa s t =
      delete_cloud_resources self.iam self.config.cluster_identity sa s ≡ (ok tt, t)

  after_delete-released :
      (sa : ServiceAccount) (x : Result (Unit {0}) × System self)
      → Held sa x.1
      → Held sa (after_delete self sa x).1
        ⊎ ((x.0 ≡ ok tt) × ((after_delete self sa x).1.1 ≡ x.1.1))
  after_delete-released sa (ok _, s) held = inr (refl, release-iam self sa s)
  after_delete-released sa (err e, s) held = inl (noted-Held sa _ _ _ s held)

  delete_account-released :
      (sa : ServiceAccount) (s : System self)
      → delete_resources sa.annotations ≡ true
      → Held sa s
      → Held sa (delete_account self sa s).1 ⊎ Deprovisioned sa s.1 (delete_account self sa s).1.1
  unfolding delete_account
  delete_account-released sa s asked held =
      let x = on_iam (delete_cloud_resources self.iam self.config.cluster_identity sa) s in
      elim (after_delete-released sa x held) [
        | inl kept ↦ inl (simp asked kept)
        | inr (won, left) ↦ inr (simp asked (cc))
      ]

  -- Over a lawful API server, a pass over a watched service account that is stored, has our finalizer
  -- and asks for deletion leaves it stored with the finalizer, unless it is being deleted or has not
  -- opted in, and deleteCloudResources succeeded in this pass, which left the state of the IAM service.
  pub reconcile_found-released :
      (sa : ServiceAccount) (s : System self)
      → outside_watch self.config sa.namespace ≡ false
      → (L.view s.0).account_at sa.namespace sa.name ≡ some sa
      → self.client.contains_finalizer sa.finalizers finalizer_name ≡ true
      → delete_resources sa.annotations ≡ true
      → (let y = reconcile_found self sa s in
          Held sa y.1
          ⊎ (((sa.deleting ≡ true) ⊎ (is_enabled sa.annotations ≡ false))
              × Deprovisioned sa s.1 y.1.1))
  unfolding reconcile_found
  reconcile_found-released sa s watched there finalizer asked =
      let held : Held sa s = (sa, refl, refl, there, finalizer) in
      elim (Bool-cases sa.deleting) [
        | inl gone ↦ elim (delete_account-released sa s asked held) [
          | inl kept ↦ inl (simp (watched, gone, finalizer) kept)
          | inr won ↦ inr (inl gone, simp (watched, gone, finalizer) won)
        ]
        | inr live ↦ elim (Bool-cases (is_enabled sa.annotations)) [
          | inl enabled ↦ inl (simp (watched, live, enabled, finalizer) (provision-Held sa s held))
          | inr disabled ↦ elim (delete_account-released sa s asked held) [
            | inl kept ↦ inl (simp (watched, live, disabled, finalizer) kept)
            | inr won ↦ inr (inr disabled, simp (watched, live, disabled, finalizer) won)
          ]
        ]
      ]
