-- ===== src/Controller/Binding/Released.antt =====
-- When `reconcileBinding` gives a binding up: the stored bindings change only by the finalizer, and
-- the finalizer goes only after the cloud resources.
use thalassa_workload_identi.Common.{
  ◌≡◌, ◌⊎◌, refl, ap, ◌∙◌, true, ◌||◌, List, inl, inr, Bool-cases,
}
use thalassa_workload_identi.Text.Eq.{Text}
use thalassa_workload_identi.Text.Trim.{trim_space}
use thalassa_workload_identi.Errors.{Result, ok, err, Result-cases, is_provider_not_ready}
use thalassa_workload_identi.Api.{WorkloadIdentityBinding}
use thalassa_workload_identi.Kube.{ServiceAccount, Response, given, missing, failed}
use thalassa_workload_identi.Kube.Laws.{Cluster, IsLawful}
use thalassa_workload_identi.Wif.Scopes.{parse_scope_list}
use thalassa_workload_identi.Wif.Ensure.{EnsureResult}
use thalassa_workload_identi.Wif.Workload.{ensure_workload_identity}
use thalassa_workload_identi.Controller.Cleanup.{
  BindingDesired, validate_desired, delete_cloud_resources,
}
use thalassa_workload_identi.Controller.System.{Reconciler, System, outside_watch, on_iam, on_kube}
use thalassa_workload_identi.Controller.Binding.Calls.{clear_service_account}
use thalassa_workload_identi.Controller.Binding.Stored.{
  Bindings, bindings, clear_service_account-bindings, annotate_service_account-bindings,
  sync_identity_config_map-view,
}
use thalassa_workload_identi.Controller.Binding.{
  input_of, after_delete, after_clear, delete_binding, after_sync, maybe_sync, after_ensure,
  with_scopes, after_get, provision, reconcile_binding,
}
use thalassa_workload_identi.Controller.Binding.Effects.{after_annotate-state, release-iam}

module _ (self : Reconciler) (L : IsLawful self.client) where
  abbrev pub stored : System self → Bindings self.client L
  stored s = bindings self.client L s.0

  after_sync-stored :
      (sa : ServiceAccount) (r : EnsureResult) (x : Result (Unit {0}) × System self)
      → stored (after_sync self sa r x).1 ≡ stored x.1
  after_sync-stored sa r (ok _, s) = rw (after_annotate-state self r _) (
      annotate_service_account-bindings self.client L sa r.service_account_id
        (trim_space self.config.organisation_id) (trim_space self.config.project_identity) s.0)
  after_sync-stored sa r (err e, s) = refl

  maybe_sync-stored :
      (obj : WorkloadIdentityBinding) (d : BindingDesired) (r : EnsureResult) (s : System self)
      → stored (maybe_sync self obj d r s).1 ≡ stored s
  maybe_sync-stored obj d r s =
      elim (Bool-cases (d.identity_config_map || self.config.enable_identity_config_map)) [
        | inl wanted ↦ rw wanted (
            ap (λ (v : Cluster). v.binding_at)
              (sync_identity_config_map-view self.client L self.has_scheme obj d
                r.service_account_id (trim_space self.config.organisation_id)
                (trim_space self.config.project_identity) s.0))
        | inr unwanted ↦ rw unwanted
      ]

  after_ensure-stored :
      (obj : WorkloadIdentityBinding) (d : BindingDesired) (sa : ServiceAccount)
      (x : Result EnsureResult × System self)
      → stored (after_ensure self obj d sa x).1 ≡ stored x.1
  after_ensure-stored obj d sa (ok r, s) =
      after_sync-stored sa r (maybe_sync self obj d r s) ∙ maybe_sync-stored obj d r s
  after_ensure-stored obj d sa (err e, s) = elim (Bool-cases (is_provider_not_ready e)) [
    | inl waits ↦ rw waits
    | inr fails ↦ rw fails
  ]

  with_scopes-stored :
      (obj : WorkloadIdentityBinding) (d : BindingDesired) (sa : ServiceAccount)
      (x : Result (List Text)) (s : System self)
      → stored (with_scopes self obj d sa x s).1 ≡ stored s
  with_scopes-stored obj d sa (err e) s = refl
  with_scopes-stored obj d sa (ok scopes) s =
      after_ensure-stored obj d sa (
        on_iam (ensure_workload_identity self.constants self.iam (input_of self.config d scopes)) s)

  after_get-stored :
      (obj : WorkloadIdentityBinding) (d : BindingDesired) (x : Response ServiceAccount)
      (s : System self)
      → stored (after_get self obj d x s).1 ≡ stored s
  after_get-stored obj d (given sa) s =
      with_scopes-stored obj d sa (parse_scope_list self.constants d.scopes) s
  after_get-stored obj d (missing m) s = refl
  after_get-stored obj d (failed m) s = refl

  pub provision-stored :
      (obj : WorkloadIdentityBinding) (d : BindingDesired) (s : System self)
      → stored (provision self obj d s).1 ≡ stored s
  unfolding provision
  provision-stored obj d s = elim (Result-cases (validate_desired d)) [
    | inr (e, invalid) ↦ rw invalid
    | inl (_, valid) ↦ elim (Bool-cases (outside_watch self.config d.namespace)) [
      | inl outside ↦ rw (valid, outside)
      | inr watched ↦
          rw (valid, watched)
            (after_get-stored obj d
                (self.client.get_service_account d.namespace d.service_account s.0).0
                ((self.client.get_service_account d.namespace d.service_account s.0).1, s.1)
              ∙ ap (λ (v : Cluster). v.binding_at)
                  (L.get_service_account_keeps d.namespace d.service_account s.0))
    ]
  ]

  -- The cleanup ended well, and this is the state that it left.
  abbrev pub Deprovisioned : BindingDesired → self.iam.State → self.iam.State → Type 0
  Deprovisioned d s t =
      delete_cloud_resources self.iam self.config.cluster_identity d s ≡ (ok tt, t)

  after_delete-released :
      (obj : WorkloadIdentityBinding) (x : Result (Unit {0}) × System self)
      → (stored (after_delete self obj x).1 ≡ stored x.1)
        ⊎ ((x.0 ≡ ok tt) × ((after_delete self obj x).1.1 ≡ x.1.1))
  after_delete-released obj (ok _, s) = inr (refl, release-iam self obj s)
  after_delete-released obj (err e, s) = inl refl

  after_clear-released :
      (obj : WorkloadIdentityBinding) (d : BindingDesired) (x : Result (Unit {0}) × System self)
      → d.delete_resources ≡ true
      → (stored (after_clear self obj d x).1 ≡ stored x.1)
        ⊎ Deprovisioned d x.1.1 (after_clear self obj d x).1.1
  after_clear-released obj d (err e, s) asked = inl refl
  after_clear-released obj d (ok _, s) asked =
      elim (after_delete-released obj
        (on_iam (delete_cloud_resources self.iam self.config.cluster_identity d) s)) [
          | inl same ↦ inl (simp asked same)
          | inr (won, left) ↦ inr (simp asked (cc))
        ]

  -- Over a lawful API server, a pass over a binding that asks for deletion and has its finalizer
  -- leaves the stored bindings as they are, unless the binding is being deleted and
  -- deleteCloudResources succeeded in this pass, which left the state of the IAM service.
  pub reconcile_binding-released :
      (obj : WorkloadIdentityBinding) (d : BindingDesired) (s : System self)
      → d.delete_resources ≡ true
      → (let y = reconcile_binding self obj d true s in
          (stored y.1 ≡ stored s) ⊎ ((obj.deleting ≡ true) × Deprovisioned d s.1 y.1.1))
  unfolding reconcile_binding delete_binding
  reconcile_binding-released obj d s asked = elim (Bool-cases obj.deleting) [
    | inr live ↦ inl (simp live (provision-stored obj d s))
    | inl gone ↦
        let cleared = on_kube (clear_service_account self.client d.namespace d.service_account) s in
        let kept = clear_service_account-bindings self.client L d.namespace d.service_account s.0 in
        elim (after_clear-released obj d cleared asked) [
          | inl same ↦ inl (simp gone (same ∙ kept))
          | inr won ↦ inr (gone, simp gone won)
        ]
  ]
