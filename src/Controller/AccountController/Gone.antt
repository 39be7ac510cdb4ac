-- ===== src/Controller/AccountController/Gone.antt =====
-- Where the API server answers, one pass over a service account that is being deleted lets go of it.
use thalassa_workload_identi.Common.{
  ◌≡◌, refl, ap, ◌∙◌, true, false, some, none, [], inl, inr, Bool-cases, if◌then◌else◌,
}
use thalassa_workload_identi.Text.Eq.{text_eq_refl}
use thalassa_workload_identi.Errors.{Result, ok}
use thalassa_workload_identi.Kube.{ServiceAccount}
use thalassa_workload_identi.Kube.Laws.{Cluster, put_account, remaining_account, IsLawful, IsUp}
use thalassa_workload_identi.Wif.Keys.{finalizer_name}
use thalassa_workload_identi.Wif.Labels.{delete_resources}
use thalassa_workload_identi.Controller.System.{Reconciler, System, done, outside_watch}
use thalassa_workload_identi.Controller.Binding.Up.{answered, written}
use thalassa_workload_identi.Controller.AccountController.{
  Outcome, delete_cloud_resources, release, delete_account, reconcile_found, reconcile,
}

module _ (self : Reconciler) (L : IsLawful self.client) (U : IsUp self.client L) where
  -- A pass that ends well, and after which the account is no longer stored.
  abbrev pub EndsGone : ServiceAccount → self.iam.State → Outcome self → Type 0
  EndsGone sa t y =
      (y.0 ≡ (done, none)) × (y.1.1 ≡ t) × ((L.view y.1.0).account_at sa.namespace sa.name ≡ none)

  release_up :
      (sa : ServiceAccount) (s : System self)
      → sa.deleting ≡ true
      → self.client.remove_finalizer sa.finalizers finalizer_name ≡ []
      → (L.view s.0).account_at sa.namespace sa.name ≡ some sa
      → EndsGone sa s.1 (release self sa s)
  unfolding release
  release_up sa s gone last there =
      let finalizers = self.client.remove_finalizer sa.finalizers finalizer_name in
      let new = record sa { finalizers = finalizers } in
      let write = self.client.update_service_account new s.0 in
      let up = U.update_service_account_up sa sa.annotations finalizers s.0 there in
      rw up (
        refl,
        refl,
        ap (λ (v : Cluster). v.account_at sa.namespace sa.name)
              (written write.0 (L.view s.0) (put_account new (remaining_account new) (L.view s.0))
                (L.view write.1) up
                (L.update_service_account_writes sa sa.annotations finalizers s.0 there))
            ∙ simp (text_eq_refl sa.namespace, text_eq_refl sa.name, gone, last),
      )

  -- What a deletion asks of the IAM service.
  abbrev pub cleanup : ServiceAccount → self.iam.State → Result (Unit {0}) × self.iam.State
  cleanup sa t =
      if delete_resources sa.annotations
      then delete_cloud_resources self.iam self.config.cluster_identity sa t
      else (ok tt, t)

  delete_account_up :
      (sa : ServiceAccount) (s : System self) (t : self.iam.State)
      → sa.deleting ≡ true
      → self.client.remove_finalizer sa.finalizers finalizer_name ≡ []
      → (L.view s.0).account_at sa.namespace sa.name ≡ some sa
      → cleanup sa s.1 ≡ (ok tt, t)
      → EndsGone sa t (delete_account self sa s)
  unfolding delete_account
  delete_account_up sa s t gone last there clean =
      elim (Bool-cases (delete_resources sa.annotations)) [
        | inl delete ↦
            let clean' = simp delete at clean in
            simp delete (rw clean' (release_up sa (s.0, t) gone last there))
        | inr keep ↦
            let clean' = simp keep at clean in
            simp keep (rw (← ap (λ x. x.1) clean') (release_up sa s gone last there))
      ]

  found_gone :
      (sa : ServiceAccount) (s : System self) (t : self.iam.State)
      → sa.deleting ≡ true
      → self.client.contains_finalizer sa.finalizers finalizer_name ≡ true
      → self.client.remove_finalizer sa.finalizers finalizer_name ≡ []
      → outside_watch self.config sa.namespace ≡ false
      → (L.view s.0).account_at sa.namespace sa.name ≡ some sa
      → cleanup sa s.1 ≡ (ok tt, t)
      → EndsGone sa t (reconcile_found self sa s)
  unfolding reconcile_found
  found_gone sa s t gone finalizer last watched there clean =
      simp (watched, finalizer, gone) (delete_account_up sa s t gone last there clean)

  -- Where the API server answers, a pass over a stored, watched service account that is being deleted,
  -- with our finalizer as the last one, returns no error and the account is no longer stored, where the
  -- cleanup that it asks for succeeds, which leaves the state of the IAM service.
  pub reconcile-lets_account_go :
      (sa : ServiceAccount) (s : System self) (t : self.iam.State)
      → sa.deleting ≡ true
      → self.client.contains_finalizer sa.finalizers finalizer_name ≡ true
      → self.client.remove_finalizer sa.finalizers finalizer_name ≡ []
      → outside_watch self.config sa.namespace ≡ false
      → (L.view s.0).account_at sa.namespace sa.name ≡ some sa
      → cleanup sa s.1 ≡ (ok tt, t)
      → EndsGone sa t (reconcile self sa.namespace sa.name s)
  unfolding reconcile
  reconcile-lets_account_go sa s t gone finalizer last watched there clean =
      let got = self.client.get_service_account sa.namespace sa.name s.0 in
      let keeps = L.get_service_account_keeps sa.namespace sa.name s.0 in
      rw (answered (U.get_service_account_up sa.namespace sa.name s.0) there) (
        found_gone sa (got.1, s.1) t gone finalizer last watched
          (ap (λ (v : Cluster). v.account_at sa.namespace sa.name) keeps ∙ there) clean)
