-- ===== src/Controller/BindingController/Gone.antt =====
-- Where the API server answers, one pass of `Reconcile` lets go of a binding that is being deleted.
use thalassa_workload_identi.Common.{
  ◌≡◌, refl, ap, ◌∙◌, true, false, Option, some, none, [], inl, inr, Bool-cases, if◌then◌else◌,
}
use thalassa_workload_identi.Text.Eq.{Text, text_eq_refl}
use thalassa_workload_identi.Errors.{Result, ok, err}
use thalassa_workload_identi.Api.{WorkloadIdentityBinding}
use thalassa_workload_identi.Kube.{ServiceAccount, Response, given, missing, failed, KubeClient}
use thalassa_workload_identi.Kube.Laws.{
  Cluster, Answers, remaining_binding, put_binding, IsLawful, IsUp,
}
use thalassa_workload_identi.Wif.Keys.{binding_finalizer_name}
use thalassa_workload_identi.Controller.Annotations.{clear_service_account_identity_annotations}
use thalassa_workload_identi.Controller.Cleanup.{BindingDesired, delete_cloud_resources}
use thalassa_workload_identi.Controller.System.{
  Reconciler, System, done, Reconciled, outside_watch, on_kube,
}
use thalassa_workload_identi.Controller.Binding.Calls.{cleared, clear_service_account}
use thalassa_workload_identi.Controller.Binding.{
  returned, release, after_clear, delete_binding, reconcile_binding,
}
use thalassa_workload_identi.Controller.Binding.Stored.{bindings, clear_service_account-bindings}
use thalassa_workload_identi.Controller.Binding.Up.{given-inj, written, replied_up}
use thalassa_workload_identi.Controller.BindingController.{
  desired_of, report, reconcile_found, reconcile,
}

-- An account that is stored under a name has that name.
abbrev pub IsKeyed : Text → Text → Option ServiceAccount → Type 0
IsKeyed ns n none = Unit
IsKeyed ns n (some sa) = (sa.namespace ≡ ns) × (sa.name ≡ n)

module _ (k : KubeClient) (L : IsLawful k) (U : IsUp k L) where
  cleared_up :
      (ns n : Text) (o : Option ServiceAccount) (x : Response ServiceAccount × k.State)
      → Answers o x.0
      → IsKeyed ns n o
      → (L.view x.1).account_at ns n ≡ o
      → (cleared k x).0 ≡ ok tt
  cleared_up ns n o (missing m, s) up keyed there = refl
  cleared_up ns n none (failed m, s) up keyed there = (let e = up.1 in cc)
  cleared_up ns n (some sa) (failed m, s) up keyed there = cc
  cleared_up ns n none (given sa, s) up keyed there = (let e = up.1 in cc)
  cleared_up ns n (some sa) (given got, s) up keyed there =
      rw (given-inj up)
        (elim (Bool-cases (clear_service_account_identity_annotations sa.annotations).1) [
          | inr same ↦ rw same
          | inl changed ↦ rw changed (
              replied_up k L U _ (
                U.update_service_account_up sa
                  (clear_service_account_identity_annotations sa.annotations).0 sa.finalizers s
                  (simp (keyed.0, keyed.1) there)))
        ])

  clear_service_account_up :
      (ns n : Text) (s : k.State)
      → IsKeyed ns n ((L.view s).account_at ns n)
      → (clear_service_account k ns n s).0 ≡ ok tt
  unfolding clear_service_account
  clear_service_account_up ns n s keyed =
      cleared_up ns n ((L.view s).account_at ns n) (k.get_service_account ns n s)
        (U.get_service_account_up ns n s) keyed
        (ap (λ (v : Cluster). v.account_at ns n) (L.get_service_account_keeps ns n s))

module _ (self : Reconciler) (L : IsLawful self.client) (U : IsUp self.client L) where
  -- A pass that ends well, and after which the binding is no longer stored.
  abbrev pub EndsGone : WorkloadIdentityBinding → self.iam.State → Reconciled × System self → Type 0
  EndsGone b t y =
      (y.0 ≡ returned done none none)
      × (y.1.1 ≡ t)
      × (bindings self.client L y.1.0 b.namespace b.name ≡ none)

  release_up :
      (b : WorkloadIdentityBinding) (s : System self)
      → b.deleting ≡ true
      → self.client.remove_finalizer b.finalizers binding_finalizer_name ≡ []
      → bindings self.client L s.0 b.namespace b.name ≡ some b
      → EndsGone b s.1 (release self b s)
  unfolding release
  release_up b s gone last there =
      let finalizers = self.client.remove_finalizer b.finalizers binding_finalizer_name in
      let new = record b { finalizers = finalizers } in
      let write = self.client.update_binding new s.0 in
      let up = U.update_binding_up b finalizers s.0 there in
      rw up (
        refl,
        refl,
        ap (λ (v : Cluster). v.binding_at b.namespace b.name)
              (written write.0 (L.view s.0) (put_binding new (remaining_binding new) (L.view s.0))
                (L.view write.1) up (L.update_binding_writes b finalizers s.0 there))
            ∙ simp (text_eq_refl b.namespace, text_eq_refl b.name, gone, last),
      )

  -- What a deletion asks of the IAM service.
  abbrev pub cleanup : BindingDesired → self.iam.State → Result (Unit {0}) × self.iam.State
  cleanup d t =
      if d.delete_resources
      then delete_cloud_resources self.iam self.config.cluster_identity d t
      else (ok tt, t)

  after_clear_up :
      (b : WorkloadIdentityBinding) (d : BindingDesired) (x : Result (Unit {0}) × System self)
      (t : self.iam.State)
      → x.0 ≡ ok tt
      → b.deleting ≡ true
      → self.client.remove_finalizer b.finalizers binding_finalizer_name ≡ []
      → bindings self.client L x.1.0 b.namespace b.name ≡ some b
      → cleanup d x.1.1 ≡ (ok tt, t)
      → EndsGone b t (after_clear self b d x)
  after_clear_up b d (err e, s) t won gone last there clean = cc
  after_clear_up b d (ok _, s) t won gone last there clean = elim (Bool-cases d.delete_resources) [
    | inl delete ↦
        let clean' = simp delete at clean in
        simp delete (rw clean' (release_up b (s.0, t) gone last there))
    | inr keep ↦
        let clean' = simp keep at clean in
        simp keep (rw (← ap (λ x. x.1) clean') (release_up b s gone last there))
  ]

  reported_gone :
      (b : WorkloadIdentityBinding) (y : Reconciled × System self) {t : self.iam.State}
      → y.0 ≡ returned done none none
      → y.1.1 ≡ t
      → bindings self.client L y.1.0 b.namespace b.name ≡ none
      → ((report self b y).0 ≡ (done, none))
        × ((report self b y).1.1 ≡ t)
        × (bindings self.client L (report self b y).1.0 b.namespace b.name ≡ none)
  unfolding report
  reported_gone b (r, s) e left absent = rw e (refl, left, absent)

  found_gone :
      (b : WorkloadIdentityBinding) (s : System self) (t : self.iam.State)
      → b.deleting ≡ true
      → self.client.contains_finalizer b.finalizers binding_finalizer_name ≡ true
      → self.client.remove_finalizer b.finalizers binding_finalizer_name ≡ []
      → outside_watch self.config b.namespace ≡ false
      → IsKeyed b.namespace b.service_account_name
          ((L.view s.0).account_at b.namespace b.service_account_name)
      → bindings self.client L s.0 b.namespace b.name ≡ some b
      → cleanup (desired_of b) s.1 ≡ (ok tt, t)
      → (let y = reconcile_found self b s in
          (y.0 ≡ (done, none))
          × (y.1.1 ≡ t)
          × (bindings self.client L y.1.0 b.namespace b.name ≡ none))
  unfolding reconcile_found reconcile_binding delete_binding report desired_of
  found_gone b s t gone finalizer last watched keyed there clean =
      let cleared =
        on_kube (clear_service_account self.client b.namespace b.service_account_name) s in
      let (reported, left, absent) =
        after_clear_up b (desired_of b) cleared t
          (clear_service_account_up self.client L U b.namespace b.service_account_name s.0 keyed)
          gone last
          (ap (λ v. v b.namespace b.name)
              (clear_service_account-bindings self.client L b.namespace b.service_account_name s.0)
            ∙ there)
          clean in
      simp (watched, finalizer, gone)
        (reported_gone b (after_clear self b (desired_of b) cleared) reported left absent)

  -- Where the API server answers, a pass over a stored, watched binding that is being deleted, with our
  -- finalizer as the last one, returns no error and the binding is no longer stored, where the cleanup
  -- that it asks for succeeds, which leaves the state of the IAM service, and where an account that is
  -- stored under the name of its service account has that name.
  pub reconcile-lets_go :
      (b : WorkloadIdentityBinding) (s : System self) (t : self.iam.State)
      → b.deleting ≡ true
      → self.client.contains_finalizer b.finalizers binding_finalizer_name ≡ true
      → self.client.remove_finalizer b.finalizers binding_finalizer_name ≡ []
      → outside_watch self.config b.namespace ≡ false
      → IsKeyed b.namespace b.service_account_name
          ((L.view s.0).account_at b.namespace b.service_account_name)
      → bindings self.client L s.0 b.namespace b.name ≡ some b
      → cleanup (desired_of b) s.1 ≡ (ok tt, t)
      → (let y = reconcile self b.namespace b.name s in
          (y.0 ≡ (done, none))
          × (y.1.1 ≡ t)
          × (bindings self.client L y.1.0 b.namespace b.name ≡ none))
  unfolding reconcile
  reconcile-lets_go b s t gone finalizer last watched keyed there clean =
      let got = self.client.get_binding b.namespace b.name s.0 in
      let keeps = L.get_binding_keeps b.namespace b.name s.0 in
      rw (U.get_binding_up b.namespace b.name s.0 there) (
        found_gone b (got.1, s.1) t gone finalizer last watched (rw keeps keyed)
          (ap (λ (v : Cluster). v.binding_at b.namespace b.name) keeps ∙ there) clean)
