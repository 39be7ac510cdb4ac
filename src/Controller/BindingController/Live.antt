-- ===== src/Controller/BindingController/Live.antt =====
-- Where the API server answers, `Reconcile` of a binding gets somewhere: a binding that can be
-- provisioned becomes ready, and one that is being deleted goes.
use Prim.Native.Nat.{ℕ}
use thalassa_workload_identi.Common.{◌≡◌, refl, ap, ◌∙◌, true, false, Option, some, none, []}
use thalassa_workload_identi.Text.Eq.{codes, text_eq_refl}
use thalassa_workload_identi.Errors.{Error}
use thalassa_workload_identi.Api.{WorkloadIdentityBinding}
use thalassa_workload_identi.Kube.{ServiceAccount}
use thalassa_workload_identi.Kube.Laws.{Cluster, remaining_binding, put_binding, IsLawful, IsUp}
use thalassa_workload_identi.Wif.Keys.{binding_finalizer_name, status_pending}
use thalassa_workload_identi.Wif.Ensure.{EnsureResult}
use thalassa_workload_identi.Controller.Conditions.{BindingObserved}
use thalassa_workload_identi.Controller.Cleanup.{BindingDesired}
use thalassa_workload_identi.Controller.System.{
  Reconciler, System, ReconcileResult, done, again, Reconciled, outside_watch,
}
use thalassa_workload_identi.Controller.Binding.{
  observing, ready_of, returned, provision, add_binding_finalizer, reconcile_binding,
}
use thalassa_workload_identi.Controller.Binding.Effects.{add_binding_finalizer-iam}
use thalassa_workload_identi.Controller.Binding.Released.{provision-stored}
use thalassa_workload_identi.Controller.Binding.Live.{
  Wants, IsProvisionable, annotated, provision_up,
}
use thalassa_workload_identi.Controller.Binding.Up.{Fits, written}
use thalassa_workload_identi.Controller.BindingController.{
  desired_of, patch_status, report, reconcile_found, reconcile,
}
use thalassa_workload_identi.Controller.BindingController.Patch.{patched, report_reconciled}

module _ (self : Reconciler) (L : IsLawful self.client) (U : IsUp self.client L) where
  -- A call of `Reconcile` that leaves the binding ready with a result, and its account annotated.
  pub record IsReadyEnd (b : WorkloadIdentityBinding) (sa : ServiceAccount) (r : EnsureResult)
      (t : self.iam.State) (y : (ReconcileResult × Option Error) × System self) : Type 0 where
    pub outcome : y.0 ≡ (done, none)
    pub iam : y.1.1 ≡ t
    pub time : ℕ
    pub stored :
        (L.view y.1.0).binding_at b.namespace b.name
        ≡ some (patched self L U b (ready_of self.config r) time)
    pub account : (L.view y.1.0).account_at sa.namespace sa.name ≡ some (annotated self L U sa r)
    pub fits : Wants self L U (desired_of b) → Fits self.client L U b (desired_of b) y.1.0

  put_binding-at :
      (b new : WorkloadIdentityBinding) (v : Cluster)
      → (put_binding b (some new) v).binding_at b.namespace b.name ≡ some new
  put_binding-at b new v = rw (text_eq_refl b.namespace, text_eq_refl b.name)

  report-IsReadyEnd :
      (b : WorkloadIdentityBinding) (sa : ServiceAccount) (r : EnsureResult) (t : self.iam.State)
      (y : Reconciled × System self)
      → (y.0 ≡ returned done (some (ready_of self.config r)) none)
        × (y.1.1 ≡ t)
        × ((L.view y.1.0).account_at sa.namespace sa.name ≡ some (annotated self L U sa r))
        × (Wants self L U (desired_of b) → Fits self.client L U b (desired_of b) y.1.0)
      → (L.view y.1.0).binding_at b.namespace b.name ≡ some b
      → IsReadyEnd b sa r t (report self b y)
  report-IsReadyEnd b sa r t y (e, at_t, account, fits) there =
      let (outcome, iam, maps, (now, left)) =
        report_reconciled self L U b (ready_of self.config r) done y e there in
      record {
        outcome = outcome;
        iam = iam ∙ at_t;
        time = now;
        stored =
            ap (λ (v : Cluster). v.binding_at b.namespace b.name) left
            ∙ put_binding-at b (patched self L U b (ready_of self.config r) now) (L.view y.1.0);
        account = ap (λ (v : Cluster). v.account_at sa.namespace sa.name) left ∙ account;
        fits = λ wanted. rw maps (fits wanted);
      }

  found-IsReadyEnd :
      (b : WorkloadIdentityBinding) (r : EnsureResult) (s : System self) (t : self.iam.State)
      (p : IsProvisionable self L U b (desired_of b) r s t)
      → b.deleting ≡ false
      → self.client.contains_finalizer b.finalizers binding_finalizer_name ≡ true
      → (L.view s.0).binding_at b.namespace b.name ≡ some b
      → IsReadyEnd b p.account r t (reconcile_found self b s)
  unfolding reconcile_found reconcile_binding desired_of
  found-IsReadyEnd b r s t p live finalizer there =
      let y = provision self b (desired_of b) s in
      simp (p.watched, finalizer, live)
        (report-IsReadyEnd b p.account r t y (provision_up self L U b (desired_of b) r s t p)
          (ap (λ v. v b.namespace b.name) (provision-stored self L b (desired_of b) s) ∙ there))

  unfoldable provisionable_same :
      (b : WorkloadIdentityBinding) (d : BindingDesired) (r : EnsureResult) (s : System self)
      (t : self.iam.State) (u : self.client.State)
      → L.view u ≡ L.view s.0
      → L.config_map_at u ≡ L.config_map_at s.0
      → IsProvisionable self L U b d r s t
      → IsProvisionable self L U b d r (u, s.1) t
  provisionable_same b d r s t u same maps p = record {
    valid = p.valid;
    watched = p.watched;
    scopes = p.scopes;
    scoped = p.scoped;
    account = p.account;
    namespace = p.namespace;
    name = p.name;
    live = p.live;
    there = rw same p.there;
    ensured = p.ensured;
    synced = λ wanted. ((p.synced wanted).0, rw maps (p.synced wanted).1);
  }

  -- Where the API server answers, a pass over a stored binding with its finalizer that can be
  -- provisioned and is not being deleted returns no error, and leaves the status of the binding, the
  -- annotations of its account and the state of the IAM service as the result of the engine.
  pub reconcile-IsReadyEnd :
      (b : WorkloadIdentityBinding) (r : EnsureResult) (s : System self) (t : self.iam.State)
      (p : IsProvisionable self L U b (desired_of b) r s t)
      → b.deleting ≡ false
      → self.client.contains_finalizer b.finalizers binding_finalizer_name ≡ true
      → (L.view s.0).binding_at b.namespace b.name ≡ some b
      → IsReadyEnd b p.account r t (reconcile self b.namespace b.name s)
  unfolding reconcile provisionable_same
  reconcile-IsReadyEnd b r s t p live finalizer there =
      let got = self.client.get_binding b.namespace b.name s.0 in
      let keeps = L.get_binding_keeps b.namespace b.name s.0 in
      rw (U.get_binding_up b.namespace b.name s.0 there) (
        found-IsReadyEnd b r (got.1, s.1) t
          (provisionable_same b (desired_of b) r s t got.1 keeps
            (L.get_binding_maps b.namespace b.name s.0) p)
          live finalizer (rw keeps there))

  -- The binding once the finalizer is added and the observation of that is in its status.
  abbrev pub with_finalizer : WorkloadIdentityBinding → WorkloadIdentityBinding
  with_finalizer b = record b {
    finalizers = self.client.add_finalizer b.finalizers binding_finalizer_name;
  }

  abbrev pub adding : BindingObserved
  adding = observing status_pending (codes "FinalizerAdded") []

  remaining-live : (b : WorkloadIdentityBinding) → b.deleting ≡ false → remaining_binding b ≡ some b
  remaining-live b live = simp live

  added_up :
      (b : WorkloadIdentityBinding) (s : System self)
      → b.deleting ≡ false
      → (L.view s.0).binding_at b.namespace b.name ≡ some b
      → (let y = add_binding_finalizer self b s in
          (y.0 ≡ returned again (some adding) none)
          × (L.view y.1.0 ≡ put_binding b (some (with_finalizer b)) (L.view s.0))
          × (L.config_map_at y.1.0 ≡ L.config_map_at s.0))
  unfolding add_binding_finalizer
  added_up b s live there =
      let write = self.client.update_binding (with_finalizer b) s.0 in
      let up =
        U.update_binding_up b (self.client.add_finalizer b.finalizers binding_finalizer_name) s.0
          there in
      rw up (
        refl,
        written write.0 (L.view s.0) _ (L.view write.1) up (
              L.update_binding_writes b
                (self.client.add_finalizer b.finalizers binding_finalizer_name) s.0 there)
            ∙ ap (λ o. put_binding b o (L.view s.0)) (remaining-live (with_finalizer b) live),
        L.update_binding_maps (with_finalizer b) s.0,
      )

  -- What the first pass over a binding leaves.
  pub record IsAdded (b : WorkloadIdentityBinding) (s : System self)
      (y : (ReconcileResult × Option Error) × System self) : Type 0 where
    pub outcome : y.0 ≡ (again, none)
    pub iam : y.1.1 ≡ s.1
    pub time : ℕ
    pub bound :
        (L.view y.1.0).binding_at b.namespace b.name
        ≡ some (patched self L U (with_finalizer b) adding time)
    pub maps : L.config_map_at y.1.0 ≡ L.config_map_at s.0
    pub accounts : (L.view y.1.0).account_at ≡ (L.view s.0).account_at

  IsAdded-report :
      (b : WorkloadIdentityBinding) (s : System self) (y : Reconciled × System self)
      → (y.0 ≡ returned again (some adding) none)
        × (L.view y.1.0 ≡ put_binding b (some (with_finalizer b)) (L.view s.0))
        × (L.config_map_at y.1.0 ≡ L.config_map_at s.0)
      → y.1.1 ≡ s.1
      → IsAdded b s (report self (with_finalizer b) y)
  IsAdded-report b s y (e, added, same) kept =
      let (outcome, iam, maps, (now, left)) =
        report_reconciled self L U (with_finalizer b) adding again y e (
          ap (λ (v : Cluster). v.binding_at b.namespace b.name) added
          ∙ put_binding-at b (with_finalizer b) (L.view s.0)) in
      record {
        outcome = outcome;
        iam = iam ∙ kept;
        time = now;
        bound =
            ap (λ (v : Cluster). v.binding_at b.namespace b.name) left
            ∙ put_binding-at b (patched self L U (with_finalizer b) adding now) (L.view y.1.0);
        accounts =
            ap (λ (v : Cluster). v.account_at) left ∙ ap (λ (v : Cluster). v.account_at) added;
        maps = maps ∙ same;
      }

  pub IsAdded-found :
      (b : WorkloadIdentityBinding) (s : System self)
      → b.deleting ≡ false
      → outside_watch self.config b.namespace ≡ false
      → self.client.contains_finalizer b.finalizers binding_finalizer_name ≡ false
      → (L.view s.0).binding_at b.namespace b.name ≡ some b
      → IsAdded b s (reconcile_found self b s)
  unfolding reconcile_found reconcile_binding report patch_status
  IsAdded-found b s live watched finalizer there =
      simp (watched, finalizer, live)
        (IsAdded-report b s (add_binding_finalizer self b s) (added_up b s live there)
          (add_binding_finalizer-iam self b s))
