-- ===== src/Controller/BindingController/Progress.antt =====
-- Two passes of `Reconcile` take a new binding to ready.
use thalassa_workload_identi.Common.{◌≡◌, ap, ◌∙◌, true, false, Option, none, some}
use thalassa_workload_identi.Text.Eq.{is_empty}
use thalassa_workload_identi.Errors.{Error}
use thalassa_workload_identi.Api.{WorkloadIdentityBinding}
use thalassa_workload_identi.Kube.Laws.{Cluster, IsLawful, IsUp}
use thalassa_workload_identi.Wif.Keys.{binding_finalizer_name}
use thalassa_workload_identi.Wif.Ensure.{EnsureResult}
use thalassa_workload_identi.Controller.System.{
  Reconciler, System, ReconcileResult, done, again, outside_watch,
}
use thalassa_workload_identi.Controller.Binding.{ready_of}
use thalassa_workload_identi.Controller.Binding.Live.{IsProvisionable}
use thalassa_workload_identi.Controller.BindingController.{desired_of, patched_status, reconcile}
use thalassa_workload_identi.Controller.BindingController.Patch.{
  IsReadyStatus, patched, ready_status,
}
use thalassa_workload_identi.Controller.BindingController.Live.{
  IsAdded, with_finalizer, adding, IsAdded-found, reconcile-IsReadyEnd,
}

module _ (self : Reconciler) (L : IsLawful self.client) (U : IsUp self.client L) where
  IsAdded-pass :
      (b : WorkloadIdentityBinding) (s : System self)
      → b.deleting ≡ false
      → outside_watch self.config b.namespace ≡ false
      → self.client.contains_finalizer b.finalizers binding_finalizer_name ≡ false
      → (L.view s.0).binding_at b.namespace b.name ≡ some b
      → IsAdded self L U b s (reconcile self b.namespace b.name s)
  unfolding reconcile
  IsAdded-pass b s live watched finalizer there =
      let got = self.client.get_binding b.namespace b.name s.0 in
      let keeps = L.get_binding_keeps b.namespace b.name s.0 in
      rw (U.get_binding_up b.namespace b.name s.0 there) (
        added_from b s got.1 keeps (L.get_binding_maps b.namespace b.name s.0)
          (IsAdded-found self L U b (got.1, s.1) live watched finalizer (rw keeps there)))
    where
      added_from :
          (b : WorkloadIdentityBinding) (s : System self) (u : self.client.State)
          {y : (ReconcileResult × Option Error) × System self}
          → L.view u ≡ L.view s.0
          → L.config_map_at u ≡ L.config_map_at s.0
          → IsAdded self L U b (u, s.1) y
          → IsAdded self L U b s y
      added_from b s u same maps a = record {
        maps = a.maps ∙ maps;
        outcome = a.outcome;
        iam = a.iam;
        time = a.time;
        bound = a.bound;
        accounts = a.accounts ∙ ap (λ (v : Cluster). v.account_at) same;
      }

  provisionable_added :
      (b : WorkloadIdentityBinding) (r : EnsureResult) (s : System self) (t : self.iam.State)
      {y : (ReconcileResult × Option Error) × System self}
      → (a : IsAdded self L U b s y) → IsProvisionable self L U b (desired_of b) r s t
      → IsProvisionable self L U
          (patched self L U (with_finalizer self L U b) (adding self L U) a.time)
          (desired_of (patched self L U (with_finalizer self L U b) (adding self L U) a.time))
          r
          y.1
          t
  unfolding desired_of patched_status
  provisionable_added b r s t a p = record {
    valid = p.valid;
    watched = p.watched;
    scopes = p.scopes;
    scoped = p.scoped;
    account = p.account;
    namespace = p.namespace;
    name = p.name;
    live = p.live;
    there = rw a.accounts p.there;
    ensured = rw a.iam p.ensured;
    synced = λ wanted. ((p.synced wanted).0, rw a.maps (p.synced wanted).1);
  }

  -- Where the API server answers, two passes over a stored binding without the finalizer that is not
  -- being deleted and can be provisioned (it is valid and watched, its service account is stored and not
  -- being deleted, the engine succeeds with an account that has an identity, and the identity config
  -- map, where it is asked for, has an organisation and an account and is not controlled by another
  -- object) end without an error, the first with a requeue and the second without, and leave the binding
  -- with its finalizer, the phase Ready and the identities of the engine's result, and the IAM service
  -- as the engine left it.
  pub reconcile-reaches_ready :
      (b : WorkloadIdentityBinding) (r : EnsureResult) (s : System self) (t : self.iam.State)
      → IsProvisionable self L U b (desired_of b) r s t
      → is_empty r.service_account_id ≡ false
      → b.deleting ≡ false
      → self.client.contains_finalizer b.finalizers binding_finalizer_name ≡ false
      → (L.view s.0).binding_at b.namespace b.name ≡ some b
      → (let first = reconcile self b.namespace b.name s in
          let second = reconcile self b.namespace b.name first.1 in
          (first.0 ≡ (again, none))
          × (second.0 ≡ (done, none))
          × (second.1.1 ≡ t)
          × ((b' : WorkloadIdentityBinding) × ((L.view second.1.0).binding_at b.namespace b.name
                ≡ some b')
              × (self.client.contains_finalizer b'.finalizers binding_finalizer_name ≡ true)
              × IsReadyStatus self L U r b'.status))
  unfolding desired_of patched_status
  reconcile-reaches_ready b r s t p identified live finalizer there =
      let a = IsAdded-pass b s live p.watched finalizer there in
      let b1 = patched self L U (with_finalizer self L U b) (adding self L U) a.time in
      let y = reconcile self b.namespace b.name s in
      let finalized = L.contains_finalizer_added b.finalizers binding_finalizer_name in
      let e =
        reconcile-IsReadyEnd self L U b1 r y.1 t (provisionable_added b r s t a p) live finalized
          a.bound in
      (
        a.outcome,
        e.outcome,
        e.iam,
        (
          patched self L U b1 (ready_of self.config r) e.time,
          e.stored,
          finalized,
          ready_status self L U r b.generation e.time b1.status identified,
        ),
      )
