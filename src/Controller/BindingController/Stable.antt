-- ===== src/Controller/BindingController/Stable.antt =====
-- A binding that is ready stays so: `Reconcile` finds nothing left to do in the IAM service.
use thalassa_workload_identi.Common.{◌≡◌, sym, ◌∙◌, true, false, Option, none, some}
use thalassa_workload_identi.Errors.{Error, ok}
use thalassa_workload_identi.Api.{WorkloadIdentityBinding}
use thalassa_workload_identi.Kube.Laws.{IsLawful, IsUp}
use thalassa_workload_identi.Iam.Laws
use thalassa_workload_identi.Wif.Keys.{binding_finalizer_name}
use thalassa_workload_identi.Wif.Ensure.{EnsureResult}
use thalassa_workload_identi.Wif.Workload.{ensure_workload_identity}
use thalassa_workload_identi.Wif.Spec.Refinement.{SubjectKept, ensure_workload_identity_idem}
use thalassa_workload_identi.Controller.Cleanup.{validate_desired}
use thalassa_workload_identi.Controller.System.{Reconciler, System, ReconcileResult, done}
use thalassa_workload_identi.Controller.Binding.{input_of, ready_of}
use thalassa_workload_identi.Controller.Binding.Live.{IsProvisionable, annotated}
use thalassa_workload_identi.Controller.BindingController.{desired_of, reconcile}
use thalassa_workload_identi.Controller.BindingController.Patch.{patched}
use thalassa_workload_identi.Controller.BindingController.Live.{IsReadyEnd, reconcile-IsReadyEnd}

module _ (self : Reconciler) (L : IsLawful self.client) (U : IsUp self.client L) where
  unfoldable provisionable_again :
      (b : WorkloadIdentityBinding) (r : EnsureResult) (s : System self) (t : self.iam.State)
      (y : (ReconcileResult × Option Error) × System self)
      (p : IsProvisionable self L U b (desired_of b) r s t)
      (e : IsReadyEnd self L U b p.account r t y)
      → ensure_workload_identity self.constants self.iam
          (input_of self.config (desired_of b) p.scopes)
          t
        ≡ (ok r, t)
      → IsProvisionable self L U
          (patched self L U b (ready_of self.config r) e.time)
          (desired_of (patched self L U b (ready_of self.config r) e.time))
          r
          y.1
          t
  unfolding desired_of validate_desired
  provisionable_again b r s t y p e again = record {
    valid = p.valid;
    watched = p.watched;
    scopes = p.scopes;
    scoped = p.scoped;
    account = annotated self L U p.account r;
    namespace = p.namespace;
    name = p.name;
    live = p.live;
    there = simp (← p.namespace, ← p.name) e.account;
    ensured = rw e.iam again;
    synced = λ wanted. ((p.synced wanted).0, e.fits wanted);
  }

  -- Where the API server answers and the IAM service is lawful, after a pass over a stored binding with
  -- the finalizer that is not being deleted and can be provisioned (it is valid and watched, its service
  -- account is stored and not being deleted, the engine succeeds, and the identity config map, where it
  -- is asked for, has an organisation and an account and is not controlled by another object), the
  -- binding is ready, and another pass returns no error, leaves it ready with the same result, and changes nothing in the IAM service,
  -- if a federated identity that had the labels before had the subject.
  pub reconcile-stable :
      (I : Laws.IsLawful self.iam) (b : WorkloadIdentityBinding) (r : EnsureResult)
      (s : System self) (t : self.iam.State) (p : IsProvisionable self L U b (desired_of b) r s t)
      → SubjectKept self.constants self.iam I
          (input_of self.config (desired_of b) p.scopes)
          (I.view s.1)
      → b.deleting ≡ false
      → self.client.contains_finalizer b.finalizers binding_finalizer_name ≡ true
      → (L.view s.0).binding_at b.namespace b.name ≡ some b
      → (let first = reconcile self b.namespace b.name s in
          let second = reconcile self b.namespace b.name first.1 in
          (second.0 ≡ (done, none))
          × (second.1.1 ≡ first.1.1)
          × ((before : IsReadyEnd self L U b p.account r t first) × IsReadyEnd self L U
                (patched self L U b (ready_of self.config r) before.time)
                (annotated self L U p.account r)
                r
                t
                second))
  unfolding provisionable_again
  reconcile-stable I b r s t p kept live finalizer there =
      let first = reconcile self b.namespace b.name s in
      let e = reconcile-IsReadyEnd self L U b r s t p live finalizer there in
      let b' = patched self L U b (ready_of self.config r) e.time in
      let again =
        ensure_workload_identity_idem self.constants self.iam I
          (input_of self.config (desired_of b) p.scopes) s.1 kept p.ensured in
      let e' =
        reconcile-IsReadyEnd self L U b' r first.1 t (provisionable_again b r s t first p e again)
          live finalizer e.stored in
      (e'.outcome, e'.iam ∙ sym e.iam, (e, e'))
