-- ===== src/Controller/BindingController/Patch.antt =====
-- Where the API server answers, `patchStatus` of a binding succeeds, and what it leaves.
use Prim.Native.Nat.{ℕ}
use thalassa_workload_identi.Common.{◌≡◌, refl, ap, ◌∙◌, false, Option, some, none}
use thalassa_workload_identi.Text.Eq.{is_empty}
use thalassa_workload_identi.Errors.{Error, Result, ok}
use thalassa_workload_identi.Api.{WorkloadIdentityBinding, WorkloadIdentityBindingStatus}
use thalassa_workload_identi.Kube.{Response, given, missing, failed, replied}
use thalassa_workload_identi.Kube.Laws.{Cluster, put_binding, IsLawful, IsUp}
use thalassa_workload_identi.Iam.Monad.{after}
use thalassa_workload_identi.Wif.Keys.{status_ready}
use thalassa_workload_identi.Wif.Ensure.{EnsureResult}
use thalassa_workload_identi.Controller.Conditions.{BindingObserved}
use thalassa_workload_identi.Controller.System.{Reconciler, System, ReconcileResult, Reconciled}
use thalassa_workload_identi.Controller.Binding.{ready_of, returned}
use thalassa_workload_identi.Controller.Binding.Stored.{replied-state}
use thalassa_workload_identi.Controller.Binding.Up.{given-inj, written}
use thalassa_workload_identi.Controller.BindingController.{patched_status, patch_status, report}

module _ (self : Reconciler) (L : IsLawful self.client) (U : IsUp self.client L) where
  -- The binding as `patchStatus` leaves it.
  abbrev pub patched : WorkloadIdentityBinding → BindingObserved → ℕ → WorkloadIdentityBinding
  patched b obs now = record b { status = patched_status obs b.generation now b.status }

  abbrev pub Patches :
      WorkloadIdentityBinding
      → BindingObserved
      → Cluster
      → Result (Unit {0}) × self.client.State
      → Type 0
  Patches b obs v y =
      (y.0 ≡ ok tt) × ((now : ℕ) × (L.view y.1 ≡ put_binding b (some (patched b obs now)) v))

  got_patch-maps :
      (obs : BindingObserved) (x : Response WorkloadIdentityBinding × self.client.State)
      → L.config_map_at
          (after (replied x) (λ latest s. replied (
            self.client.update_binding_status
              (record latest {
                status = patched_status obs latest.generation (self.client.now s) latest.status;
              })
              s))).1
        ≡ L.config_map_at x.1
  got_patch-maps obs (missing m, s) = refl
  got_patch-maps obs (failed m, s) = refl
  got_patch-maps obs (given latest, s) = rw (replied-state _) (L.update_binding_status_maps _ s)

  patch_status-maps :
      (b : WorkloadIdentityBinding) (obs : BindingObserved) (s : self.client.State)
      → L.config_map_at (patch_status self.client b obs s).1 ≡ L.config_map_at s
  unfolding patch_status
  patch_status-maps b obs s =
      got_patch-maps obs (self.client.get_binding b.namespace b.name s)
      ∙ L.get_binding_maps b.namespace b.name s

  got_patch :
      (b : WorkloadIdentityBinding) (obs : BindingObserved)
      (x : Response WorkloadIdentityBinding × self.client.State) (v : Cluster)
      → x.0 ≡ given b
      → L.view x.1 ≡ v
      → v.binding_at b.namespace b.name ≡ some b
      → Patches b obs v (
          after (replied x) (λ latest s. replied (
            self.client.update_binding_status
              (record latest {
                status = patched_status obs latest.generation (self.client.now s) latest.status;
              })
              s)))
  got_patch b obs (missing m, s) v e keeps there = cc
  got_patch b obs (failed m, s) v e keeps there = cc
  got_patch b obs (given latest, s) v e keeps there =
      let same = given-inj e in
      let status = patched_status obs b.generation (self.client.now s) b.status in
      let write = self.client.update_binding_status (record b { status = status }) s in
      let up = U.update_binding_status_up b status s (rw keeps there) in
      rw same (
        rw up refl,
        (
          self.client.now s,
          rw (replied-state write) (
              (written write.0 (L.view s)
                (put_binding b (some (patched b obs (self.client.now s))) (L.view s))
                (L.view write.1) up (L.update_binding_status_writes b status s (rw keeps there)))
              ∙ ap (put_binding b (some (patched b obs (self.client.now s)))) keeps),
        ),
      )

  patch_up :
      (b : WorkloadIdentityBinding) (obs : BindingObserved) (u : self.client.State)
      → (L.view u).binding_at b.namespace b.name ≡ some b
      → Patches b obs (L.view u) (patch_status self.client b obs u)
  unfolding patch_status
  patch_up b obs u there =
      got_patch b obs (self.client.get_binding b.namespace b.name u) (L.view u)
        (U.get_binding_up b.namespace b.name u there) (L.get_binding_keeps b.namespace b.name u)
        there

  -- What a pass over a stored binding comes to, when it patches the status with an observation.
  abbrev pub EndsPatched :
      WorkloadIdentityBinding
      → BindingObserved
      → ReconcileResult
      → System self
      → (ReconcileResult × Option Error) × System self
      → Type 0
  EndsPatched b obs result s y =
      (y.0 ≡ (result, none))
      × (y.1.1 ≡ s.1)
      × (L.config_map_at y.1.0 ≡ L.config_map_at s.0)
      × ((now : ℕ) × (L.view y.1.0 ≡ put_binding b (some (patched b obs now)) (L.view s.0)))

  report_up :
      (b : WorkloadIdentityBinding) (obs : BindingObserved) (result : ReconcileResult)
      (s : System self)
      → (L.view s.0).binding_at b.namespace b.name ≡ some b
      → EndsPatched b obs result s (report self b (returned result (some obs) none, s))
  unfolding report
  report_up b obs result s there =
      let (up, (now, left)) = patch_up b obs s.0 there in
      rw up (refl, refl, patch_status-maps b obs s.0, (now, left))

  pub report_reconciled :
      (b : WorkloadIdentityBinding) (obs : BindingObserved) (result : ReconcileResult)
      (y : Reconciled × System self)
      → y.0 ≡ returned result (some obs) none
      → (L.view y.1.0).binding_at b.namespace b.name ≡ some b
      → EndsPatched b obs result y.1 (report self b y)
  report_reconciled b obs result (r, s) e there = rw e (report_up b obs result s there)

  -- The identities of a result, in a status.
  pub record IsReadyStatus (r : EnsureResult) (status : WorkloadIdentityBindingStatus)
      : Type 0 where
    pub phase : status.phase ≡ status_ready
    pub service_account_id : status.service_account_id ≡ r.service_account_id
    pub federated_identity_id : status.federated_identity_id ≡ r.federated_identity_id
    pub provider_id : status.provider_id ≡ r.provider_id
    pub policy_id : status.policy_id ≡ r.policy_id

  pub ready_status :
      (r : EnsureResult) (generation now : ℕ) (status : WorkloadIdentityBindingStatus)
      → is_empty r.service_account_id ≡ false
      → IsReadyStatus r (patched_status (ready_of self.config r) generation now status)
  unfolding patched_status
  ready_status r generation now status set = record {
    phase = refl;
    service_account_id = rw set;
    federated_identity_id = rw set;
    provider_id = rw set;
    policy_id = rw set;
  }
