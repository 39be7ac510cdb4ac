-- ===== src/Controller/BindingController.antt =====
-- internal/controller/workloadidentitybinding_controller.go: one reconcile of a binding by its name,
-- and what it writes to the binding's status.
pub mod Admitted
pub mod Gone
pub mod Held
pub mod Live
pub mod Patch
pub mod Progress
pub mod Reach
pub mod Stable
use Prim.Native.Nat.{ℕ}
use thalassa_workload_identi.Common.{Bool, false, not, Option, none, some, if◌then◌else◌}
use thalassa_workload_identi.Text.Eq.{Text, is_empty}
use thalassa_workload_identi.Errors.{Error, remote, Result, ok, err}
use thalassa_workload_identi.Config.{Config}
use thalassa_workload_identi.Api.{WorkloadIdentityBinding, WorkloadIdentityBindingStatus}
use thalassa_workload_identi.Kube.{Response, given, missing, failed, KubeClient, replied}
use thalassa_workload_identi.Iam.Monad.{M, ◌>>=◌}
use thalassa_workload_identi.Wif.Keys.{binding_finalizer_name}
use thalassa_workload_identi.Controller.Conditions.{BindingObserved, set_ready_condition}
use thalassa_workload_identi.Controller.Cleanup.{BindingDesired}
use thalassa_workload_identi.Controller.System.{
  Reconciler, System, on_kube, ReconcileResult, done, Reconciled, outside_watch,
}
use thalassa_workload_identi.Controller.Binding.{reconcile_binding}

-- The desired state of a binding, as `Reconcile` takes it from the resource.
unfoldable pub desired_of : WorkloadIdentityBinding → BindingDesired
desired_of b = record {
  namespace = b.namespace;
  service_account = b.service_account_name;
  policy_ref = b.policy_ref;
  policy_id = b.status.policy_id;
  role_ref = b.role_ref;
  scopes = b.scopes;
  name_override = b.name_override;
  delete_resources = b.delete_resources;
  identity_config_map = b.identity_config_map;
}

-- The identities are written only where the observation has a service account.
abbrev pub with_ids :
    BindingObserved → WorkloadIdentityBindingStatus → WorkloadIdentityBindingStatus
with_ids obs status = if is_empty obs.service_account_id then status else record status {
  service_account_id = obs.service_account_id;
  federated_identity_id = obs.federated_identity_id;
  provider_id = obs.provider_id;
  policy_id = obs.policy_id;
  organisation_id = obs.organisation_id;
  project_id = obs.project_id;
}

-- What `patchStatus` makes of a status, for a generation and a time.
unfoldable pub patched_status :
    BindingObserved → ℕ → ℕ → WorkloadIdentityBindingStatus → WorkloadIdentityBindingStatus
patched_status obs generation now status = record (with_ids obs status) {
  phase = obs.phase;
  observed_generation = generation;
  last_reconcile_time = some now;
  conditions = set_ready_condition status.conditions (some obs) generation now;
}

-- The predicate of `SetupWithManager` on the object of an event, nothing where it is no binding.
unfoldable pub binding_event : Config → Option WorkloadIdentityBinding → Bool
binding_event cfg none = false
binding_event cfg (some b) = not (outside_watch cfg b.namespace)

module _ (k : KubeClient) where
  unfoldable pub patch_status : WorkloadIdentityBinding → BindingObserved → M k.State (Unit {0})
  patch_status b obs = (λ s. replied (k.get_binding b.namespace b.name s)) >>= λ latest s. replied (
      k.update_binding_status
        (record latest { status = patched_status obs latest.generation (k.now s) latest.status }) s)

module _ (self : Reconciler) where
  -- `statusErr != nil && err == nil`: an error of the status is returned where there is no other.
  abbrev pub unless_failed : Reconciled → Error → ReconcileResult × Option Error
  unless_failed r e = elim r.error [ none ↦ (done, some e) | some x ↦ (r.result, some x) ]

  abbrev pub after_patch :
      Reconciled → Result (Unit {0}) × System self → (ReconcileResult × Option Error) × System self
  after_patch r (ok _, s) = ((r.result, r.error), s)
  after_patch r (err e, s) = (unless_failed r e, s)

  abbrev pub report_observed :
      WorkloadIdentityBinding
      → Option BindingObserved
      → Reconciled
      → System self
      → (ReconcileResult × Option Error) × System self
  report_observed b none r s = ((r.result, r.error), s)
  report_observed b (some obs) r s = after_patch r (on_kube (patch_status self.client b obs) s)

  unfoldable pub report :
      WorkloadIdentityBinding
      → Reconciled × System self
      → (ReconcileResult × Option Error) × System self
  report b (r, s) = report_observed b r.observed r s

  unfoldable pub reconcile_found :
      WorkloadIdentityBinding → System self → (ReconcileResult × Option Error) × System self
  reconcile_found b s =
      if outside_watch self.config b.namespace
      then ((done, none), s)
      else report b (
          reconcile_binding self b (desired_of b)
            (self.client.contains_finalizer b.finalizers binding_finalizer_name) s)

  abbrev pub fetched :
      Response WorkloadIdentityBinding
      → System self
      → (ReconcileResult × Option Error) × System self
  fetched (missing m) s = ((done, none), s)
  fetched (failed m) s = ((done, some (remote m)), s)
  fetched (given b) s = reconcile_found b s

  -- `Reconcile` for a request with a namespace and a name.
  unfoldable pub reconcile :
      Text → Text → System self → (ReconcileResult × Option Error) × System self
  reconcile namespace name s =
      let found = self.client.get_binding namespace name s.0 in fetched found.0 (found.1, s.1)
