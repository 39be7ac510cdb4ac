-- ===== src/Controller/Binding.antt =====
-- `reconcileBinding` of internal/controller/binding_reconcile.go: one pass over a binding, on the
-- Kubernetes API and the IAM service side by side.
pub mod Calls
pub mod Ready
pub mod Stored
pub mod Released
pub mod Up
pub mod Live
pub mod Outcomes
pub mod Effects
use Prim.Native.Nat.{ℕ}
use thalassa_workload_identi.Common.{
  Bool, true, false, not, ◌||◌, ◌++◌, Option, none, some, List, [], ◌∷◌, if◌then◌else◌,
}
use thalassa_workload_identi.Text.Eq.{Text, codes}
use thalassa_workload_identi.Text.Trim.{trim_space}
use thalassa_workload_identi.Errors
use thalassa_workload_identi.Errors.{Error, not_found, is_provider_not_ready, Result, ok, err}
use thalassa_workload_identi.Errors.Message.{message}
use thalassa_workload_identi.Config.{Config}
use thalassa_workload_identi.Api.{WorkloadIdentityBinding}
use thalassa_workload_identi.Kube.{
  ServiceAccount, Response, given, missing, failed, KubeClient, replied,
}
use thalassa_workload_identi.Iam.{IamClient}
use thalassa_workload_identi.Iam.Monad.{M}
use thalassa_workload_identi.Wif.Keys.{
  binding_finalizer_name, status_pending, status_ready, status_error,
}
use thalassa_workload_identi.Wif.Scopes.{IamConstants, parse_scope_list}
use thalassa_workload_identi.Wif.Ensure.{EnsureInput, EnsureResult}
use thalassa_workload_identi.Wif.Workload.{ensure_workload_identity}
use thalassa_workload_identi.Controller.Conditions.{BindingObserved}
use thalassa_workload_identi.Controller.Cleanup.{
  BindingDesired, validate_desired, delete_cloud_resources,
}
use thalassa_workload_identi.Controller.System.{
  Reconciler, System, on_kube, on_iam, ReconcileResult, done, again, after_delay, Reconciled,
  outside_watch,
}
use thalassa_workload_identi.Controller.Binding.Calls.{
  sync_identity_config_map, annotate_service_account, clear_service_account,
}

-- An observation without identities, which is not ready.
abbrev pub observing : Text → Text → Text → BindingObserved
observing phase reason message = record {
  phase = phase;
  service_account_id = [];
  federated_identity_id = [];
  provider_id = [];
  policy_id = [];
  organisation_id = [];
  project_id = [];
  ready = false;
  message = message;
  reason = reason;
}

abbrev pub ready_message : Text
ready_message = codes "Thalassa workload identity resources are ready"

abbrev pub ready_of : Config → EnsureResult → BindingObserved
ready_of cfg r = record {
  phase = status_ready;
  service_account_id = r.service_account_id;
  federated_identity_id = r.federated_identity_id;
  provider_id = r.provider_id;
  policy_id = r.policy_id;
  organisation_id = trim_space cfg.organisation_id;
  project_id = trim_space cfg.project_identity;
  ready = true;
  message = ready_message;
  reason = codes "Ready";
}

abbrev pub returned : ReconcileResult → Option BindingObserved → Option Error → Reconciled
returned result observed error = record { result = result; observed = observed; error = error }

-- The input of `EnsureWorkloadIdentity` for a binding.
abbrev pub input_of : Config → BindingDesired → List Text → EnsureInput
input_of cfg d scopes = record {
  namespace = d.namespace;
  service_account = d.service_account;
  role_ref = d.role_ref;
  policy_ref = d.policy_ref;
  name_override = d.name_override;
  scopes = scopes;
  trusted_audiences = cfg.trusted_audiences;
  cluster_identity = cfg.cluster_identity;
  allowed_policies = cfg.allowed_policies;
  allowed_roles = cfg.allowed_roles;
}

module _ (self : Reconciler) where
  -- `return ctrl.Result{}, obs, err`
  abbrev pub fail_as : Text → Error → Reconciled
  fail_as reason e =
      returned done (some (observing status_error reason (message self.quote e))) (some e)

  -- `return ctrl.Result{}, obs, nil`
  abbrev pub reject_as : Text → Text → Reconciled
  reject_as reason text = returned done (some (observing status_error reason text)) none

  -- After the update of the finalizers: an error is returned without an observation.
  abbrev pub finish : Reconciled → Result (Unit {0}) × System self → Reconciled × System self
  finish r (ok _, s) = (r, s)
  finish r (err e, s) = (returned done none (some e), s)

  abbrev pub update_finalizers : WorkloadIdentityBinding → List Text → M (System self) (Unit {0})
  update_finalizers obj finalizers =
      on_kube (λ s. replied (self.client.update_binding (record obj { finalizers = finalizers }) s))

  unfoldable pub release : WorkloadIdentityBinding → System self → Reconciled × System self
  release obj s =
      finish (returned done none none) (
        update_finalizers obj (self.client.remove_finalizer obj.finalizers binding_finalizer_name)
          s)

  abbrev pub after_delete :
      WorkloadIdentityBinding → Result (Unit {0}) × System self → Reconciled × System self
  after_delete obj (ok _, s) = release obj s
  after_delete obj (err e, s) = (fail_as (codes "DeleteFailed") e, s)

  abbrev pub after_clear :
      WorkloadIdentityBinding
      → BindingDesired
      → Result (Unit {0}) × System self
      → Reconciled × System self
  after_clear obj d (ok _, s) =
      if d.delete_resources
      then after_delete obj
          (on_iam (delete_cloud_resources self.iam self.config.cluster_identity d) s)
      else release obj s
  after_clear obj d (err e, s) = (fail_as (codes "CleanupFailed") e, s)

  -- The branch for a binding that is being deleted.
  unfoldable pub delete_binding :
      WorkloadIdentityBinding → BindingDesired → System self → Reconciled × System self
  delete_binding obj d s =
      after_clear obj d
        (on_kube (clear_service_account self.client d.namespace d.service_account) s)

  unfoldable pub add_binding_finalizer :
      WorkloadIdentityBinding → System self → Reconciled × System self
  add_binding_finalizer obj s =
      finish (returned again (some (observing status_pending (codes "FinalizerAdded") [])) none)
        (update_finalizers obj (self.client.add_finalizer obj.finalizers binding_finalizer_name) s)

  abbrev pub after_annotate :
      EnsureResult → Result (Unit {0}) × System self → Reconciled × System self
  after_annotate r (ok _, s) = (returned done (some (ready_of self.config r)) none, s)
  after_annotate r (err e, s) = (fail_as (codes "ServiceAccountAnnotateFailed") e, s)

  abbrev pub after_sync :
      ServiceAccount → EnsureResult → Result (Unit {0}) × System self → Reconciled × System self
  after_sync sa r (ok _, s) = after_annotate r (
      on_kube
        (annotate_service_account self.client sa r.service_account_id
          (trim_space self.config.organisation_id) (trim_space self.config.project_identity))
        s)
  after_sync sa r (err e, s) = (fail_as (codes "IdentityConfigMapFailed") e, s)

  abbrev pub maybe_sync :
      WorkloadIdentityBinding → BindingDesired → EnsureResult → M (System self) (Unit {0})
  maybe_sync obj d r s =
      if d.identity_config_map || self.config.enable_identity_config_map
      then on_kube
          (sync_identity_config_map self.client self.has_scheme obj d r.service_account_id
            (trim_space self.config.organisation_id) (trim_space self.config.project_identity))
          s
      else (ok tt, s)

  abbrev pub after_ensure :
      WorkloadIdentityBinding
      → BindingDesired
      → ServiceAccount
      → Result EnsureResult × System self
      → Reconciled × System self
  after_ensure obj d sa (ok r, s) = after_sync sa r (maybe_sync obj d r s)
  after_ensure obj d sa (err e, s) =
      if is_provider_not_ready e
      then (
        returned (after_delay self.config.requeue_missing_idp)
            (some (observing status_pending (codes "ProviderNotReady") (message self.quote e)))
            none,
        s,
      )
      else (fail_as (codes "EnsureFailed") e, s)

  abbrev pub with_scopes :
      WorkloadIdentityBinding
      → BindingDesired
      → ServiceAccount
      → Result (List Text)
      → System self
      → Reconciled × System self
  with_scopes obj d sa (ok scopes) s =
      after_ensure obj d sa (
        on_iam (ensure_workload_identity self.constants self.iam (input_of self.config d scopes)) s)
  with_scopes obj d sa (err e) s = (reject_as (codes "InvalidScopes") (message self.quote e), s)

  abbrev pub after_get :
      WorkloadIdentityBinding
      → BindingDesired
      → Response ServiceAccount
      → System self
      → Reconciled × System self
  after_get obj d (given sa) s = with_scopes obj d sa (parse_scope_list self.constants d.scopes) s
  after_get obj d (missing m) s =
      (reject_as (codes "ServiceAccountNotFound") (message self.quote (not_found m)), s)
  after_get obj d (failed m) s = (returned done none (some (Errors.remote m)), s)

  abbrev pub not_watched : Text → Text
  not_watched namespace =
      codes "service account namespace "
      ++ self.quote namespace
      ++ codes " is outside controller watch namespaces"

  abbrev pub in_watch :
      WorkloadIdentityBinding → BindingDesired → System self → Reconciled × System self
  in_watch obj d s =
      if outside_watch self.config d.namespace
      then (reject_as (codes "NamespaceNotWatched") (not_watched d.namespace), s)
      else (let found = self.client.get_service_account d.namespace d.service_account s.0 in
          after_get obj d found.0 (found.1, s.1))

  abbrev pub when_valid :
      WorkloadIdentityBinding
      → BindingDesired
      → Result (Unit {0})
      → System self
      → Reconciled × System self
  when_valid obj d (ok _) s = in_watch obj d s
  when_valid obj d (err e) s = (reject_as (codes "InvalidSpec") (message self.quote e), s)

  -- The steps for a binding that has its finalizer and is not being deleted.
  unfoldable pub provision :
      WorkloadIdentityBinding → BindingDesired → System self → Reconciled × System self
  provision obj d s = when_valid obj d (validate_desired d) s

  unfoldable pub reconcile_binding :
      WorkloadIdentityBinding → BindingDesired → Bool → System self → Reconciled × System self
  reconcile_binding obj d has_finalizer s =
      if obj.deleting
      then (if has_finalizer then delete_binding obj d s else (returned done none none, s))
      else if has_finalizer
      then provision obj d s
      else add_binding_finalizer obj s
