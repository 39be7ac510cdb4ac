-- ===== src/Controller/AccountController.antt =====
-- internal/controller/serviceaccount_controller.go: one reconcile of an annotated service account.
pub mod Status
pub mod Effects
pub mod Held
pub mod Released
pub mod Gone
pub mod Reach
pub mod Live
use thalassa_workload_identi.Common.{
  Bool, true, false, not, ◌&&◌, ◌||◌, Option, none, some, List, [], if◌then◌else◌,
}
use thalassa_workload_identi.Text.Eq.{Text, codes, is_empty}
use thalassa_workload_identi.Text.Trim.{trim_space}
use thalassa_workload_identi.Dict.{Dict, get}
use thalassa_workload_identi.Errors.{
  Error, remote, wrapped, resolve_provider_for_delete, provider_empty_issuer, is_provider_not_ready,
  Result, ok, err,
}
use thalassa_workload_identi.Errors.Message.{message}
use thalassa_workload_identi.Config.{Config}
use thalassa_workload_identi.Kube.{
  ServiceAccount, Response, given, missing, failed, KubeClient, replied,
}
use thalassa_workload_identi.Iam.{FederatedIdentityProvider, IamClient}
use thalassa_workload_identi.Iam.Monad.{M}
use thalassa_workload_identi.Wif.Keys.{
  annotation_role, annotation_policy, annotation_policy_id, annotation_scopes, annotation_name,
  annotation_status, finalizer_name, status_pending, status_ready, status_error,
}
use thalassa_workload_identi.Wif.Labels.{is_enabled, delete_resources}
use thalassa_workload_identi.Wif.Subject.{normalize_issuer}
use thalassa_workload_identi.Wif.Scopes.{parse_scopes}
use thalassa_workload_identi.Wif.Ensure.{EnsureInput, EnsureResult, is_wildcard}
use thalassa_workload_identi.Wif.Find.{find_provider_by_cluster_id}
use thalassa_workload_identi.Wif.Workload.{ensure_workload_identity, delete_workload_identity}
use thalassa_workload_identi.Controller.System.{
  Reconciler, System, on_kube, on_iam, ReconcileResult, done, again, after_delay, outside_watch,
}
use thalassa_workload_identi.Controller.AccountController.Status.{patch_status}

-- The input of `EnsureWorkloadIdentity` for an annotated service account.
abbrev pub input_of : Config → ServiceAccount → List Text → EnsureInput
input_of cfg sa scopes = record {
  namespace = sa.namespace;
  service_account = sa.name;
  role_ref = trim_space (get annotation_role sa.annotations);
  policy_ref = trim_space (get annotation_policy sa.annotations);
  name_override = get annotation_name sa.annotations;
  scopes = scopes;
  trusted_audiences = cfg.trusted_audiences;
  cluster_identity = cfg.cluster_identity;
  allowed_policies = cfg.allowed_policies;
  allowed_roles = cfg.allowed_roles;
}

-- The policy that was resolved before goes before the annotated one.
abbrev pub policy_to_delete : ServiceAccount → Text
policy_to_delete sa =
    if is_empty (get annotation_policy_id sa.annotations)
    then get annotation_policy sa.annotations
    else get annotation_policy_id sa.annotations

module _ (c : IamClient) (cluster_identity : Text) where
  abbrev pub delete_under :
      ServiceAccount → FederatedIdentityProvider → c.State → Result (Unit {0}) × c.State
  delete_under sa provider s =
      let issuer = normalize_issuer provider.provider_issuer in
      if is_empty issuer
      then (err (provider_empty_issuer provider.identity), s)
      else delete_workload_identity c sa.namespace sa.name issuer
          (get annotation_role sa.annotations) (policy_to_delete sa) s

  abbrev pub with_provider :
      ServiceAccount → Result FederatedIdentityProvider × c.State → Result (Unit {0}) × c.State
  with_provider sa (ok provider, s) = delete_under sa provider s
  with_provider sa (err e, s) = (err (wrapped resolve_provider_for_delete e), s)

  unfoldable pub delete_cloud_resources : ServiceAccount → M c.State (Unit {0})
  delete_cloud_resources sa s = with_provider sa (find_provider_by_cluster_id c cluster_identity s)

-- The predicate of `SetupWithManager` on the object of an event, nothing where it is no service
-- account.
unfoldable pub account_event : KubeClient → Config → Option ServiceAccount → Bool
account_event k cfg none = false
account_event k cfg (some sa) =
    if outside_watch cfg sa.namespace
    then false
    else is_enabled sa.annotations
      || k.contains_finalizer sa.finalizers finalizer_name
      || not (is_empty (get annotation_status sa.annotations))

module _ (self : Reconciler) where
  abbrev pub Outcome : Type 0
  Outcome = (ReconcileResult × Option Error) × System self

  -- `_ = r.patchStatus(...)`: the call, with its error dropped.
  unfoldable pub noted :
      ServiceAccount → Text → Text → Option EnsureResult → System self → System self
  noted sa status last_error result s =
      (on_kube (patch_status self.client sa status last_error result) s).1

  -- `return result, err` after a call that may fail.
  abbrev pub unless_failed : ReconcileResult → Result (Unit {0}) × System self → Outcome
  unless_failed result (ok _, s) = ((result, none), s)
  unless_failed result (err e, s) = ((done, some e), s)

  abbrev pub update_finalizers : ServiceAccount → List Text → M (System self) (Unit {0})
  update_finalizers sa finalizers =
      on_kube (λ s.
        replied (self.client.update_service_account (record sa { finalizers = finalizers }) s))

  unfoldable pub release : ServiceAccount → System self → Outcome
  release sa s =
      unless_failed done
        (update_finalizers sa (self.client.remove_finalizer sa.finalizers finalizer_name) s)

  abbrev pub after_delete : ServiceAccount → Result (Unit {0}) × System self → Outcome
  after_delete sa (ok _, s) = release sa s
  after_delete sa (err e, s) = ((done, some e), noted sa status_error (message self.quote e) none s)

  -- The branches for a service account with our finalizer that is being deleted or has opted out.
  unfoldable pub delete_account : ServiceAccount → System self → Outcome
  delete_account sa s =
      if delete_resources sa.annotations
      then after_delete sa
          (on_iam (delete_cloud_resources self.iam self.config.cluster_identity sa) s)
      else release sa s

  unfoldable pub add_account_finalizer : ServiceAccount → System self → Outcome
  add_account_finalizer sa s =
      unless_failed again
        (update_finalizers sa (self.client.add_finalizer sa.finalizers finalizer_name) s)

  -- An error of the annotations is noted, and the reconcile ends well.
  abbrev pub reject_as : ServiceAccount → Text → System self → Outcome
  reject_as sa text s = ((done, none), noted sa status_error text none s)

  abbrev pub after_ensure : ServiceAccount → Result EnsureResult × System self → Outcome
  after_ensure sa (ok r, s) =
      unless_failed done (on_kube (patch_status self.client sa status_ready [] (some r)) s)
  after_ensure sa (err e, s) =
      if is_provider_not_ready e
      then (
        (after_delay self.config.requeue_missing_idp, none),
        noted sa status_pending (message self.quote e) none s,
      )
      else ((done, some e), noted sa status_error (message self.quote e) none s)

  abbrev pub with_scopes : ServiceAccount → Result (List Text) → System self → Outcome
  with_scopes sa (ok scopes) s = after_ensure sa (
      on_iam (ensure_workload_identity self.constants self.iam (input_of self.config sa scopes))
        (noted sa status_pending [] none s))
  with_scopes sa (err e) s = reject_as sa (message self.quote e) s

  -- The steps for a service account that has opted in and has our finalizer.
  unfoldable pub provision : ServiceAccount → System self → Outcome
  provision sa s =
      let role = trim_space (get annotation_role sa.annotations) in
      let policy = trim_space (get annotation_policy sa.annotations) in
      if is_empty role && is_empty policy
      then reject_as sa
          (codes "at least one of thalassa.cloud/wif.policy or thalassa.cloud/wif.role is required")
          s
      else if is_wildcard role || is_wildcard policy
      then reject_as sa (codes "wildcard policy/role is not allowed") s
      else with_scopes sa (parse_scopes self.constants (get annotation_scopes sa.annotations)) s

  unfoldable pub reconcile_found : ServiceAccount → System self → Outcome
  reconcile_found sa s =
      let has_finalizer = self.client.contains_finalizer sa.finalizers finalizer_name in
      if outside_watch self.config sa.namespace
      then ((done, none), s)
      else if sa.deleting
      then (if has_finalizer then delete_account sa s else ((done, none), s))
      else if not (is_enabled sa.annotations)
      then (if has_finalizer then delete_account sa s else ((done, none), s))
      else if has_finalizer
      then provision sa s
      else add_account_finalizer sa s

  abbrev pub fetched : Response ServiceAccount → System self → Outcome
  fetched (missing m) s = ((done, none), s)
  fetched (failed m) s = ((done, some (remote m)), s)
  fetched (given sa) s = reconcile_found sa s

  -- `Reconcile` for a request with a namespace and a name.
  unfoldable pub reconcile : Text → Text → System self → Outcome
  reconcile namespace name s =
      let found = self.client.get_service_account namespace name s.0 in
      fetched found.0 (found.1, s.1)
