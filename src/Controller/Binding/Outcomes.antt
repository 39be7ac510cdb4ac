-- ===== src/Controller/Binding/Outcomes.antt =====
-- The forms that the three results of `reconcileBinding` take together.
use thalassa_workload_identi.Common.{
  ◌≡◌, refl, ap, Bool, true, false, none, some, List, [], inl, inr, Bool-cases,
}
use thalassa_workload_identi.Text.Eq.{Text, codes}
use thalassa_workload_identi.Errors.{Error, Result, ok, err, Result-cases, is_provider_not_ready}
use thalassa_workload_identi.Errors.Message.{message}
use thalassa_workload_identi.Api.{WorkloadIdentityBinding}
use thalassa_workload_identi.Kube.{ServiceAccount, Response, given, missing, failed}
use thalassa_workload_identi.Iam.Laws
use thalassa_workload_identi.Wif.Keys.{status_pending, status_error}
use thalassa_workload_identi.Wif.Scopes.{parse_scope_list}
use thalassa_workload_identi.Wif.Ensure.{EnsureResult}
use thalassa_workload_identi.Wif.Workload.{ensure_workload_identity}
use thalassa_workload_identi.Wif.Spec.{IsProvisioned}
use thalassa_workload_identi.Wif.Spec.Refinement.{
  SubjectKept, ensure_workload_identity-IsProvisioned,
}
use thalassa_workload_identi.Controller.Cleanup.{
  BindingDesired, validate_desired, delete_cloud_resources,
}
use thalassa_workload_identi.Controller.System.{
  Reconciler, System, done, again, after_delay, Reconciled, outside_watch, on_iam, on_kube,
}
use thalassa_workload_identi.Controller.Binding.Calls.{clear_service_account}
use thalassa_workload_identi.Controller.Binding.{
  observing, ready_of, returned, input_of, finish, release, after_delete, after_clear,
  delete_binding, add_binding_finalizer, after_annotate, after_sync, maybe_sync, after_ensure,
  with_scopes, after_get, not_watched, provision, reconcile_binding,
}
use thalassa_workload_identi.Controller.Binding.Ready.{is_ready, reconcile_binding-IsReadyPass}

module _ (self : Reconciler) where
  pub data IsOutcome (r : Reconciled) : Type 0 where
    silent : r ≡ returned done none none → IsOutcome r
    unreported : (e : Error) → r ≡ returned done none (some e) → IsOutcome r
    adding :
        r ≡ returned again (some (observing status_pending (codes "FinalizerAdded") [])) none
        → IsOutcome r
    waiting :
        (e : Error)
        → is_provider_not_ready e ≡ true
        → r
          ≡ returned
              (after_delay self.config.requeue_missing_idp)
              (some (observing status_pending (codes "ProviderNotReady") (message self.quote e)))
              none
        → IsOutcome r
    rejected :
        (reason text : Text)
        → r ≡ returned done (some (observing status_error reason text)) none
        → IsOutcome r
    failing :
        (reason : Text) (e : Error)
        → r ≡ returned done (some (observing status_error reason (message self.quote e))) (some e)
        → IsOutcome r
    provided :
        (result : EnsureResult)
        → r ≡ returned done (some (ready_of self.config result)) none
        → IsOutcome r

  finish-outcome :
      (r : Reconciled) (x : Result (Unit {0}) × System self)
      → IsOutcome r
      → IsOutcome (finish self r x).0
  finish-outcome r (ok _, s) h = h
  finish-outcome r (err e, s) h = unreported e refl

  release-outcome :
      (obj : WorkloadIdentityBinding) (s : System self) → IsOutcome (release self obj s).0
  unfolding release
  release-outcome obj s = finish-outcome (returned done none none) _ (silent refl)

  after_delete-outcome :
      (obj : WorkloadIdentityBinding) (x : Result (Unit {0}) × System self)
      → IsOutcome (after_delete self obj x).0
  after_delete-outcome obj (ok _, s) = release-outcome obj s
  after_delete-outcome obj (err e, s) = failing (codes "DeleteFailed") e refl

  after_clear-outcome :
      (obj : WorkloadIdentityBinding) (d : BindingDesired) (x : Result (Unit {0}) × System self)
      → IsOutcome (after_clear self obj d x).0
  after_clear-outcome obj d (err e, s) = failing (codes "CleanupFailed") e refl
  after_clear-outcome obj d (ok _, s) = elim (Bool-cases d.delete_resources) [
    | inl delete ↦ simp delete (
        after_delete-outcome obj
          (on_iam (delete_cloud_resources self.iam self.config.cluster_identity d) s))
    | inr keep ↦ simp keep (release-outcome obj s)
  ]

  after_annotate-outcome :
      (r : EnsureResult) (x : Result (Unit {0}) × System self)
      → IsOutcome (after_annotate self r x).0
  after_annotate-outcome r (ok _, s) = provided r refl
  after_annotate-outcome r (err e, s) = failing (codes "ServiceAccountAnnotateFailed") e refl

  after_sync-outcome :
      (sa : ServiceAccount) (r : EnsureResult) (x : Result (Unit {0}) × System self)
      → IsOutcome (after_sync self sa r x).0
  after_sync-outcome sa r (ok _, s) = after_annotate-outcome r _
  after_sync-outcome sa r (err e, s) = failing (codes "IdentityConfigMapFailed") e refl

  after_ensure-outcome :
      (obj : WorkloadIdentityBinding) (d : BindingDesired) (sa : ServiceAccount)
      (x : Result EnsureResult × System self)
      → IsOutcome (after_ensure self obj d sa x).0
  after_ensure-outcome obj d sa (ok r, s) = after_sync-outcome sa r (maybe_sync self obj d r s)
  after_ensure-outcome obj d sa (err e, s) = elim (Bool-cases (is_provider_not_ready e)) [
    | inl waits ↦ waiting e waits (rw waits)
    | inr fails ↦ failing (codes "EnsureFailed") e (rw fails)
  ]

  with_scopes-outcome :
      (obj : WorkloadIdentityBinding) (d : BindingDesired) (sa : ServiceAccount)
      (x : Result (List Text)) (s : System self)
      → IsOutcome (with_scopes self obj d sa x s).0
  with_scopes-outcome obj d sa (ok scopes) s =
      after_ensure-outcome obj d sa (
        on_iam (ensure_workload_identity self.constants self.iam (input_of self.config d scopes)) s)
  with_scopes-outcome obj d sa (err e) s = rejected (codes "InvalidScopes") _ refl

  after_get-outcome :
      (obj : WorkloadIdentityBinding) (d : BindingDesired) (x : Response ServiceAccount)
      (s : System self)
      → IsOutcome (after_get self obj d x s).0
  after_get-outcome obj d (given sa) s =
      with_scopes-outcome obj d sa (parse_scope_list self.constants d.scopes) s
  after_get-outcome obj d (missing m) s = rejected (codes "ServiceAccountNotFound") _ refl
  after_get-outcome obj d (failed m) s = unreported _ refl

  provision-outcome :
      (obj : WorkloadIdentityBinding) (d : BindingDesired) (s : System self)
      → IsOutcome (provision self obj d s).0
  unfolding provision
  provision-outcome obj d s = elim (Result-cases (validate_desired d)) [
    | inr (e, invalid) ↦ rejected (codes "InvalidSpec") (message self.quote e) (rw invalid)
    | inl (_, valid) ↦ elim (Bool-cases (outside_watch self.config d.namespace)) [
      | inl outside ↦
          rejected (codes "NamespaceNotWatched") (not_watched self d.namespace)
            (rw (valid, outside))
      | inr watched ↦
          rw (valid, watched)
            (after_get-outcome obj d
              (self.client.get_service_account d.namespace d.service_account s.0).0
              ((self.client.get_service_account d.namespace d.service_account s.0).1, s.1))
    ]
  ]

  -- What a pass returns is one of these: nothing; an error that no observation tells; the pending
  -- observation of a finalizer that was added, with a requeue; the pending observation of a provider
  -- that is not ready, with the configured delay; an observation of an error in the binding, which is
  -- not returned as one; one with the text of the error that is returned; the ready observation.
  pub reconcile_binding-IsOutcome :
      (obj : WorkloadIdentityBinding) (d : BindingDesired) (has_finalizer : Bool) (s : System self)
      → IsOutcome (reconcile_binding self obj d has_finalizer s).0
  unfolding reconcile_binding delete_binding add_binding_finalizer
  reconcile_binding-IsOutcome obj d true s = elim (Bool-cases obj.deleting) [
    | inl gone ↦ simp gone (
        after_clear-outcome obj d
          (on_kube (clear_service_account self.client d.namespace d.service_account) s))
    | inr live ↦ simp live (provision-outcome obj d s)
  ]
  reconcile_binding-IsOutcome obj d false s = elim (Bool-cases obj.deleting) [
    | inl gone ↦ silent (simp gone)
    | inr live ↦ simp live (finish-outcome _ _ (adding refl))
  ]

  -- Over a lawful IAM service, if a binding is reported as ready, its workload identity is provisioned
  -- as the report says, where a federated identity that had the labels before had the subject.
  pub reconcile_binding-IsProvisioned :
      (I : Laws.IsLawful self.iam) (obj : WorkloadIdentityBinding) (d : BindingDesired)
      (has_finalizer : Bool) (s : System self)
      → ((scopes : List Text)
          → SubjectKept self.constants self.iam I (input_of self.config d scopes) (I.view s.1))
      → is_ready (reconcile_binding self obj d has_finalizer s).0.observed ≡ true
      → (let y = reconcile_binding self obj d has_finalizer s in
          (scopes : List Text) × (r : EnsureResult) × (y.0.observed ≡ some (ready_of self.config r))
          × IsProvisioned self.constants (input_of self.config d scopes) r (I.view y.1.1))
  reconcile_binding-IsProvisioned I obj d has_finalizer s kept ready =
      let p = reconcile_binding-IsReadyPass self obj d has_finalizer s ready in
      (
        p.scopes,
        p.result,
        ap (λ (r : Reconciled). r.observed) p.reported,
        ensure_workload_identity-IsProvisioned self.constants self.iam I
            (input_of self.config d p.scopes) s.1 (kept p.scopes) p.ensured,
      )
