-- ===== src/Controller/Binding/Effects.antt =====
-- What a pass of `reconcileBinding` does to the IAM service.
use thalassa_workload_identi.Common.{◌≡◌, refl, ◌∙◌, Bool, true, false, List, inl, inr, Bool-cases}
use thalassa_workload_identi.Text.Eq.{Text}
use thalassa_workload_identi.Errors.{Result, ok, err, Result-cases, is_provider_not_ready}
use thalassa_workload_identi.Api.{WorkloadIdentityBinding}
use thalassa_workload_identi.Kube.{ServiceAccount, Response, given, missing, failed}
use thalassa_workload_identi.Wif.Scopes.{parse_scope_list}
use thalassa_workload_identi.Wif.Ensure.{EnsureResult}
use thalassa_workload_identi.Wif.Workload.{ensure_workload_identity}
use thalassa_workload_identi.Controller.Cleanup.{
  BindingDesired, validate_desired, delete_cloud_resources,
}
use thalassa_workload_identi.Controller.System.{
  Reconciler, System, Reconciled, outside_watch, on_iam, on_kube,
}
use thalassa_workload_identi.Controller.Binding.Calls.{clear_service_account}
use thalassa_workload_identi.Controller.Binding.{
  input_of, finish, release, after_delete, after_clear, delete_binding, add_binding_finalizer,
  after_annotate, after_sync, maybe_sync, after_ensure, after_get, provision, reconcile_binding,
}
use thalassa_workload_identi.Controller.Binding.Ready.{maybe_sync-iam}

module _ (self : Reconciler) where
  -- The ways in which a pass may move the IAM service from `s` to `t`.
  pub data IamEffect (obj : WorkloadIdentityBinding) (d : BindingDesired) (has_finalizer : Bool)
      (s t : self.iam.State) : Type 0 where
    untouched : t ≡ s → IamEffect obj d has_finalizer s t
    provisioned :
        (scopes : List Text)
        → obj.deleting ≡ false
        → has_finalizer ≡ true
        → validate_desired d ≡ ok tt
        → outside_watch self.config d.namespace ≡ false
        → parse_scope_list self.constants d.scopes ≡ ok scopes
        → t ≡ (ensure_workload_identity self.constants self.iam (input_of self.config d scopes) s).1
        → IamEffect obj d has_finalizer s t
    deprovisioned :
        obj.deleting ≡ true
        → has_finalizer ≡ true
        → d.delete_resources ≡ true
        → t ≡ (delete_cloud_resources self.iam self.config.cluster_identity d s).1
        → IamEffect obj d has_finalizer s t

  finish-state : (r : Reconciled) (x : Result (Unit {0}) × System self) → (finish self r x).1 ≡ x.1
  finish-state r (ok _, s) = refl
  finish-state r (err e, s) = refl

  pub release-iam :
      (obj : WorkloadIdentityBinding) (s : System self) → (release self obj s).1.1 ≡ s.1
  unfolding release
  release-iam obj s = rw (finish-state _ _)

  pub add_binding_finalizer-iam :
      (obj : WorkloadIdentityBinding) (s : System self)
      → (add_binding_finalizer self obj s).1.1 ≡ s.1
  unfolding add_binding_finalizer
  add_binding_finalizer-iam obj s = rw (finish-state _ _)

  pub after_delete-iam :
      (obj : WorkloadIdentityBinding) (x : Result (Unit {0}) × System self)
      → (after_delete self obj x).1.1 ≡ x.1.1
  after_delete-iam obj (ok _, s) = release-iam obj s
  after_delete-iam obj (err e, s) = refl

  after_clear-effect :
      (obj : WorkloadIdentityBinding) (d : BindingDesired) (x : Result (Unit {0}) × System self)
      → obj.deleting ≡ true
      → IamEffect obj d true x.1.1 (after_clear self obj d x).1.1
  after_clear-effect obj d (err e, s) gone = untouched refl
  after_clear-effect obj d (ok _, s) gone = elim (Bool-cases d.delete_resources) [
    | inl delete ↦ deprovisioned gone refl delete (
        simp delete (
          after_delete-iam obj
            (on_iam (delete_cloud_resources self.iam self.config.cluster_identity d) s)))
    | inr keep ↦ untouched (simp keep (release-iam obj s))
  ]

  pub after_annotate-state :
      (r : EnsureResult) (x : Result (Unit {0}) × System self) → (after_annotate self r x).1 ≡ x.1
  after_annotate-state r (ok _, s) = refl
  after_annotate-state r (err e, s) = refl

  after_sync-iam :
      (sa : ServiceAccount) (r : EnsureResult) (x : Result (Unit {0}) × System self)
      → (after_sync self sa r x).1.1 ≡ x.1.1
  after_sync-iam sa r (ok _, s) = rw (after_annotate-state r _)
  after_sync-iam sa r (err e, s) = refl

  after_ensure-iam :
      (obj : WorkloadIdentityBinding) (d : BindingDesired) (sa : ServiceAccount)
      (x : Result EnsureResult × System self)
      → (after_ensure self obj d sa x).1.1 ≡ x.1.1
  after_ensure-iam obj d sa (ok r, s) =
      after_sync-iam sa r (maybe_sync self obj d r s) ∙ maybe_sync-iam self obj d r s
  after_ensure-iam obj d sa (err e, s) = elim (Bool-cases (is_provider_not_ready e)) [
    | inl waits ↦ rw waits
    | inr fails ↦ rw fails
  ]

  after_get-effect :
      (obj : WorkloadIdentityBinding) (d : BindingDesired) (x : Response ServiceAccount)
      (s : System self)
      → obj.deleting ≡ false
      → validate_desired d ≡ ok tt
      → outside_watch self.config d.namespace ≡ false
      → IamEffect obj d true s.1 (after_get self obj d x s).1.1
  after_get-effect obj d (missing m) s live valid watched = untouched refl
  after_get-effect obj d (failed m) s live valid watched = untouched refl
  after_get-effect obj d (given sa) s live valid watched =
      elim (Result-cases (parse_scope_list self.constants d.scopes)) [
        | inl (scopes, scoped) ↦ provisioned scopes live refl valid watched scoped (
            simp scoped (
              after_ensure-iam obj d sa (
                on_iam
                  (ensure_workload_identity self.constants self.iam (input_of self.config d scopes))
                  s)))
        | inr (e, bad) ↦ untouched (simp bad)
      ]

  provision-effect :
      (obj : WorkloadIdentityBinding) (d : BindingDesired) (s : System self)
      → obj.deleting ≡ false
      → IamEffect obj d true s.1 (provision self obj d s).1.1
  unfolding provision
  provision-effect obj d s live = elim (Result-cases (validate_desired d)) [
    | inr (e, invalid) ↦ untouched (simp invalid)
    | inl (_, valid) ↦ elim (Bool-cases (outside_watch self.config d.namespace)) [
      | inl outside ↦ untouched (rw (valid, outside))
      | inr watched ↦
          rw (valid, watched)
            (after_get-effect obj d
              (self.client.get_service_account d.namespace d.service_account s.0).0
              ((self.client.get_service_account d.namespace d.service_account s.0).1, s.1) live
              valid watched)
    ]
  ]

  -- A pass leaves the IAM service as it was, or as EnsureWorkloadIdentity on the binding's input
  -- leaves it, which needs the finalizer and a valid, watched binding that is not being deleted, or as
  -- deleteCloudResources leaves it, which needs the finalizer and a binding that is being deleted and
  -- asks for that.
  pub reconcile_binding-IamEffect :
      (obj : WorkloadIdentityBinding) (d : BindingDesired) (has_finalizer : Bool) (s : System self)
      → IamEffect obj d has_finalizer s.1 (reconcile_binding self obj d has_finalizer s).1.1
  unfolding reconcile_binding delete_binding
  reconcile_binding-IamEffect obj d true s = elim (Bool-cases obj.deleting) [
    | inl gone ↦
        let cleared = on_kube (clear_service_account self.client d.namespace d.service_account) s in
        simp gone (after_clear-effect obj d cleared gone)
    | inr live ↦ simp live (provision-effect obj d s live)
  ]
  reconcile_binding-IamEffect obj d false s = elim (Bool-cases obj.deleting) [
    | inl gone ↦ untouched (simp gone)
    | inr live ↦ untouched (simp live (add_binding_finalizer-iam obj s))
  ]
