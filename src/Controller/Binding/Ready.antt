-- ===== src/Controller/Binding/Ready.antt =====
-- When a pass of `reconcileBinding` reports a binding as ready.
use thalassa_workload_identi.Common.{
  ◌≡◌, refl, ◌∙◌, Bool, true, false, ◌||◌, Option, none, some, List, [], inl, inr, Bool-cases,
}
use thalassa_workload_identi.Text.Eq.{Text, codes}
use thalassa_workload_identi.Text.Trim.{trim_space}
use thalassa_workload_identi.Errors.{Result, ok, err, Result-cases, is_provider_not_ready}
use thalassa_workload_identi.Api.{WorkloadIdentityBinding}
use thalassa_workload_identi.Kube.{ServiceAccount, Response, given, missing, failed}
use thalassa_workload_identi.Wif.Keys.{binding_finalizer_name, status_pending}
use thalassa_workload_identi.Wif.Scopes.{parse_scope_list}
use thalassa_workload_identi.Wif.Ensure.{EnsureResult}
use thalassa_workload_identi.Wif.Workload.{ensure_workload_identity}
use thalassa_workload_identi.Controller.Conditions.{BindingObserved}
use thalassa_workload_identi.Controller.Cleanup.{BindingDesired, validate_desired}
use thalassa_workload_identi.Controller.System.{
  Reconciler, System, again, done, Reconciled, outside_watch, on_iam,
}
use thalassa_workload_identi.Controller.Binding.Calls.{annotate_service_account}
use thalassa_workload_identi.Controller.Binding.{
  update_finalizers, observing, ready_of, returned, input_of, finish, release, after_delete,
  after_clear, delete_binding, add_binding_finalizer, after_sync, maybe_sync, after_ensure,
  with_scopes, after_get, provision, reconcile_binding,
}

abbrev pub is_ready : Option BindingObserved → Bool
is_ready none = false
is_ready (some obs) = obs.ready

pub absurd_ready : {A : Type 0} {b : Bool} → b ≡ false → b ≡ true → A
absurd_ready off on = cc

module _ (self : Reconciler) where
  -- A pass that ends in the report for a result, and in a state of the IAM service.
  abbrev pub Reports : EnsureResult → self.iam.State → Reconciled × System self → Type 0
  Reports r t y = (y.0 ≡ returned done (some (ready_of self.config r)) none) × (y.1.1 ≡ t)

  -- What a binding went through before it is reported as ready.
  pub record IsReadyPass (obj : WorkloadIdentityBinding) (d : BindingDesired) (has_finalizer : Bool)
      (s : System self) (y : Reconciled × System self) : Type 0 where
    pub kept : obj.deleting ≡ false
    pub finalizer : has_finalizer ≡ true
    pub valid : validate_desired d ≡ ok tt
    pub watched : outside_watch self.config d.namespace ≡ false
    pub scopes : List Text
    pub scoped : parse_scope_list self.constants d.scopes ≡ ok scopes
    pub result : EnsureResult
    pub ensured :
        ensure_workload_identity self.constants self.iam (input_of self.config d scopes) s.1
        ≡ (ok result, y.1.1)
    pub reported : y.0 ≡ returned done (some (ready_of self.config result)) none

  ready_after_sync :
      (sa : ServiceAccount) (r : EnsureResult) (x : Result (Unit {0}) × System self)
      → is_ready (after_sync self sa r x).0.observed ≡ true
      → Reports r x.1.1 (after_sync self sa r x)
  ready_after_sync sa r (ok _, s) h =
      elim (Result-cases
        (annotate_service_account self.client sa r.service_account_id
          (trim_space self.config.organisation_id) (trim_space self.config.project_identity)
          s.0).0) [ inl (u, e) ↦ rw e (refl, refl) | inr (x, e) ↦ (let h' = rw e at h in cc) ]
  ready_after_sync sa r (err e, s) h = cc

  pub maybe_sync-iam :
      (obj : WorkloadIdentityBinding) (d : BindingDesired) (r : EnsureResult) (s : System self)
      → (maybe_sync self obj d r s).1.1 ≡ s.1
  maybe_sync-iam obj d r s =
      elim (Bool-cases (d.identity_config_map || self.config.enable_identity_config_map)) [
        | inl yes' ↦ rw yes'
        | inr no' ↦ rw no'
      ]

  ready_after_ensure :
      (obj : WorkloadIdentityBinding) (d : BindingDesired) (sa : ServiceAccount)
      (x : Result EnsureResult × System self)
      → is_ready (after_ensure self obj d sa x).0.observed ≡ true
      → (r : EnsureResult) × (x.0 ≡ ok r) × Reports r x.1.1 (after_ensure self obj d sa x)
  ready_after_ensure obj d sa (ok r, s) h =
      let (reported, at_t) = ready_after_sync sa r (maybe_sync self obj d r s) h in
      (r, refl, (reported, at_t ∙ maybe_sync-iam obj d r s))
  ready_after_ensure obj d sa (err e, s) h = elim (Bool-cases (is_provider_not_ready e)) [
    | inl waits ↦ (let h' = rw waits at h in cc)
    | inr fails ↦ (let h' = rw fails at h in cc)
  ]

  ready_with_scopes :
      (obj : WorkloadIdentityBinding) (d : BindingDesired) (sa : ServiceAccount)
      (x : Result (List Text)) (s : System self)
      → is_ready (with_scopes self obj d sa x s).0.observed ≡ true
      → (scopes : List Text) × (r : EnsureResult) × (x ≡ ok scopes)
        × (ensure_workload_identity self.constants self.iam (input_of self.config d scopes) s.1
            ≡ (ok r, (with_scopes self obj d sa x s).1.1))
        × ((with_scopes self obj d sa x s).0 ≡ returned done (some (ready_of self.config r)) none)
  ready_with_scopes obj d sa (err e) s h = cc
  ready_with_scopes obj d sa (ok scopes) s h =
      let (r, won, (reported, at_t)) =
        ready_after_ensure obj d sa
          (on_iam (ensure_workload_identity self.constants self.iam (input_of self.config d scopes))
            s)
          h in
      (scopes, r, refl, cc, reported)

  ready_in_watch :
      (obj : WorkloadIdentityBinding) (d : BindingDesired) (s : System self)
      → obj.deleting ≡ false
      → validate_desired d ≡ ok tt
      → outside_watch self.config d.namespace ≡ false
      → (x : Response ServiceAccount × self.client.State)
      → is_ready (after_get self obj d x.0 (x.1, s.1)).0.observed ≡ true
      → IsReadyPass obj d true s (after_get self obj d x.0 (x.1, s.1))
  ready_in_watch obj d s kept valid watched (given sa, u) h =
      let (scopes, r, scoped, ensured, reported) =
        ready_with_scopes obj d sa (parse_scope_list self.constants d.scopes) (u, s.1) h in
      record {
        kept = kept;
        finalizer = refl;
        valid = valid;
        watched = watched;
        scopes = scopes;
        scoped = scoped;
        result = r;
        ensured = ensured;
        reported = reported;
      }
  ready_in_watch obj d s kept valid watched (missing m, u) h = cc
  ready_in_watch obj d s kept valid watched (failed m, u) h = cc

  ready_provision :
      (obj : WorkloadIdentityBinding) (d : BindingDesired) (s : System self)
      → obj.deleting ≡ false
      → is_ready (provision self obj d s).0.observed ≡ true
      → IsReadyPass obj d true s (provision self obj d s)
  unfolding provision
  ready_provision obj d s kept h = elim (Result-cases (validate_desired d)) [
    | inr (e, invalid) ↦ (let h' = rw invalid at h in cc)
    | inl (_, valid) ↦ elim (Bool-cases (outside_watch self.config d.namespace)) [
      | inl outside ↦ (let h' = rw (valid, outside) at h in cc)
      | inr watched ↦
          rw (valid, watched)
            (ready_in_watch obj d s kept valid watched
              (self.client.get_service_account d.namespace d.service_account s.0)
              (rw (valid, watched) at h))
    ]
  ]

  not_ready_finish :
      (r : Reconciled) (x : Result (Unit {0}) × System self)
      → is_ready r.observed ≡ false
      → is_ready (finish self r x).0.observed ≡ false
  not_ready_finish r (ok _, s) h = h
  not_ready_finish r (err e, s) h = refl

  not_ready_release :
      (obj : WorkloadIdentityBinding) (s : System self)
      → is_ready (release self obj s).0.observed ≡ false
  unfolding release
  not_ready_release obj s =
      not_ready_finish (returned done none none)
        (update_finalizers self obj
          (self.client.remove_finalizer obj.finalizers binding_finalizer_name) s)
        refl

  not_ready_after_delete :
      (obj : WorkloadIdentityBinding) (x : Result (Unit {0}) × System self)
      → is_ready (after_delete self obj x).0.observed ≡ false
  not_ready_after_delete obj (ok _, s) = not_ready_release obj s
  not_ready_after_delete obj (err e, s) = refl

  not_ready_after_clear :
      (obj : WorkloadIdentityBinding) (d : BindingDesired) (x : Result (Unit {0}) × System self)
      → is_ready (after_clear self obj d x).0.observed ≡ false
  not_ready_after_clear obj d (err e, s) = refl
  not_ready_after_clear obj d (ok _, s) = elim (Bool-cases d.delete_resources) [
    | inl delete ↦ simp delete (not_ready_after_delete obj _)
    | inr keep ↦ simp keep (not_ready_release obj s)
  ]

  not_ready_add :
      (obj : WorkloadIdentityBinding) (s : System self)
      → is_ready (add_binding_finalizer self obj s).0.observed ≡ false
  unfolding add_binding_finalizer
  not_ready_add obj s =
      not_ready_finish
        (returned again (some (observing status_pending (codes "FinalizerAdded") [])) none)
        (update_finalizers self obj
          (self.client.add_finalizer obj.finalizers binding_finalizer_name) s)
        refl

  -- A binding is reported as ready only if it is not being deleted, has its finalizer, is valid and
  -- watched, and EnsureWorkloadIdentity succeeded on it in this pass, which left the state of the IAM
  -- service; the report carries the identities of that result, and no error.
  pub reconcile_binding-IsReadyPass :
      (obj : WorkloadIdentityBinding) (d : BindingDesired) (has_finalizer : Bool) (s : System self)
      → is_ready (reconcile_binding self obj d has_finalizer s).0.observed ≡ true
      → IsReadyPass obj d has_finalizer s (reconcile_binding self obj d has_finalizer s)
  unfolding reconcile_binding delete_binding
  reconcile_binding-IsReadyPass obj d true s h = elim (Bool-cases obj.deleting) [
    | inl gone ↦ absurd_ready (not_ready_after_clear obj d _) (simp gone at h)
    | inr kept ↦ simp kept (ready_provision obj d s kept (simp kept at h))
  ]
  reconcile_binding-IsReadyPass obj d false s h = elim (Bool-cases obj.deleting) [
    | inl gone ↦ (let h' = simp gone at h in cc)
    | inr kept ↦ absurd_ready (not_ready_add obj s) (simp kept at h)
  ]
