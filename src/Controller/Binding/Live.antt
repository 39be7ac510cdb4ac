-- ===== src/Controller/Binding/Live.antt =====
-- Where the API server answers and EnsureWorkloadIdentity succeeds, a pass over a valid binding ends
-- as ready.
use thalassa_workload_identi.Common.{
  ◌≡◌, refl, ◌∙◌, true, false, ◌||◌, some, none, List, inl, inr, Bool-cases,
}
use thalassa_workload_identi.Text.Eq.{Text}
use thalassa_workload_identi.Text.Trim.{trim_space}
use thalassa_workload_identi.Errors.{Result, ok, err}
use thalassa_workload_identi.Api.{WorkloadIdentityBinding}
use thalassa_workload_identi.Kube.{ServiceAccount}
use thalassa_workload_identi.Kube.Laws.{IsLawful, IsUp}
use thalassa_workload_identi.Wif.Scopes.{parse_scope_list}
use thalassa_workload_identi.Wif.Ensure.{EnsureResult}
use thalassa_workload_identi.Wif.Workload.{ensure_workload_identity}
use thalassa_workload_identi.Controller.Annotations.{annotate_service_account_identity}
use thalassa_workload_identi.Controller.ConfigMap.{
  identity_config_map_data, validate_identity_config_map_data,
}
use thalassa_workload_identi.Controller.Cleanup.{BindingDesired, validate_desired}
use thalassa_workload_identi.Controller.System.{Reconciler, System, done, Reconciled, outside_watch}
use thalassa_workload_identi.Controller.Binding.Stored.{
  sync_identity_config_map-view, annotate_service_account-maps,
}
use thalassa_workload_identi.Controller.Binding.{
  input_of, ready_of, returned, after_sync, maybe_sync, after_ensure, provision,
}
use thalassa_workload_identi.Controller.Binding.Up.{
  Fits, answered, sync_identity_config_map_up, annotate_service_account_up,
}

module _ (self : Reconciler) (L : IsLawful self.client) (U : IsUp self.client L) where
  -- The identity config map is asked for, by the binding or by the configuration.
  abbrev pub Wants : BindingDesired → Type 0
  Wants d = (d.identity_config_map || self.config.enable_identity_config_map) ≡ true

  -- What the identity config map needs: an organisation and an account, and that the binding may
  -- control it.
  abbrev pub Syncs : WorkloadIdentityBinding → BindingDesired → EnsureResult → System self → Type 0
  Syncs obj d r s =
      (validate_identity_config_map_data (
          identity_config_map_data (trim_space self.config.organisation_id) r.service_account_id
            (trim_space self.config.project_identity))
        ≡ ok tt)
      × Fits self.client L U obj d s.0

  -- What makes a pass succeed: the binding is valid and watched, its service account is stored and not
  -- being deleted, the engine succeeds on it, and the identity config map, where it is asked for, can
  -- be written.
  pub record IsProvisionable (obj : WorkloadIdentityBinding) (d : BindingDesired) (r : EnsureResult)
      (s : System self) (t : self.iam.State) : Type 0 where
    pub valid : validate_desired d ≡ ok tt
    pub watched : outside_watch self.config d.namespace ≡ false
    pub scopes : List Text
    pub scoped : parse_scope_list self.constants d.scopes ≡ ok scopes
    pub account : ServiceAccount
    pub namespace : account.namespace ≡ d.namespace
    pub name : account.name ≡ d.service_account
    pub live : account.deleting ≡ false
    pub there : (L.view s.0).account_at d.namespace d.service_account ≡ some account
    pub ensured :
        ensure_workload_identity self.constants self.iam (input_of self.config d scopes) s.1
        ≡ (ok r, t)
    pub synced : Wants d → Syncs obj d r s

  maybe_sync_up :
      (obj : WorkloadIdentityBinding) (d : BindingDesired) (r : EnsureResult) (s : System self)
      → (Wants d → Syncs obj d r s)
      → ((maybe_sync self obj d r s).0 ≡ ok tt)
        × (L.view (maybe_sync self obj d r s).1.0 ≡ L.view s.0)
        × ((maybe_sync self obj d r s).1.1 ≡ s.1)
        × (Wants d → Fits self.client L U obj d (maybe_sync self obj d r s).1.0)
  maybe_sync_up obj d r s synced =
      elim (Bool-cases (d.identity_config_map || self.config.enable_identity_config_map)) [
        | inl wanted ↦
            let (valid, free) = synced wanted in
            let (up, fits) =
              sync_identity_config_map_up self.client L U self.has_scheme obj d r.service_account_id
                (trim_space self.config.organisation_id) (trim_space self.config.project_identity)
                s.0 valid free in
            rw wanted (
              up,
              sync_identity_config_map-view self.client L self.has_scheme obj d r.service_account_id
                  (trim_space self.config.organisation_id) (trim_space self.config.project_identity)
                  s.0,
              refl,
              λ _. fits,
            )
        | inr unwanted ↦ rw unwanted (refl, refl, refl, λ wanted. cc)
      ]

  -- The account with the annotations of a result.
  abbrev pub annotated : ServiceAccount → EnsureResult → ServiceAccount
  annotated sa r = record sa {
    annotations =
        annotate_service_account_identity r.service_account_id
          (trim_space self.config.organisation_id) (trim_space self.config.project_identity)
          sa.annotations;
  }

  -- A pass that ends as ready, with the annotations of the result on the account, and after which the
  -- identity config map, where it is asked for, can be written again.
  abbrev pub EndsReady :
      WorkloadIdentityBinding
      → BindingDesired
      → ServiceAccount
      → EnsureResult
      → self.iam.State
      → Reconciled × System self
      → Type 0
  EndsReady obj d sa r t y =
      (y.0 ≡ returned done (some (ready_of self.config r)) none)
      × (y.1.1 ≡ t)
      × ((L.view y.1.0).account_at sa.namespace sa.name ≡ some (annotated sa r))
      × (Wants d → Fits self.client L U obj d y.1.0)

  after_sync_up :
      (obj : WorkloadIdentityBinding) (d : BindingDesired) (sa : ServiceAccount) (r : EnsureResult)
      (x : Result (Unit {0}) × System self)
      → sa.deleting ≡ false
      → x.0 ≡ ok tt
      → (L.view x.1.0).account_at sa.namespace sa.name ≡ some sa
      → (Wants d → Fits self.client L U obj d x.1.0)
      → EndsReady obj d sa r x.1.1 (after_sync self sa r x)
  after_sync_up obj d sa r (err e, s) live won there fits = cc
  after_sync_up obj d sa r (ok _, s) live won there fits =
      let (up, left) =
        annotate_service_account_up self.client L U sa r.service_account_id
          (trim_space self.config.organisation_id) (trim_space self.config.project_identity) s.0
          live there in
      let same =
        annotate_service_account-maps self.client L sa r.service_account_id
          (trim_space self.config.organisation_id) (trim_space self.config.project_identity) s.0 in
      rw up (refl, refl, left, λ wanted. rw same (fits wanted))

  after_ensure_up :
      (obj : WorkloadIdentityBinding) (d : BindingDesired) (sa : ServiceAccount) (r : EnsureResult)
      (s : System self)
      → sa.deleting ≡ false
      → (Wants d → Syncs obj d r s)
      → (L.view s.0).account_at sa.namespace sa.name ≡ some sa
      → EndsReady obj d sa r s.1 (after_ensure self obj d sa (ok r, s))
  after_ensure_up obj d sa r s live synced there =
      let (won, same, at_s, fits) = maybe_sync_up obj d r s synced in
      let (reported, left, annotated, after) =
        after_sync_up obj d sa r (maybe_sync self obj d r s) live won (rw same there) fits in
      (reported, left ∙ at_s, annotated, after)

  -- Where the API server answers, a pass over a provisionable binding ends as ready.
  pub provision_up :
      (obj : WorkloadIdentityBinding) (d : BindingDesired) (r : EnsureResult) (s : System self)
      (t : self.iam.State) (p : IsProvisionable obj d r s t)
      → EndsReady obj d p.account r t (provision self obj d s)
  unfolding provision
  provision_up obj d r s t p =
      let got = self.client.get_service_account d.namespace d.service_account s.0 in
      let up = answered (U.get_service_account_up d.namespace d.service_account s.0) p.there in
      let keeps = L.get_service_account_keeps d.namespace d.service_account s.0 in
      let maps = L.get_service_account_maps d.namespace d.service_account s.0 in
      rw (p.valid, p.watched)
        (rw up (
          rw (p.scoped, p.ensured)
            (after_ensure_up obj d p.account r (got.1, t) p.live
              (λ wanted. ((p.synced wanted).0, rw maps (p.synced wanted).1))
              (simp (p.namespace, p.name, keeps) p.there))))
