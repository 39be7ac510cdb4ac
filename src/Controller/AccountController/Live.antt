-- ===== src/Controller/AccountController/Live.antt =====
-- Where the API server answers, one pass takes an annotated service account to the status Ready.
use thalassa_workload_identi.Common.{
  ◌≡◌, refl, ap, ◌∙◌, true, false, ◌&&◌, ◌||◌, Option, some, none, List, [], arith,
}
use thalassa_workload_identi.Text.Eq.{Text, is_empty, cut_of_le}
use thalassa_workload_identi.Text.Trim.{trim_space}
use thalassa_workload_identi.Dict.{Dict, get}
use thalassa_workload_identi.Errors.{ok}
use thalassa_workload_identi.Kube.{
  ServiceAccount, Response, given, missing, failed, KubeClient, replied,
}
use thalassa_workload_identi.Kube.Laws.{Cluster, IsLawful, IsUp}
use thalassa_workload_identi.Iam.Monad.{after}
use thalassa_workload_identi.Wif.Keys.{
  annotation_role, annotation_policy, annotation_scopes, annotation_status, annotation_last_error,
  finalizer_name, status_pending, status_ready,
}
use thalassa_workload_identi.Wif.Labels.{is_enabled}
use thalassa_workload_identi.Wif.Scopes.{parse_scopes}
use thalassa_workload_identi.Wif.Ensure.{EnsureResult, is_wildcard}
use thalassa_workload_identi.Wif.Workload.{ensure_workload_identity}
use thalassa_workload_identi.Controller.System.{Reconciler, System, done, outside_watch, on_kube}
use thalassa_workload_identi.Controller.Binding.Up.{given-inj, answered, updated_up}
use thalassa_workload_identi.Controller.AccountController.{
  Outcome, input_of, noted, unless_failed, with_scopes, provision, reconcile_found, reconcile,
}
use thalassa_workload_identi.Controller.AccountController.Status.{patched_annotations, patch_status}
use thalassa_workload_identi.Controller.AccountController.Status.Laws.{patched_annotations_lem}

module _ (k : KubeClient) (L : IsLawful k) (U : IsUp k L) where
  -- The account is stored with these annotations, and is else as it was.
  abbrev pub IsStored : ServiceAccount → Dict → k.State → Type 0
  IsStored sa d s =
      (L.view s).account_at sa.namespace sa.name ≡ some (record sa { annotations = d })

  got_up :
      (sa : ServiceAccount) (d : Dict) (f : Dict → k.State → Dict)
      (x : Response ServiceAccount × k.State)
      → sa.deleting ≡ false
      → x.0 ≡ given (record sa { annotations = d })
      → IsStored sa d x.1
      → (let y = after (replied x) (λ latest s. replied (
            k.update_service_account (record latest { annotations = f latest.annotations s }) s)) in
          (y.0 ≡ ok tt) × IsStored sa (f d x.1) y.1)
  got_up sa d f (given latest, s) live e there =
      rw (given-inj e) (updated_up k L U (record sa { annotations = d }) (f d s) s live there)
  got_up sa d f (missing m, s) live e there = cc
  got_up sa d f (failed m, s) live e there = cc

  patch_status_up :
      (sa : ServiceAccount) (d : Dict) (status text : Text) (result : Option EnsureResult)
      (s : k.State)
      → sa.deleting ≡ false
      → IsStored sa d s
      → ((patch_status k sa status text result s).0 ≡ ok tt)
        × ((time : Text) × IsStored sa
              (patched_annotations time status text result d)
              (patch_status k sa status text result s).1)
  unfolding patch_status
  patch_status_up sa d status text result s live there =
      let keeps = L.get_service_account_keeps sa.namespace sa.name s in
      let got = k.get_service_account sa.namespace sa.name s in
      let (won, stored) =
        got_up sa d (λ d u. patched_annotations (k.rfc3339 (k.now u)) status text result d) got live
          (answered (U.get_service_account_up sa.namespace sa.name s) there)
          (ap (λ (v : Cluster). v.account_at sa.namespace sa.name) keeps ∙ there) in
      (won, (k.rfc3339 (k.now got.1), stored))

module _ (self : Reconciler) (L : IsLawful self.client) (U : IsUp self.client L) where
  -- A pass that ends well and leaves the IAM service in this state, and the account stored with the
  -- status Ready, no error, and the other fields as they were.
  abbrev pub EndsReady : ServiceAccount → self.iam.State → Outcome self → Type 0
  EndsReady sa t y =
      (y.0 ≡ (done, none))
      × (y.1.1 ≡ t)
      × ((d : Dict) × IsStored self.client L U sa d y.1.0
          × (get annotation_status d ≡ status_ready)
          × (get annotation_last_error d ≡ []))

  finished_up :
      (sa : ServiceAccount) (d : Dict) (r : EnsureResult) (s : System self)
      → sa.deleting ≡ false
      → IsStored self.client L U sa d s.0
      → EndsReady sa s.1 (
          unless_failed self done
            (on_kube (patch_status self.client sa status_ready [] (some r)) s))
  finished_up sa d r s live there =
      let (won, (time, stored)) =
        patch_status_up self.client L U sa d status_ready [] (some r) s.0 live there in
      let (status, error, short) = patched_annotations_lem time status_ready [] (some r) d in
      rw won (refl, refl, (_, stored, status, error ∙ cut_of_le 1024 [] (omega arith)))

  ensured_up :
      (sa : ServiceAccount) (scopes : List Text) (r : EnsureResult) (s : System self)
      (t : self.iam.State)
      → sa.deleting ≡ false
      → IsStored self.client L U sa sa.annotations s.0
      → ensure_workload_identity self.constants self.iam (input_of self.config sa scopes) s.1
        ≡ (ok r, t)
      → EndsReady sa t (with_scopes self sa (ok scopes) s)
  unfolding noted
  ensured_up sa scopes r s t live there ensured =
      let pending = patch_status self.client sa status_pending [] none s.0 in
      let (won, (time, stored)) =
        patch_status_up self.client L U sa sa.annotations status_pending [] none s.0 live there in
      rw ensured (finished_up sa _ r (pending.1, t) live stored)

  -- What makes a service account go to the engine, with these scopes.
  abbrev pub IsWanted : ServiceAccount → List Text → Type 0
  IsWanted sa scopes =
      let role = trim_space (get annotation_role sa.annotations) in
      let policy = trim_space (get annotation_policy sa.annotations) in
      ((is_empty role && is_empty policy) ≡ false)
      × ((is_wildcard role || is_wildcard policy) ≡ false)
      × (parse_scopes self.constants (get annotation_scopes sa.annotations) ≡ ok scopes)
      × (sa.deleting ≡ false)
      × (is_enabled sa.annotations ≡ true)
      × (self.client.contains_finalizer sa.finalizers finalizer_name ≡ true)
      × (outside_watch self.config sa.namespace ≡ false)

  reconcile_found-wanted :
      (sa : ServiceAccount) (scopes : List Text) (s : System self)
      → IsWanted sa scopes
      → reconcile_found self sa s ≡ with_scopes self sa (ok scopes) s
  unfolding reconcile_found provision
  reconcile_found-wanted sa scopes s (named, tame, scoped, live, enabled, finalizer, watched) =
      simp (watched, live, enabled, finalizer, named, tame, scoped)

  -- Where the API server answers and EnsureWorkloadIdentity succeeds, a pass over a stored, watched
  -- service account that has opted in, is not being deleted, has our finalizer, and names a role or a
  -- policy, none of them a wildcard, and scopes that are accepted, returns no error. It leaves the IAM
  -- service as EnsureWorkloadIdentity left it, and the account stored with the status Ready, without
  -- an error in its annotations, and its other fields as they were.
  pub reconcile-makes_ready :
      (sa : ServiceAccount) (scopes : List Text) (r : EnsureResult) (s : System self)
      (t : self.iam.State)
      → IsWanted sa scopes
      → (L.view s.0).account_at sa.namespace sa.name ≡ some sa
      → ensure_workload_identity self.constants self.iam (input_of self.config sa scopes) s.1
        ≡ (ok r, t)
      → EndsReady sa t (reconcile self sa.namespace sa.name s)
  unfolding reconcile
  reconcile-makes_ready sa scopes r s t wanted there ensured =
      let (_, _, _, live, _, _, _) = wanted in
      let got = self.client.get_service_account sa.namespace sa.name s.0 in
      let keeps = L.get_service_account_keeps sa.namespace sa.name s.0 in
      let ends =
        ensured_up sa scopes r (got.1, s.1) t live
          (ap (λ (v : Cluster). v.account_at sa.namespace sa.name) keeps ∙ there) ensured in
      rw (answered (U.get_service_account_up sa.namespace sa.name s.0) there)
        (rw (reconcile_found-wanted sa scopes (got.1, s.1) wanted) ends)
