-- ===== src/Controller/BindingController/Reach.antt =====
-- The life of one binding: passes of `Reconcile` between changes that others make to the cluster.
use thalassa_workload_identi.Common.{
  ◌≡◌, ◌⊎◌, refl, sym, ap, ◌∙◌, true, false, Option, none, some, inl, inr, Bool-cases,
}
use thalassa_workload_identi.Text.Eq.{Text}
use thalassa_workload_identi.Errors.{Result, ok, err}
use thalassa_workload_identi.Api.{WorkloadIdentityBinding}
use thalassa_workload_identi.Kube.{Response, given, missing, failed}
use thalassa_workload_identi.Kube.Laws.{Cluster, Reads, IsLawful}
use thalassa_workload_identi.Wif.Keys.{binding_finalizer_name}
use thalassa_workload_identi.Controller.Conditions.{BindingObserved}
use thalassa_workload_identi.Controller.System.{
  Reconciler, System, Reconciled, outside_watch, on_kube,
}
use thalassa_workload_identi.Controller.Binding.{reconcile_binding}
use thalassa_workload_identi.Controller.Binding.Ready.{absurd_ready}
use thalassa_workload_identi.Controller.Binding.Stored.{Bindings}
use thalassa_workload_identi.Controller.Binding.Effects.{add_binding_finalizer-iam}
use thalassa_workload_identi.Controller.Binding.Released.{
  stored, Deprovisioned, reconcile_binding-released,
}
use thalassa_workload_identi.Controller.BindingController.{
  desired_of, patch_status, after_patch, report_observed, report, reconcile_found, fetched,
  reconcile,
}
use thalassa_workload_identi.Controller.BindingController.Held.{some-inj, IsHeld, IsHeld-patch}

module _ (self : Reconciler) (L : IsLawful self.client) (ns n : Text) where
  abbrev pub Held : System self → Type 0
  Held s = IsHeld self L ns n (L.view s.0)

  -- The binding, where it is stored, asks for the deletion of its resources.
  abbrev pub Asks : Bindings self.client L → Type 0
  Asks v =
      (b : WorkloadIdentityBinding)
      → v ns n ≡ some b
      → (b.namespace ≡ ns) × (b.name ≡ n) × (b.delete_resources ≡ true)

  -- The states that are reached from `start`: by a pass over a binding that asks for deletion, and by
  -- a change of the cluster that leaves the finalizer to the controller.
  pub data Reach (start : System self) : System self → Type 0 where
    here : Reach start start
    pass :
        {s : System self}
        → Reach start s
        → Asks (stored self L s)
        → Reach start (reconcile self ns n s).1
    change :
        {s : System self} (u : self.client.State)
        → Reach start s
        → (Held s → Held (u, s.1))
        → Reach start (u, s.1)

  -- The states of the IAM service in which nothing of the binding is left to delete: the one at the
  -- start, and those that the cleanup of the binding left which a pass on the way made with success.
  pub data IsClean (start : System self) (t : self.iam.State) : Type 0 where
    at_start : t ≡ start.1 → IsClean start t
    cleaned :
        (b : WorkloadIdentityBinding) (s : System self)
        → Reach start s
        → (L.view s.0).binding_at ns n ≡ some b
        → b.deleting ≡ true
        → Deprovisioned self L (desired_of b) s.1 t
        → IsClean start t

  abbrev pub HeldOr : (self.iam.State → Type 0) → System self → Type 0
  HeldOr IsDone s = Held s ⊎ IsDone s.1

  -- A cleanup of the binding from a state ends in a state that is done.
  abbrev Finishes : (self.iam.State → Type 0) → WorkloadIdentityBinding → self.iam.State → Type 0
  Finishes IsDone b s =
      (t : self.iam.State) → b.deleting ≡ true → Deprovisioned self L (desired_of b) s t → IsDone t

  after_patch-state :
      (r : Reconciled) (x : Result (Unit {0}) × System self) → (after_patch self r x).1 ≡ x.1
  after_patch-state r (ok _, s) = refl
  after_patch-state r (err e, s) = refl

  observed-iam :
      (b : WorkloadIdentityBinding) (o : Option BindingObserved) (r : Reconciled) (s : System self)
      → (report_observed self b o r s).1.1 ≡ s.1
  observed-iam b none r s = refl
  observed-iam b (some obs) r s =
      rw (after_patch-state r (on_kube (patch_status self.client b obs) s))

  report-iam :
      (b : WorkloadIdentityBinding) (y : Reconciled × System self) → (report self b y).1.1 ≡ y.1.1
  unfolding report
  report-iam b (r, s) = observed-iam b r.observed r s

  report-Held :
      (b : WorkloadIdentityBinding) (y : Reconciled × System self)
      → b.namespace ≡ ns
      → b.name ≡ n
      → (L.view y.1.0).binding_at ns n ≡ some b
      → self.client.contains_finalizer b.finalizers binding_finalizer_name ≡ true
      → Held (report self b y).1
  unfolding report
  report-Held b (r, s) e1 e2 there finalizer = observed-held r.observed
    where
      patched-held : (obs : BindingObserved) → Held (on_kube (patch_status self.client b obs) s).1
      patched-held obs =
          simp (← e1, ← e2) (IsHeld-patch self L b obs s.0 (simp (e1, e2) there) finalizer)

      observed-held : (o : Option BindingObserved) → Held (report_observed self b o r s).1
      observed-held none = (b, there, finalizer)
      observed-held (some obs) =
          rw (after_patch-state r (on_kube (patch_status self.client b obs) s)) (patched-held obs)

  reconcile_binding-unheld :
      (b : WorkloadIdentityBinding) (s : System self)
      → (reconcile_binding self b (desired_of b) false s).1.1 ≡ s.1
  unfolding reconcile_binding
  reconcile_binding-unheld b s = elim (Bool-cases b.deleting) [
    | inl gone ↦ simp gone
    | inr live ↦ simp live (add_binding_finalizer-iam self b s)
  ]

  still_done :
      (IsDone : self.iam.State → Type 0) {t u : self.iam.State} → u ≡ t → IsDone t → IsDone u
  still_done IsDone e clean = rw e clean

  found-HeldOr :
      (IsDone : self.iam.State → Type 0) (b : WorkloadIdentityBinding) (s : System self)
      → b.namespace ≡ ns
      → b.name ≡ n
      → b.delete_resources ≡ true
      → (L.view s.0).binding_at ns n ≡ some b
      → self.client.contains_finalizer b.finalizers binding_finalizer_name ≡ true
      → Finishes IsDone b s.1
      → HeldOr IsDone (report self b (reconcile_binding self b (desired_of b) true s)).1
  unfolding desired_of
  found-HeldOr IsDone b s e1 e2 asked there finalizer finishes =
      let y = reconcile_binding self b (desired_of b) true s in
      elim (reconcile_binding-released self L b (desired_of b) s asked) [
        | inl same ↦ inl (report-Held b y e1 e2 (ap (λ v. v ns n) same ∙ there) finalizer)
        | inr (gone, won) ↦ inr (still_done IsDone (report-iam b y) (finishes _ gone won))
      ]

  found_unheld-HeldOr :
      (IsDone : self.iam.State → Type 0) (b : WorkloadIdentityBinding) (s : System self)
      → (L.view s.0).binding_at ns n ≡ some b
      → self.client.contains_finalizer b.finalizers binding_finalizer_name ≡ false
      → HeldOr IsDone s
      → HeldOr IsDone (report self b (reconcile_binding self b (desired_of b) false s)).1
  found_unheld-HeldOr IsDone b s there finalizer (inl (b', there', finalizer')) =
      let same = some-inj (sym there ∙ there') in absurd_ready (rw same at finalizer) finalizer'
  found_unheld-HeldOr IsDone b s there finalizer (inr clean) = inr (
      still_done IsDone
        (report-iam b (reconcile_binding self b (desired_of b) false s)
          ∙ reconcile_binding-unheld b s)
        clean)

  reconcile_found-HeldOr :
      (IsDone : self.iam.State → Type 0) (b : WorkloadIdentityBinding) (s : System self)
      → b.namespace ≡ ns
      → b.name ≡ n
      → b.delete_resources ≡ true
      → (L.view s.0).binding_at ns n ≡ some b
      → Finishes IsDone b s.1
      → HeldOr IsDone s
      → HeldOr IsDone (reconcile_found self b s).1
  unfolding reconcile_found
  reconcile_found-HeldOr IsDone b s e1 e2 asked there finishes before =
      elim (Bool-cases (outside_watch self.config b.namespace)) [
        | inl outside ↦ simp outside before
        | inr watched ↦
            elim (Bool-cases (self.client.contains_finalizer b.finalizers binding_finalizer_name)) [
              | inl on ↦ simp (watched, on) (found-HeldOr IsDone b s e1 e2 asked there on finishes)
              | inr off ↦ simp (watched, off) (found_unheld-HeldOr IsDone b s there off before)
            ]
      ]

  fetched-HeldOr :
      (IsDone : self.iam.State → Type 0) (x : Response WorkloadIdentityBinding) (s : System self)
      → Asks (stored self L s)
      → Reads ((L.view s.0).binding_at ns n) x
      → ((b : WorkloadIdentityBinding)
          → (L.view s.0).binding_at ns n ≡ some b
          → Finishes IsDone b s.1)
      → HeldOr IsDone s
      → HeldOr IsDone (fetched self x s).1
  fetched-HeldOr IsDone (missing m) s asks reads finishes before = before
  fetched-HeldOr IsDone (failed m) s asks reads finishes before = before
  fetched-HeldOr IsDone (given b) s asks reads finishes before =
      let (e1, e2, asked) = asks b reads in
      reconcile_found-HeldOr IsDone b s e1 e2 asked reads (finishes b reads) before

  HeldOr-same :
      (IsDone : self.iam.State → Type 0) {s u : self.client.State} {t : self.iam.State}
      → L.view u ≡ L.view s
      → HeldOr IsDone (s, t)
      → HeldOr IsDone (u, t)
  HeldOr-same IsDone e (inl held) = inl (rw e held)
  HeldOr-same IsDone e (inr clean) = inr clean

  abbrev pub HeldOrClean : System self → System self → Type 0
  HeldOrClean start s = HeldOr (IsClean start) s

  -- Over a lawful API server, in every state that is reached by passes over a binding that asks for
  -- the deletion of its resources, and by changes that leave its finalizer to the controller, the
  -- binding is stored with the finalizer, or the IAM service is as it was at the start, or as
  -- deleteCloudResources left it when it succeeded on the stored binding in one of these passes, while
  -- the binding was being deleted.
  pub Reach-HeldOrClean : (start s : System self) → Reach start s → HeldOrClean start s
  unfolding reconcile
  Reach-HeldOrClean start s here = inr (at_start refl)
  Reach-HeldOrClean start _ (pass {s} r asks) =
      let found = self.client.get_binding ns n s.0 in
      let keeps = L.get_binding_keeps ns n s.0 in
      let back = ap (λ (v : Cluster). v.binding_at ns n) (sym keeps) in
      fetched-HeldOr (IsClean start) found.0 (found.1, s.1) (λ b there. asks b (back ∙ there))
        (rw keeps (L.get_binding_reads ns n s.0))
        (λ b there t gone won. cleaned b s r (back ∙ there) gone won)
        (HeldOr-same (IsClean start) keeps (Reach-HeldOrClean start s r))
  Reach-HeldOrClean start _ (change {s} u r keeps) = elim (Reach-HeldOrClean start s r) [
    | inl held ↦ inl (keeps held)
    | inr clean ↦ inr clean
  ]
