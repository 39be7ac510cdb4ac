-- ===== src/Controller/AccountController/Reach.antt =====
-- The life of one service account: passes of `Reconcile` between changes that others make to the
-- cluster.
use thalassa_workload_identi.Common.{
  ◌≡◌, ◌⊎◌, refl, sym, ap, ◌∙◌, true, false, Option, some, inl, inr, Bool-cases,
}
use thalassa_workload_identi.Text.Eq.{Text}
use thalassa_workload_identi.Kube.{ServiceAccount, Response, given, missing, failed}
use thalassa_workload_identi.Kube.Laws.{Cluster, Reads, IsLawful}
use thalassa_workload_identi.Wif.Keys.{finalizer_name}
use thalassa_workload_identi.Wif.Labels.{is_enabled, delete_resources}
use thalassa_workload_identi.Controller.System.{Reconciler, System, outside_watch}
use thalassa_workload_identi.Controller.Binding.Ready.{absurd_ready}
use thalassa_workload_identi.Controller.AccountController.{reconcile_found, fetched, reconcile}
use thalassa_workload_identi.Controller.AccountController.Effects.{
  IamEffect, untouched, provisioned, deprovisioned, reconcile_found-IamEffect,
}
use thalassa_workload_identi.Controller.AccountController.Held.{some-inj, IsHeld}
use thalassa_workload_identi.Controller.AccountController.Released.{
  Deprovisioned, reconcile_found-released,
}

module _ (self : Reconciler) (L : IsLawful self.client) (ns n : Text) where
  -- The account is stored with our finalizer.
  abbrev pub Keeps : System self → Type 0
  Keeps s = IsHeld self.client L ns n (L.view s.0)

  -- The account, where it is stored, asks for the deletion of its resources.
  abbrev pub Asks : (Text → Text → Option ServiceAccount) → Type 0
  Asks v =
      (a : ServiceAccount)
      → v ns n ≡ some a
      → (a.namespace ≡ ns) × (a.name ≡ n) × (delete_resources a.annotations ≡ true)

  -- The states that are reached from `start`: by a pass over an account that asks for deletion, and by
  -- a change of the cluster that leaves the finalizer to the controller.
  pub data Reach (start : System self) : System self → Type 0 where
    here : Reach start start
    pass :
        {s : System self}
        → Reach start s
        → Asks (L.view s.0).account_at
        → Reach start (reconcile self ns n s).1
    change :
        {s : System self} (u : self.client.State)
        → Reach start s
        → (Keeps s → Keeps (u, s.1))
        → Reach start (u, s.1)

  -- The account is being deleted or has opted out.
  abbrev pub IsLeaving : ServiceAccount → Type 0
  IsLeaving a = (a.deleting ≡ true) ⊎ (is_enabled a.annotations ≡ false)

  -- The states of the IAM service in which nothing of the account is left to delete: the one at the
  -- start, and those that the cleanup of the account left which a pass on the way made with success.
  pub data IsClean (start : System self) (t : self.iam.State) : Type 0 where
    at_start : t ≡ start.1 → IsClean start t
    cleaned :
        (a : ServiceAccount) (s : System self)
        → Reach start s
        → (L.view s.0).account_at ns n ≡ some a
        → IsLeaving a
        → Deprovisioned self L a s.1 t
        → IsClean start t

  abbrev KeepsOr : (self.iam.State → Type 0) → System self → Type 0
  KeepsOr IsDone s = Keeps s ⊎ IsDone s.1

  -- A cleanup of the account from a state ends in a state that is done.
  abbrev Finishes : (self.iam.State → Type 0) → ServiceAccount → self.iam.State → Type 0
  Finishes IsDone a s = (t : self.iam.State) → IsLeaving a → Deprovisioned self L a s t → IsDone t

  effect-unheld :
      (a : ServiceAccount) {s t : self.iam.State}
      → self.client.contains_finalizer a.finalizers finalizer_name ≡ false
      → IamEffect self a s t
      → t ≡ s
  effect-unheld a off (untouched e) = e
  effect-unheld a off (provisioned scopes live enabled on watched scoped e) = absurd_ready off on
  effect-unheld a off (deprovisioned why on watched asks e) = absurd_ready off on

  found_held-KeepsOr :
      (IsDone : self.iam.State → Type 0) (a : ServiceAccount) (s : System self)
      → a.namespace ≡ ns
      → a.name ≡ n
      → delete_resources a.annotations ≡ true
      → outside_watch self.config a.namespace ≡ false
      → (L.view s.0).account_at ns n ≡ some a
      → self.client.contains_finalizer a.finalizers finalizer_name ≡ true
      → Finishes IsDone a s.1
      → KeepsOr IsDone (reconcile_found self a s).1
  found_held-KeepsOr IsDone a s e1 e2 asked watched there on finishes =
      elim (reconcile_found-released self L a s watched (simp (e1, e2) there) on asked) [
        | inl kept ↦ inl (simp (← e1, ← e2) kept)
        | inr (leaving, won) ↦ inr (finishes _ leaving won)
      ]

  found_unheld-KeepsOr :
      (IsDone : self.iam.State → Type 0) (a : ServiceAccount) (s : System self)
      → (L.view s.0).account_at ns n ≡ some a
      → self.client.contains_finalizer a.finalizers finalizer_name ≡ false
      → KeepsOr IsDone s
      → KeepsOr IsDone (reconcile_found self a s).1
  found_unheld-KeepsOr IsDone a s there off (inl (a', e1, e2, there', on)) =
      let same = some-inj (sym there ∙ there') in absurd_ready (rw same at off) on
  found_unheld-KeepsOr IsDone a s there off (inr clean) =
      inr (rw (effect-unheld a off (reconcile_found-IamEffect self a s)) clean)

  reconcile_found-KeepsOr :
      (IsDone : self.iam.State → Type 0) (a : ServiceAccount) (s : System self)
      → a.namespace ≡ ns
      → a.name ≡ n
      → delete_resources a.annotations ≡ true
      → (L.view s.0).account_at ns n ≡ some a
      → Finishes IsDone a s.1
      → KeepsOr IsDone s
      → KeepsOr IsDone (reconcile_found self a s).1
  unfolding reconcile_found
  reconcile_found-KeepsOr IsDone a s e1 e2 asked there finishes before =
      elim (Bool-cases (outside_watch self.config a.namespace)) [
        | inl outside ↦ simp outside before
        | inr watched ↦
            elim (Bool-cases (self.client.contains_finalizer a.finalizers finalizer_name)) [
              | inl on ↦ found_held-KeepsOr IsDone a s e1 e2 asked watched there on finishes
              | inr off ↦ found_unheld-KeepsOr IsDone a s there off before
            ]
      ]

  fetched-KeepsOr :
      (IsDone : self.iam.State → Type 0) (x : Response ServiceAccount) (s : System self)
      → Asks (L.view s.0).account_at
      → Reads ((L.view s.0).account_at ns n) x
      → ((a : ServiceAccount) → (L.view s.0).account_at ns n ≡ some a → Finishes IsDone a s.1)
      → KeepsOr IsDone s
      → KeepsOr IsDone (fetched self x s).1
  fetched-KeepsOr IsDone (missing m) s asks reads finishes before = before
  fetched-KeepsOr IsDone (failed m) s asks reads finishes before = before
  fetched-KeepsOr IsDone (given a) s asks reads finishes before =
      let (e1, e2, asked) = asks a reads in
      reconcile_found-KeepsOr IsDone a s e1 e2 asked reads (finishes a reads) before

  KeepsOr-same :
      (IsDone : self.iam.State → Type 0) {s u : self.client.State} {t : self.iam.State}
      → L.view u ≡ L.view s
      → KeepsOr IsDone (s, t)
      → KeepsOr IsDone (u, t)
  KeepsOr-same IsDone e (inl held) = inl (rw e held)
  KeepsOr-same IsDone e (inr clean) = inr clean

  abbrev pub KeepsOrClean : System self → System self → Type 0
  KeepsOrClean start s = KeepsOr (IsClean start) s

  -- Over a lawful API server, in every state that is reached by passes over a service account that
  -- asks for the deletion of its resources, and by changes that leave our finalizer to the controller,
  -- the account is stored with the finalizer, or the IAM service is as it was at the start, or as
  -- deleteCloudResources left it when it succeeded on the stored account in one of these passes, while
  -- the account was being deleted or had opted out.
  pub Reach-KeepsOrClean : (start s : System self) → Reach start s → KeepsOrClean start s
  unfolding reconcile
  Reach-KeepsOrClean start s here = inr (at_start refl)
  Reach-KeepsOrClean start _ (pass {s} r asks) =
      let found = self.client.get_service_account ns n s.0 in
      let keeps = L.get_service_account_keeps ns n s.0 in
      let back = ap (λ (v : Cluster). v.account_at ns n) (sym keeps) in
      fetched-KeepsOr (IsClean start) found.0 (found.1, s.1) (λ a there. asks a (back ∙ there))
        (rw keeps (L.get_service_account_reads ns n s.0))
        (λ a there t leaving won. cleaned a s r (back ∙ there) leaving won)
        (KeepsOr-same (IsClean start) keeps (Reach-KeepsOrClean start s r))
  Reach-KeepsOrClean start _ (change {s} u r keeps) = elim (Reach-KeepsOrClean start s r) [
    | inl held ↦ inl (keeps held)
    | inr clean ↦ inr clean
  ]
