-- ===== src/Controller/AccountController/Held.antt =====
-- Writing the status of a service account keeps it stored with its finalizer.
use thalassa_workload_identi.Common.{
  ◌≡◌, refl, sym, ap, ◌∙◌, true, false, Option, some, List, [], ◌∷◌, inl, inr, is_nil, arith,
}
use thalassa_workload_identi.Text.Eq.{Text, text_eq_refl}
use thalassa_workload_identi.Dict.{Dict}
use thalassa_workload_identi.Kube.{
  ServiceAccount, Response, given, missing, failed, replied, KubeClient,
}
use thalassa_workload_identi.Kube.Laws.{
  Cluster, Reads, Writes, put, put_account, remaining_account, IsLawful,
}
use thalassa_workload_identi.Iam.Monad.{after}
use thalassa_workload_identi.Wif.Keys.{finalizer_name}
use thalassa_workload_identi.Wif.Ensure.{EnsureResult}
use thalassa_workload_identi.Controller.Binding.Stored.{replied-state}
use thalassa_workload_identi.Controller.AccountController.Status.{patched_annotations, patch_status}

pub some-inj : {A : Type 0} {a b : A} → ◌≡◌ {A = Option A} (some a) (some b) → a ≡ b
some-inj e = cc

put-at :
    {A : Type 0} (namespace name ns n : Text) (o : Option A) (at : Text → Text → Option A)
    → namespace ≡ ns
    → name ≡ n
    → put namespace name o at ns n ≡ o
put-at namespace name ns n o at e1 e2 = rw (e1, e2, text_eq_refl ns, text_eq_refl n)

module _ (k : KubeClient) (L : IsLawful k) where
  -- An account of this name is stored under it, and has the finalizer.
  abbrev pub IsHeld : Text → Text → Cluster → Type 0
  IsHeld ns n v =
      (a : ServiceAccount) × (a.namespace ≡ ns)
      × (a.name ≡ n)
      × (v.account_at ns n ≡ some a)
      × (k.contains_finalizer a.finalizers finalizer_name ≡ true)

  IsHeld-either :
      (ns n : Text) (r : Response (Unit {0})) (old new after : Cluster)
      → Writes r old new after
      → IsHeld ns n old
      → IsHeld ns n new
      → IsHeld ns n after
  IsHeld-either ns n (given _) old new after w h g = rw w g
  IsHeld-either ns n (missing m) old new after (inl w) h g = rw w h
  IsHeld-either ns n (missing m) old new after (inr w) h g = rw w g
  IsHeld-either ns n (failed m) old new after (inl w) h g = rw w h
  IsHeld-either ns n (failed m) old new after (inr w) h g = rw w g

  some_finalizer : (l : List Text) → k.contains_finalizer l finalizer_name ≡ true → is_nil l ≡ false
  some_finalizer [] h = (let none' = L.contains_finalizer_none finalizer_name in cc)
  some_finalizer (f ∷ l) h = refl

  -- An account with the finalizer is not removed by an update that keeps it.
  remaining-finalizer :
      (a : ServiceAccount)
      → k.contains_finalizer a.finalizers finalizer_name ≡ true
      → remaining_account a ≡ some a
  remaining-finalizer a finalizer =
      let some' = some_finalizer a.finalizers finalizer in ground arith

  IsHeld-update :
      (ns n : Text) (a : ServiceAccount) (annotations : Dict) (s : k.State)
      → a.namespace ≡ ns
      → a.name ≡ n
      → (L.view s).account_at ns n ≡ some a
      → k.contains_finalizer a.finalizers finalizer_name ≡ true
      → IsHeld ns n (L.view (k.update_service_account (record a { annotations = annotations }) s).1)
  IsHeld-update ns n a annotations s e1 e2 there finalizer =
      let new = record a { annotations = annotations } in
      IsHeld-either ns n (k.update_service_account new s).0 (L.view s)
        (put_account new (remaining_account new) (L.view s))
        (L.view (k.update_service_account new s).1)
        (L.update_service_account_writes a annotations a.finalizers s (simp (e1, e2) there))
        (a, e1, e2, there, finalizer)
        (
          new,
          e1,
          e2,
          (put-at a.namespace a.name ns n (remaining_account new) (L.view s).account_at e1 e2
              ∙ remaining-finalizer new finalizer),
          finalizer,
        )

  IsHeld-got :
      (ns n : Text) (f : ServiceAccount → k.State → Dict) (x : Response ServiceAccount × k.State)
      → Reads ((L.view x.1).account_at ns n) x.0
      → IsHeld ns n (L.view x.1)
      → IsHeld ns n (
          L.view
            (after (replied x) (λ latest s.
              replied (k.update_service_account (record latest { annotations = f latest s }) s))).1)
  IsHeld-got ns n f (missing m, s) reads held = held
  IsHeld-got ns n f (failed m, s) reads held = held
  IsHeld-got ns n f (given latest, s) reads (a, e1, e2, there, finalizer) =
      let same = some-inj (sym reads ∙ there) in
      rw (replied-state (k.update_service_account (record latest { annotations = f latest s }) s)) (
        IsHeld-update ns n latest (f latest s) s
          (ap (λ (x : ServiceAccount). x.namespace) same ∙ e1)
          (ap (λ (x : ServiceAccount). x.name) same ∙ e2) reads
          (ap (λ (x : ServiceAccount). k.contains_finalizer x.finalizers finalizer_name) same
            ∙ finalizer))

  -- Writing the status keeps a stored account with its finalizer.
  pub IsHeld-patch :
      (sa : ServiceAccount) (status text : Text) (result : Option EnsureResult) (s : k.State)
      → IsHeld sa.namespace sa.name (L.view s)
      → IsHeld sa.namespace sa.name (L.view (patch_status k sa status text result s).1)
  unfolding patch_status
  IsHeld-patch sa status text result s held =
      let keeps = L.get_service_account_keeps sa.namespace sa.name s in
      IsHeld-got sa.namespace sa.name
        (λ latest u.
          patched_annotations (k.rfc3339 (k.now u)) status text result latest.annotations)
        (k.get_service_account sa.namespace sa.name s)
        (rw keeps (L.get_service_account_reads sa.namespace sa.name s)) (rw keeps held)
