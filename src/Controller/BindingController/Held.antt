-- ===== src/Controller/BindingController/Held.antt =====
-- Writing the status keeps a stored binding and its finalizer.
use thalassa_workload_identi.Common.{◌≡◌, sym, ◌∙◌, true, Option, some, inl, inr}
use thalassa_workload_identi.Text.Eq.{Text, text_eq_refl}
use thalassa_workload_identi.Api.{WorkloadIdentityBinding, WorkloadIdentityBindingStatus}
use thalassa_workload_identi.Kube.{Response, given, missing, failed, replied}
use thalassa_workload_identi.Kube.Laws.{Cluster, Reads, Writes, put_binding, IsLawful}
use thalassa_workload_identi.Iam.Monad.{after}
use thalassa_workload_identi.Wif.Keys.{binding_finalizer_name}
use thalassa_workload_identi.Controller.Conditions.{BindingObserved}
use thalassa_workload_identi.Controller.System.{Reconciler}
use thalassa_workload_identi.Controller.Binding.Stored.{replied-state}
use thalassa_workload_identi.Controller.BindingController.{patched_status, patch_status}

pub some-inj : {A : Type 0} {a b : A} → ◌≡◌ {A = Option A} (some a) (some b) → a ≡ b
some-inj e = cc

module _ (self : Reconciler) (L : IsLawful self.client) where
  -- The binding of this name is stored, and has the finalizer.
  abbrev pub IsHeld : Text → Text → Cluster → Type 0
  IsHeld ns n v =
      (b : WorkloadIdentityBinding) × (v.binding_at ns n ≡ some b)
      × (self.client.contains_finalizer b.finalizers binding_finalizer_name ≡ true)

  IsHeld-either :
      (ns n : Text) (r : Response (Unit {0})) (old new after : Cluster)
      → Writes r old new after
      → IsHeld ns n old
      → IsHeld ns n new
      → IsHeld ns n after
  IsHeld-either ns n (given _) old new after w h k = rw w k
  IsHeld-either ns n (missing m) old new after (inl w) h k = rw w h
  IsHeld-either ns n (missing m) old new after (inr w) h k = rw w k
  IsHeld-either ns n (failed m) old new after (inl w) h k = rw w h
  IsHeld-either ns n (failed m) old new after (inr w) h k = rw w k

  IsHeld-update :
      (b : WorkloadIdentityBinding) (status : WorkloadIdentityBindingStatus) (s : self.client.State)
      → (L.view s).binding_at b.namespace b.name ≡ some b
      → self.client.contains_finalizer b.finalizers binding_finalizer_name ≡ true
      → IsHeld b.namespace b.name
          (L.view (self.client.update_binding_status (record b { status = status }) s).1)
  IsHeld-update b status s there finalizer =
      IsHeld-either b.namespace b.name
        (self.client.update_binding_status (record b { status = status }) s).0 (L.view s)
        (put_binding (record b { status = status }) (some (record b { status = status }))
          (L.view s))
        (L.view (self.client.update_binding_status (record b { status = status }) s).1)
        (L.update_binding_status_writes b status s there) (b, there, finalizer)
        (
          record b { status = status },
          rw (text_eq_refl b.namespace, text_eq_refl b.name),
          finalizer,
        )

  IsHeld-got :
      (b : WorkloadIdentityBinding) (obs : BindingObserved)
      (x : Response WorkloadIdentityBinding × self.client.State)
      → Reads ((L.view x.1).binding_at b.namespace b.name) x.0
      → (L.view x.1).binding_at b.namespace b.name ≡ some b
      → self.client.contains_finalizer b.finalizers binding_finalizer_name ≡ true
      → IsHeld b.namespace b.name (
          L.view
            (after (replied x) (λ latest s. replied (
              self.client.update_binding_status
                (record latest {
                  status = patched_status obs latest.generation (self.client.now s) latest.status;
                })
                s))).1)
  IsHeld-got b obs (missing m, s) reads there finalizer = (b, there, finalizer)
  IsHeld-got b obs (failed m, s) reads there finalizer = (b, there, finalizer)
  IsHeld-got b obs (given latest, s) reads there finalizer =
      let same = some-inj (sym reads ∙ there) in
      rw same (
        rw (replied-state _) (
          IsHeld-update b (patched_status obs b.generation (self.client.now s) b.status) s there
            finalizer))

  -- Writing the status keeps a stored binding with its finalizer.
  pub IsHeld-patch :
      (b : WorkloadIdentityBinding) (obs : BindingObserved) (s : self.client.State)
      → (L.view s).binding_at b.namespace b.name ≡ some b
      → self.client.contains_finalizer b.finalizers binding_finalizer_name ≡ true
      → IsHeld b.namespace b.name (L.view (patch_status self.client b obs s).1)
  unfolding patch_status
  IsHeld-patch b obs s there finalizer =
      let keeps = L.get_binding_keeps b.namespace b.name s in
      IsHeld-got b obs (self.client.get_binding b.namespace b.name s)
        (rw keeps (L.get_binding_reads b.namespace b.name s)) (rw keeps there) finalizer
