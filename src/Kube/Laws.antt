-- ===== src/Kube/Laws.antt =====
-- What is relied on of the Kubernetes API and of controllerutil: reads answer from a view of the
-- state and leave it alone, an update that succeeds is what is read afterwards, one that fails may
-- still have been carried out, and an object that is being deleted goes with its last finalizer.
use thalassa_workload_identi.Common.{
  ◌≡◌, ◌⊎◌, Bool, true, false, ◌&&◌, Option, none, some, List, [], is_nil, all, not, ◌||◌,
  if◌then◌else◌,
}
use thalassa_workload_identi.Text.Eq.{Text, text_eq, codes}
use thalassa_workload_identi.Dict.{Dict}
use thalassa_workload_identi.Api.{WorkloadIdentityBinding, WorkloadIdentityBindingStatus}
use thalassa_workload_identi.Kube.{
  ServiceAccount, ConfigMap, OwnerReference, Response, given, missing, failed, KubeClient,
}

-- What is stored, by namespace and name.
pub record Cluster : Type 0 where
  pub account_at : Text → Text → Option ServiceAccount
  pub binding_at : Text → Text → Option WorkloadIdentityBinding

abbrev pub put :
    {A : Type 0} → Text → Text → Option A → (Text → Text → Option A) → Text → Text → Option A
put namespace name o at ns n = if text_eq ns namespace && text_eq n name then o else at ns n

-- What is left of a binding or an account once its finalizers are written.
abbrev pub remaining_binding : WorkloadIdentityBinding → Option WorkloadIdentityBinding
remaining_binding b = if b.deleting && is_nil b.finalizers then none else some b

abbrev pub remaining_account : ServiceAccount → Option ServiceAccount
remaining_account a = if a.deleting && is_nil a.finalizers then none else some a

abbrev pub Reads : {A : Type 0} → Option A → Response A → Type 0
Reads o (given a) = o ≡ some a
Reads o (missing m) = o ≡ none
Reads o (failed m) = Unit

abbrev pub Answers : {A : Type 0} → Option A → Response A → Type 0
Answers (some a) r = r ≡ given a
Answers none r = (m : Text) × (r ≡ missing m)

abbrev pub Writes : {A V : Type 0} → Response A → V → V → V → Type 0
Writes (given a) old new after = after ≡ new
Writes (missing m) old new after = (after ≡ old) ⊎ (after ≡ new)
Writes (failed m) old new after = (after ≡ old) ⊎ (after ≡ new)

abbrev pub put_binding :
    WorkloadIdentityBinding → Option WorkloadIdentityBinding → Cluster → Cluster
put_binding b o v = record v { binding_at = put b.namespace b.name o v.binding_at }

abbrev pub put_account : ServiceAccount → Option ServiceAccount → Cluster → Cluster
put_account a o v = record v { account_at = put a.namespace a.name o v.account_at }

-- What an update of a config map starts from: the stored one, or one with only its name.
abbrev pub or_new : Text → Text → Option ConfigMap → ConfigMap
or_new ns n none = record {
  namespace = ns;
  name = n;
  labels = [];
  owner_references = [];
  entries = [];
}
or_new ns n (some cm) = cm

-- The reference is to the binding.
abbrev pub is_reference : WorkloadIdentityBinding → OwnerReference → Bool
is_reference b r = text_eq r.kind (codes "WorkloadIdentityBinding") && text_eq r.name b.name

-- A config map that a binding may control: in its namespace, and not controlled by another object.
abbrev pub Ownable : WorkloadIdentityBinding → ConfigMap → Type 0
Ownable b cm =
    (cm.namespace ≡ b.namespace)
    × (all (λ (r : OwnerReference). not r.controller || is_reference b r) cm.owner_references
        ≡ true)

pub record IsLawful (k : KubeClient) : Type 0 where
  pub view : k.State → Cluster
  pub get_service_account_reads :
      (ns n : Text) (s : k.State)
      → Reads ((view s).account_at ns n) (k.get_service_account ns n s).0
  pub get_service_account_keeps :
      (ns n : Text) (s : k.State) → view (k.get_service_account ns n s).1 ≡ view s
  pub get_binding_reads :
      (ns n : Text) (s : k.State) → Reads ((view s).binding_at ns n) (k.get_binding ns n s).0
  pub get_binding_keeps : (ns n : Text) (s : k.State) → view (k.get_binding ns n s).1 ≡ view s
  -- An update of the annotations and finalizers of a stored account.
  pub update_service_account_writes :
      (a : ServiceAccount) (annotations : Dict) (finalizers : List Text) (s : k.State)
      → (view s).account_at a.namespace a.name ≡ some a
      → (let new = record a { annotations = annotations; finalizers = finalizers } in
          Writes
            (k.update_service_account new s).0
            (view s)
            (put_account new (remaining_account new) (view s))
            (view (k.update_service_account new s).1))
  pub update_service_account_bindings :
      (a : ServiceAccount) (s : k.State)
      → (view (k.update_service_account a s).1).binding_at ≡ (view s).binding_at
  -- An update of the finalizers of a stored binding, and one of its status.
  pub update_binding_writes :
      (b : WorkloadIdentityBinding) (finalizers : List Text) (s : k.State)
      → (view s).binding_at b.namespace b.name ≡ some b
      → (let new = record b { finalizers = finalizers } in
          Writes
            (k.update_binding new s).0
            (view s)
            (put_binding new (remaining_binding new) (view s))
            (view (k.update_binding new s).1))
  pub update_binding_status_writes :
      (b : WorkloadIdentityBinding) (status : WorkloadIdentityBindingStatus) (s : k.State)
      → (view s).binding_at b.namespace b.name ≡ some b
      → (let new = record b { status = status } in
          Writes
            (k.update_binding_status new s).0
            (view s)
            (put_binding new (some new) (view s))
            (view (k.update_binding_status new s).1))
  pub create_or_update_config_map_keeps :
      (ns n : Text) (mutate : ConfigMap → Response ConfigMap) (s : k.State)
      → view (k.create_or_update_config_map ns n mutate s).1 ≡ view s
  -- The stored config maps: only their own update changes them, and one that succeeds stores what the
  -- mutation gave.
  pub config_map_at : k.State → Text → Text → Option ConfigMap
  pub get_service_account_maps :
      (ns n : Text) (s : k.State) → config_map_at (k.get_service_account ns n s).1 ≡ config_map_at s
  pub update_service_account_maps :
      (a : ServiceAccount) (s : k.State)
      → config_map_at (k.update_service_account a s).1 ≡ config_map_at s
  pub get_binding_maps :
      (ns n : Text) (s : k.State) → config_map_at (k.get_binding ns n s).1 ≡ config_map_at s
  pub update_binding_maps :
      (b : WorkloadIdentityBinding) (s : k.State)
      → config_map_at (k.update_binding b s).1 ≡ config_map_at s
  pub update_binding_status_maps :
      (b : WorkloadIdentityBinding) (s : k.State)
      → config_map_at (k.update_binding_status b s).1 ≡ config_map_at s
  pub create_or_update_config_map_writes :
      (ns n : Text) (mutate : ConfigMap → Response ConfigMap) (s : k.State) (new : ConfigMap)
      → (k.create_or_update_config_map ns n mutate s).0 ≡ given tt
      → mutate (or_new ns n (config_map_at s ns n)) ≡ given new
      → config_map_at (k.create_or_update_config_map ns n mutate s).1 ns n ≡ some new
  pub contains_finalizer_none : (f : Text) → k.contains_finalizer [] f ≡ false
  pub contains_finalizer_added :
      (l : List Text) (f : Text) → k.contains_finalizer (k.add_finalizer l f) f ≡ true
  pub contains_finalizer_removed :
      (l : List Text) (f : Text) → k.contains_finalizer (k.remove_finalizer l f) f ≡ false

-- A service that answers: reads of what is stored and updates of it do not fail, an update of a config
-- map where its mutation gives one of the same name. SetControllerReference, which fails with an
-- AlreadyOwnedError for an object that another one controls, succeeds where the owner may control it.
pub record IsUp (k : KubeClient) (L : IsLawful k) : Type 0 where
  pub get_service_account_up :
      (ns n : Text) (s : k.State)
      → Answers ((L.view s).account_at ns n) (k.get_service_account ns n s).0
  pub get_binding_up :
      (ns n : Text) (s : k.State) {b : WorkloadIdentityBinding}
      → (L.view s).binding_at ns n ≡ some b
      → (k.get_binding ns n s).0 ≡ given b
  pub create_or_update_config_map_up :
      (ns n : Text) (mutate : ConfigMap → Response ConfigMap) (s : k.State)
      → (let old = or_new ns n (L.config_map_at s ns n) in
          (new : ConfigMap) × (mutate old ≡ given new)
          × (new.namespace ≡ old.namespace)
          × (new.name ≡ old.name))
      → (k.create_or_update_config_map ns n mutate s).0 ≡ given tt
  pub set_controller_reference_up :
      (owner : WorkloadIdentityBinding) (cm : ConfigMap)
      → Ownable owner cm
      → (new : ConfigMap) × (k.set_controller_reference owner cm ≡ given new)
        × (new.namespace ≡ cm.namespace)
        × (new.name ≡ cm.name)
        × Ownable owner new
  pub update_service_account_up :
      (a : ServiceAccount) (annotations : Dict) (finalizers : List Text) (s : k.State)
      → (L.view s).account_at a.namespace a.name ≡ some a
      → (let new = record a { annotations = annotations; finalizers = finalizers } in
          (k.update_service_account new s).0 ≡ given tt)
  pub update_binding_up :
      (b : WorkloadIdentityBinding) (finalizers : List Text) (s : k.State)
      → (L.view s).binding_at b.namespace b.name ≡ some b
      → (k.update_binding (record b { finalizers = finalizers }) s).0 ≡ given tt
  pub update_binding_status_up :
      (b : WorkloadIdentityBinding) (status : WorkloadIdentityBindingStatus) (s : k.State)
      → (L.view s).binding_at b.namespace b.name ≡ some b
      → (k.update_binding_status (record b { status = status }) s).0 ≡ given tt
