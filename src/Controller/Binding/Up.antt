-- ===== src/Controller/Binding/Up.antt =====
-- Where the API server answers, the calls of `reconcileBinding` succeed.
use thalassa_workload_identi.Common.{◌≡◌, refl, ap, ◌∙◌, Bool, true, false, Option, some, none}
use thalassa_workload_identi.Text.Eq.{Text, text_eq_refl}
use thalassa_workload_identi.Dict.{Dict}
use thalassa_workload_identi.Errors.{ok}
use thalassa_workload_identi.Api.{WorkloadIdentityBinding}
use thalassa_workload_identi.Kube.{
  ServiceAccount, ConfigMap, Response, given, missing, failed, KubeClient, replied,
}
use thalassa_workload_identi.Kube.Laws.{Cluster, Answers, Writes, or_new, Ownable, IsLawful, IsUp}
use thalassa_workload_identi.Iam.Monad.{after}
use thalassa_workload_identi.Controller.Annotations.{annotate_service_account_identity}
use thalassa_workload_identi.Controller.ConfigMap.{
  identity_config_map_name, identity_config_map_data, validate_identity_config_map_data,
}
use thalassa_workload_identi.Controller.Cleanup.{BindingDesired}
use thalassa_workload_identi.Controller.Binding.Calls.{
  fill_config_map, mutate_config_map, sync_identity_config_map, annotate_service_account,
  update_annotations,
}
use thalassa_workload_identi.Controller.Binding.Stored.{replied-state}

pub given-inj : {A : Type 0} {a b : A} → ◌≡◌ {A = Response A} (given a) (given b) → a ≡ b
given-inj e = cc

pub answered :
    {A : Type 0} {o : Option A} {r : Response A} {a : A} → Answers o r → o ≡ some a → r ≡ given a
answered {o = some b} up e = cc
answered {o = none} up e = cc

pub written :
    {V : Type 0} (r : Response (Unit {0})) (old new after : V)
    → r ≡ given tt
    → Writes r old new after
    → after ≡ new
written (given _) old new after e w = w
written (missing m) old new after e w = cc
written (failed m) old new after e w = cc

module _ (k : KubeClient) (L : IsLawful k) (U : IsUp k L) where
  mutate_config_map_up :
      (has_scheme : Bool) (owner : WorkloadIdentityBinding) (d : BindingDesired) (entries : Dict)
      (cm : ConfigMap)
      → Ownable owner cm
      → (new : ConfigMap) × (mutate_config_map k has_scheme owner d entries cm ≡ given new)
        × (new.namespace ≡ cm.namespace)
        × (new.name ≡ cm.name)
        × Ownable owner new
  unfolding mutate_config_map
  mutate_config_map_up true owner d entries cm free =
      let (new, e, namespace, name, owned) = U.set_controller_reference_up owner cm free in
      (fill_config_map d entries new, rw e, namespace, name, owned)
  mutate_config_map_up false owner d entries cm free =
      (fill_config_map d entries cm, refl, refl, refl, free)

  -- The binding may control the identity config map of a service account, as it is stored or, where it
  -- is not, as it will be.
  abbrev pub Fits : WorkloadIdentityBinding → BindingDesired → k.State → Type 0
  Fits owner d s =
      let name = identity_config_map_name d.service_account in
      Ownable owner (or_new d.namespace name (L.config_map_at s d.namespace name))

  pub replied_up : (x : Response (Unit {0}) × k.State) → x.0 ≡ given tt → (replied x).0 ≡ ok tt
  replied_up x e = rw e

  pub updated_up :
      (sa : ServiceAccount) (annotations : Dict) (s : k.State)
      → sa.deleting ≡ false
      → (L.view s).account_at sa.namespace sa.name ≡ some sa
      → ((update_annotations k sa annotations s).0 ≡ ok tt)
        × ((L.view (update_annotations k sa annotations s).1).account_at sa.namespace sa.name
            ≡ some (record sa { annotations = annotations }))
  updated_up sa annotations s live there =
      let up = U.update_service_account_up sa annotations sa.finalizers s there in
      let new = record sa { annotations = annotations } in
      (
        replied_up (k.update_service_account new s) up,
        rw (replied-state (k.update_service_account new s)) (
            ap (λ (v : Cluster). v.account_at sa.namespace sa.name)
              (written (k.update_service_account new s).0 (L.view s) _ _ up
                (L.update_service_account_writes sa annotations sa.finalizers s there))
            ∙ simp (text_eq_refl sa.namespace, text_eq_refl sa.name, live)),
      )

  got_up :
      (sa : ServiceAccount) (f : Dict → Dict) (x : Response ServiceAccount × k.State)
      → sa.deleting ≡ false
      → x.0 ≡ given sa
      → (L.view x.1).account_at sa.namespace sa.name ≡ some sa
      → (let y = after (replied x) (λ latest. update_annotations k latest (f latest.annotations)) in
          (y.0 ≡ ok tt)
          × ((L.view y.1).account_at sa.namespace sa.name
              ≡ some (record sa { annotations = f sa.annotations })))
  got_up sa f (given latest, s) live e there =
      rw (given-inj e) (updated_up sa (f sa.annotations) s live there)
  got_up sa f (missing m, s) live e there = cc
  got_up sa f (failed m, s) live e there = cc

  pub sync_identity_config_map_up :
      (has_scheme : Bool) (owner : WorkloadIdentityBinding) (d : BindingDesired)
      (account organisation project : Text) (s : k.State)
      → validate_identity_config_map_data (identity_config_map_data organisation account project)
        ≡ ok tt
      → Fits owner d s
      → (let y = sync_identity_config_map k has_scheme owner d account organisation project s in
          (y.0 ≡ ok tt) × Fits owner d y.1)
  unfolding sync_identity_config_map
  sync_identity_config_map_up has_scheme owner d account organisation project s valid free =
      let name = identity_config_map_name d.service_account in
      let mutate =
        mutate_config_map k has_scheme owner d
          (identity_config_map_data organisation account project) in
      let (new, e, namespace, same, owned) = mutate_config_map_up has_scheme owner d _ _ free in
      let write = k.create_or_update_config_map d.namespace name mutate s in
      let up =
        U.create_or_update_config_map_up d.namespace name mutate s (new, e, namespace, same) in
      rw valid (
        replied_up write up,
        rw (replied-state write)
            (rw (L.create_or_update_config_map_writes d.namespace name mutate s new up e) owned),
      )

  -- Annotating a stored account succeeds, and leaves the annotations in the cluster.
  pub annotate_service_account_up :
      (sa : ServiceAccount) (account organisation project : Text) (s : k.State)
      → sa.deleting ≡ false
      → (L.view s).account_at sa.namespace sa.name ≡ some sa
      → (let y = annotate_service_account k sa account organisation project s in
          (y.0 ≡ ok tt)
          × ((L.view y.1).account_at sa.namespace sa.name
              ≡ some (record sa {
                annotations =
                    annotate_service_account_identity account organisation project sa.annotations;
              })))
  unfolding annotate_service_account
  annotate_service_account_up sa account organisation project s live there =
      got_up sa (annotate_service_account_identity account organisation project)
        (k.get_service_account sa.namespace sa.name s) live
        (answered (U.get_service_account_up sa.namespace sa.name s) there)
        (rw (L.get_service_account_keeps sa.namespace sa.name s) there)
