-- ===== src/Controller/Binding/Stored.antt =====
-- Which calls of `reconcileBinding` leave the stored bindings as they are.
use thalassa_workload_identi.Common.{◌≡◌, refl, ap, ◌∙◌, Bool, Option, inl, inr, Bool-cases}
use thalassa_workload_identi.Text.Eq.{Text}
use thalassa_workload_identi.Dict.{Dict}
use thalassa_workload_identi.Errors.{Result-cases}
use thalassa_workload_identi.Api.{WorkloadIdentityBinding}
use thalassa_workload_identi.Kube.{
  ServiceAccount, Response, given, missing, failed, KubeClient, replied,
}
use thalassa_workload_identi.Kube.Laws.{Cluster, IsLawful}
use thalassa_workload_identi.Iam.Monad.{after}
use thalassa_workload_identi.Controller.Annotations.{
  annotate_service_account_identity, clear_service_account_identity_annotations,
}
use thalassa_workload_identi.Controller.ConfigMap.{
  identity_config_map_name, identity_config_map_data, validate_identity_config_map_data,
}
use thalassa_workload_identi.Controller.Cleanup.{BindingDesired}
use thalassa_workload_identi.Controller.Binding.Calls.{
  sync_identity_config_map, update_annotations, annotate_service_account, cleared,
  clear_service_account,
}

pub replied-state : {A S : Type 0} (x : Response A × S) → (replied x).1 ≡ x.1
replied-state (given a, s) = refl
replied-state (missing m, s) = refl
replied-state (failed m, s) = refl

module _ (k : KubeClient) (L : IsLawful k) where
  abbrev pub Bindings : Type 0
  Bindings = Text → Text → Option WorkloadIdentityBinding

  abbrev pub bindings : k.State → Bindings
  bindings s = (L.view s).binding_at

  update_annotations-bindings :
      (sa : ServiceAccount) (annotations : Dict) (s : k.State)
      → bindings (update_annotations k sa annotations s).1 ≡ bindings s
  update_annotations-bindings sa annotations s =
      rw (replied-state (k.update_service_account (record sa { annotations = annotations }) s))
        (L.update_service_account_bindings (record sa { annotations = annotations }) s)

  cleared-bindings :
      (x : Response ServiceAccount × k.State) → bindings (cleared k x).1 ≡ bindings x.1
  cleared-bindings (missing m, s) = refl
  cleared-bindings (failed m, s) = refl
  cleared-bindings (given sa, s) =
      elim (Bool-cases (clear_service_account_identity_annotations sa.annotations).1) [
        | inl changed ↦ rw changed (update_annotations-bindings sa _ s)
        | inr same ↦ rw same
      ]

  pub clear_service_account-bindings :
      (ns n : Text) (s : k.State) → bindings (clear_service_account k ns n s).1 ≡ bindings s
  unfolding clear_service_account
  clear_service_account-bindings ns n s =
      cleared-bindings (k.get_service_account ns n s)
      ∙ ap (λ (v : Cluster). v.binding_at) (L.get_service_account_keeps ns n s)

  annotated-bindings :
      (x : Response ServiceAccount × k.State) (f : Dict → Dict)
      → bindings
          (after (replied x) (λ latest. update_annotations k latest (f latest.annotations))).1
        ≡ bindings x.1
  annotated-bindings (missing m, s) f = refl
  annotated-bindings (failed m, s) f = refl
  annotated-bindings (given sa, s) f = update_annotations-bindings sa _ s

  pub annotate_service_account-bindings :
      (sa : ServiceAccount) (account organisation project : Text) (s : k.State)
      → bindings (annotate_service_account k sa account organisation project s).1 ≡ bindings s
  unfolding annotate_service_account
  annotate_service_account-bindings sa account organisation project s =
      annotated-bindings (k.get_service_account sa.namespace sa.name s)
        (annotate_service_account_identity account organisation project)
      ∙ ap (λ (v : Cluster). v.binding_at) (L.get_service_account_keeps sa.namespace sa.name s)

  pub sync_identity_config_map-view :
      (has_scheme : Bool) (owner : WorkloadIdentityBinding) (d : BindingDesired)
      (account organisation project : Text) (s : k.State)
      → L.view (sync_identity_config_map k has_scheme owner d account organisation project s).1
        ≡ L.view s
  unfolding sync_identity_config_map
  sync_identity_config_map-view has_scheme owner d account organisation project s =
      elim (Result-cases (
        validate_identity_config_map_data
          (identity_config_map_data organisation account project))) [
            | inl (_, valid) ↦ rw valid (
                rw (replied-state _) (
                  L.create_or_update_config_map_keeps d.namespace
                    (identity_config_map_name d.service_account) _ s))
            | inr (e, invalid) ↦ rw invalid
          ]

  annotated-maps :
      (x : Response ServiceAccount × k.State) (f : Dict → Dict)
      → L.config_map_at
          (after (replied x) (λ latest. update_annotations k latest (f latest.annotations))).1
        ≡ L.config_map_at x.1
  annotated-maps (missing m, s) f = refl
  annotated-maps (failed m, s) f = refl
  annotated-maps (given sa, s) f =
      let new = record sa { annotations = f sa.annotations } in
      rw (replied-state (k.update_service_account new s)) (L.update_service_account_maps new s)

  pub annotate_service_account-maps :
      (sa : ServiceAccount) (account organisation project : Text) (s : k.State)
      → L.config_map_at (annotate_service_account k sa account organisation project s).1
        ≡ L.config_map_at s
  unfolding annotate_service_account
  annotate_service_account-maps sa account organisation project s =
      annotated-maps (k.get_service_account sa.namespace sa.name s)
        (annotate_service_account_identity account organisation project)
      ∙ L.get_service_account_maps sa.namespace sa.name s
