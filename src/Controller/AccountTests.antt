-- ===== src/Controller/AccountTests.antt =====
-- Runs of the ServiceAccount controller on single inputs.
use thalassa_workload_identi.Iam.Memory.{memory_client}
use thalassa_workload_identi.Wif.Scopes.{
  parse_scopes, parse_scope_list, parse_scopes_from, or_open_id, known_scope,
}
use thalassa_workload_identi.Wif.Ensure.{is_wildcard}
use thalassa_workload_identi.Controller.AccountController.Live.{
  IsWanted, EndsReady, reconcile-makes_ready,
}
use thalassa_workload_identi.Common.{
  sym, ap, [], false, length, none, refl, some, true, ◌∷◌, ◌≡◌, ◌≤◌, ◌∙◌,
}
use thalassa_workload_identi.Text.Eq.{codes, contains_byte, cut, text_eq, text_eq_refl}
use thalassa_workload_identi.Dict.{get, lookup}
use thalassa_workload_identi.Errors.{ok}
use thalassa_workload_identi.Kube.{ServiceAccount}
use thalassa_workload_identi.Wif.Keys.{
  annotation_delete_resources, annotation_enabled, annotation_last_error, annotation_policy,
  annotation_role, annotation_status, finalizer_name, status_error,
}
use thalassa_workload_identi.Wif.Labels.{
  delete_resources, labels_match, ownership_labels, is_enabled,
}
use thalassa_workload_identi.Text.Fold.{equal_fold, fold_case, lower, to_lower}
use thalassa_workload_identi.Text.Trim.{trim_space, trim_suffix}
use thalassa_workload_identi.Kube.Memory.{kube_memory-IsLawful, kube_memory-IsUp}
use thalassa_workload_identi.Controller.System.{System, contains, outside_watch}
use thalassa_workload_identi.Wif.Tests.{provider, store, input, result, provisioned, run}
use thalassa_workload_identi.Controller.RunTests.{reconciler, start}
use thalassa_workload_identi.Wif.DeletionTests.{labelled, unbound}
use thalassa_workload_identi.Controller.AccountController.{
  delete_cloud_resources, reconcile, reconcile_found, input_of,
}
use thalassa_workload_identi.Controller.AccountController.Held.{some-inj}
use thalassa_workload_identi.Controller.AccountController.Reach.{
  Asks, pass, here, KeepsOrClean, Reach-KeepsOrClean,
}
use thalassa_workload_identi.Controller.AccountController.Gone.{
  EndsGone, cleanup, reconcile-lets_account_go,
}
use thalassa_workload_identi.Controller.AccountController.Effects.{
  IamEffect, reconcile_found-IamEffect,
}
use thalassa_workload_identi.Controller.AccountController.Status.{patched_annotations}
use thalassa_workload_identi.Controller.AccountController.Status.Laws.{
  IsOther, owned_keys, patched_annotations-other, patched_annotations_lem,
}
use thalassa_workload_identi.Sha256.{hex_digit, hex_encode, sum256}
use thalassa_workload_identi.Wif.Subject.{
  build_kubernetes_subject, normalize_issuer, resource_key, resource_key_input,
}
use thalassa_workload_identi.Wif.Find.{
  find_by_labels_fi, find_by_labels_sa, find_provider_by_cluster_id, first_labelled, first_role,
  resolve_iam_policy, resolve_organisation_role, scan_policies, scan_providers,
}
use thalassa_workload_identi.Wif.Bindings.{
  delete_each, delete_policy_binding_for_sa, delete_role_binding_for_sa,
}
use thalassa_workload_identi.Wif.Workload.{
  delete_found_fi, delete_found_sa, delete_policy_bindings, delete_role_bindings,
  delete_workload_identity, ensure_workload_identity,
}

abbrev account : ServiceAccount
account = record {
  namespace = codes "prod";
  name = codes "api";
  annotations = (annotation_enabled, codes "true") ∷ (annotation_role, codes "reader") ∷ [];
  finalizers = finalizer_name ∷ [];
  deleting = false;
}

reconcile_found-IamEffect_example :
    IamEffect reconciler account store (reconcile_found reconciler account start).1.1
reconcile_found-IamEffect_example = reconcile_found-IamEffect reconciler account start

role-IsOther : IsOther annotation_role owned_keys
unfolding text_eq
role-IsOther = (refl, (refl, (refl, (refl, (refl, (refl, (refl, tt)))))))

patched_annotations-other_example :
    lookup annotation_role
      (patched_annotations (codes "now") status_error (codes "broken") none account.annotations)
    ≡ lookup annotation_role account.annotations
patched_annotations-other_example =
    patched_annotations-other (codes "now") status_error (codes "broken") none annotation_role
      account.annotations role-IsOther

patched_annotations_lem_example :
    (let written =
        patched_annotations (codes "now") status_error (codes "broken") none account.annotations in
      (get annotation_status written ≡ status_error)
      × (get annotation_last_error written ≡ cut 1024 (codes "broken"))
      × (length (get annotation_last_error written) ≤ 1024))
patched_annotations_lem_example =
    patched_annotations_lem (codes "now") status_error (codes "broken") none account.annotations

abbrev leaving : ServiceAccount
leaving = record account {
  annotations = (annotation_delete_resources, codes "true") ∷ account.annotations;
  deleting = true;
}

leaving_watched : outside_watch reconciler.config leaving.namespace ≡ false
unfolding contains text_eq
leaving_watched = refl

leaving_finalizer : reconciler.client.contains_finalizer leaving.finalizers finalizer_name ≡ true
leaving_finalizer = rw (text_eq_refl finalizer_name)

abbrev bound_account : ServiceAccount
bound_account = record leaving {
  annotations =
      (annotation_delete_resources, codes "true") ∷ (annotation_policy, codes "write") ∷ [];
}

abbrev bound_start : System reconciler
bound_start = (
  record {
    cluster = record { account_at = λ _ _. some bound_account; binding_at = λ _ _. none };
    config_map_at = λ _ _. none;
  },
  record labelled { providers = provider ∷ [] },
)

-- The policy is unbound and the account is deleted.
bound_cleanup :
    cleanup reconciler kube_memory-IsLawful kube_memory-IsUp bound_account bound_start.1
    ≡ (ok tt, record unbound { providers = provider ∷ [] })
unfolding delete_resources delete_cloud_resources delete_workload_identity delete_found_fi
    delete_found_sa delete_policy_bindings delete_role_bindings delete_policy_binding_for_sa
    delete_role_binding_for_sa delete_each labels_match ownership_labels get lookup text_eq
    contains_byte cut trim_space trim_suffix lower to_lower fold_case equal_fold hex_digit
    hex_encode sum256 build_kubernetes_subject normalize_issuer resource_key_input resource_key
    first_labelled find_by_labels_sa find_by_labels_fi first_role resolve_organisation_role
    scan_policies resolve_iam_policy find_provider_by_cluster_id scan_providers
bound_cleanup = refl

bound_last : reconciler.client.remove_finalizer bound_account.finalizers finalizer_name ≡ []
bound_last = rw (text_eq_refl finalizer_name)

reconcile-lets_account_go_example :
    EndsGone reconciler kube_memory-IsLawful kube_memory-IsUp bound_account
      (record unbound { providers = provider ∷ [] })
      (reconcile reconciler bound_account.namespace bound_account.name bound_start)
reconcile-lets_account_go_example =
    reconcile-lets_account_go reconciler kube_memory-IsLawful kube_memory-IsUp bound_account
      bound_start (record unbound { providers = provider ∷ [] }) refl leaving_finalizer bound_last
      leaving_watched refl bound_cleanup

asking :
    Asks reconciler kube_memory-IsLawful bound_account.namespace bound_account.name
      (λ _ _. some bound_account)
unfolding delete_resources get lookup text_eq equal_fold fold_case lower trim_space
asking a there =
    let same = some-inj there in
    (
      ap (λ (x : ServiceAccount). x.namespace) (sym same),
      ap (λ (x : ServiceAccount). x.name) (sym same),
      ap (λ (x : ServiceAccount). delete_resources x.annotations) (sym same),
    )

abbrev after_pass : System reconciler
after_pass = (reconcile reconciler bound_account.namespace bound_account.name bound_start).1

Reach-KeepsOrClean_example :
    KeepsOrClean reconciler kube_memory-IsLawful bound_account.namespace bound_account.name
      bound_start after_pass
Reach-KeepsOrClean_example =
    Reach-KeepsOrClean reconciler kube_memory-IsLawful bound_account.namespace bound_account.name
      bound_start after_pass (pass here asking)

abbrev annotated_account : ServiceAccount
annotated_account = record account {
  annotations =
      (annotation_enabled, codes "true")
      ∷ (annotation_role, codes "reader")
      ∷ (annotation_policy, codes "POL-1")
      ∷ [];
}

abbrev annotated_start : System reconciler
annotated_start = (
  record {
    cluster = record { account_at = λ _ _. some annotated_account; binding_at = λ _ _. none };
    config_map_at = λ _ _. none;
  },
  store,
)

annotated : IsWanted reconciler kube_memory-IsLawful kube_memory-IsUp annotated_account input.scopes
unfolding get lookup text_eq trim_space is_enabled equal_fold fold_case lower parse_scopes
    parse_scope_list parse_scopes_from or_open_id known_scope contains is_wildcard
annotated = (refl, refl, refl, refl, refl, refl, refl)

same_input : input_of reconciler.config annotated_account input.scopes ≡ input
unfolding get lookup text_eq trim_space
same_input = refl

reconcile-makes_ready_example :
    EndsReady reconciler kube_memory-IsLawful kube_memory-IsUp annotated_account provisioned
      (reconcile reconciler annotated_account.namespace annotated_account.name annotated_start)
reconcile-makes_ready_example =
    reconcile-makes_ready reconciler kube_memory-IsLawful kube_memory-IsUp annotated_account
      input.scopes result annotated_start provisioned annotated refl
      (ap (λ x. ensure_workload_identity reconciler.constants memory_client x store) same_input
        ∙ run)
