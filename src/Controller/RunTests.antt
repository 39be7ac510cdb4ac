-- ===== src/Controller/RunTests.antt =====
-- Runs of the reconcilers on the in-memory API server and the in-memory IAM service.
use thalassa_workload_identi.Common.{
  ◌≡◌, refl, sym, ap, true, false, none, some, List, [], ◌∷◌, pos,
}
use thalassa_workload_identi.Text.Eq.{is_empty, Text, codes, text_eq, text_eq_refl}
use thalassa_workload_identi.Text.Trim.{trim_space}
use thalassa_workload_identi.Dict.{get, lookup}
use thalassa_workload_identi.Errors.{ok, is_provider_not_ready}
use thalassa_workload_identi.Config.{Config}
use thalassa_workload_identi.Api.{WorkloadIdentityBinding, WorkloadIdentityBindingStatus}
use thalassa_workload_identi.Kube.{ServiceAccount}
use thalassa_workload_identi.Kube.Memory
use thalassa_workload_identi.Kube.Memory.{kube_memory, kube_memory-IsLawful, kube_memory-IsUp}
use thalassa_workload_identi.Iam.Memory.{memory_client}
use thalassa_workload_identi.Iam.Memory.Laws.{memory_client-IsLawful}
use thalassa_workload_identi.Api.Rules.{admitted}
use thalassa_workload_identi.Wif.Ensure.{EnsureResult}
use thalassa_workload_identi.Wif.Spec.{IsProvisioned}
use thalassa_workload_identi.Wif.Keys.{binding_finalizer_name}
use thalassa_workload_identi.Wif.Scopes.{
  parse_scope_list, parse_scopes_from, or_open_id, known_scope,
}
use thalassa_workload_identi.Wif.Tests.{
  constants, cluster, store, empty_store, input, result, provisioned, run, subject_kept,
  result-service_account_id,
}
use thalassa_workload_identi.Controller.ConfigMap.{
  identity_config_map_data, validate_identity_config_map_data,
}
use thalassa_workload_identi.Controller.Cleanup.{
  validate_desired, delete_cloud_resources-no_provider,
}
use thalassa_workload_identi.Controller.System.{
  Reconciler, System, Reconciled, done, again, contains, outside_watch,
}
use thalassa_workload_identi.Controller.Tests.{no_provider_in_view}
use thalassa_workload_identi.Controller.Binding.{input_of, ready_of, reconcile_binding}
use thalassa_workload_identi.Controller.Binding.Ready.{is_ready}
use thalassa_workload_identi.Controller.Binding.Stored.{bindings}
use thalassa_workload_identi.Controller.Binding.Effects.{IamEffect, reconcile_binding-IamEffect}
use thalassa_workload_identi.Controller.Binding.Outcomes.{
  IsOutcome, reconcile_binding-IsOutcome, reconcile_binding-IsProvisioned,
}
use thalassa_workload_identi.Controller.Binding.Live.{IsProvisionable, annotated, provision_up}
use thalassa_workload_identi.Controller.BindingController.Admitted.{validate_desired-admitted}
use thalassa_workload_identi.Controller.BindingController.Held.{some-inj}
use thalassa_workload_identi.Controller.BindingController.Reach.{
  Asks, pass, here, HeldOrClean, Reach-HeldOrClean,
}
use thalassa_workload_identi.Controller.BindingController.Live.{IsReadyEnd}
use thalassa_workload_identi.Controller.BindingController.Gone.{cleanup, reconcile-lets_go}
use thalassa_workload_identi.Controller.BindingController.Stable.{reconcile-stable}
use thalassa_workload_identi.Controller.BindingController.{desired_of, reconcile}
use thalassa_workload_identi.Controller.BindingController.Patch.{IsReadyStatus, patched}
use thalassa_workload_identi.Controller.BindingController.Progress.{reconcile-reaches_ready}

abbrev pub config : Config
config = record {
  thalassa_url = codes "https://api.example";
  organisation_id = codes "org";
  project_identity = [];
  cluster_identity = cluster;
  controller_service_account = codes "sa";
  subject_token_file = codes "/token";
  trusted_audiences = input.trusted_audiences;
  watch_namespaces = codes "prod" ∷ [];
  allowed_policies = input.allowed_policies;
  allowed_roles = [];
  probe_addr = [];
  metrics_addr = [];
  enable_leader_election = true;
  requeue_missing_idp = pos 30;
  enable_service_account_annotations = true;
  enable_identity_config_map = true;
  enable_controllers = true;
  enable_pod_mutator = false;
  webhook_cert_dir = [];
  webhook_port = pos 0;
  webhook_audience = [];
}

abbrev pub reconciler : Reconciler
reconciler = record {
  client = kube_memory;
  has_scheme = true;
  iam = memory_client;
  config = config;
  constants = constants;
  quote = λ s. s;
}

abbrev pub no_status : WorkloadIdentityBindingStatus
no_status = record {
  phase = [];
  service_account_id = [];
  federated_identity_id = [];
  provider_id = [];
  policy_id = [];
  organisation_id = [];
  project_id = [];
  observed_generation = 0;
  last_reconcile_time = none;
  conditions = [];
}

abbrev pub binding : WorkloadIdentityBinding
binding = record {
  namespace = input.namespace;
  name = codes "api-binding";
  generation = 1;
  finalizers = [];
  deleting = false;
  service_account_name = input.service_account;
  policy_ref = input.policy_ref;
  role_ref = input.role_ref;
  scopes = input.scopes;
  name_override = [];
  delete_resources = true;
  identity_config_map = false;
  status = no_status;
}

abbrev pub account : ServiceAccount
account = record {
  namespace = input.namespace;
  name = input.service_account;
  annotations = [];
  finalizers = [];
  deleting = false;
}

-- A cluster with the account and one binding.
abbrev pub with_binding : WorkloadIdentityBinding → Memory.Store
with_binding b = record {
  cluster = record { account_at = λ _ _. some account; binding_at = λ _ _. some b };
  config_map_at = λ _ _. none;
}

abbrev pub start : System reconciler
start = (with_binding binding, store)

is_valid : validate_desired (desired_of binding) ≡ ok tt
unfolding validate_desired desired_of trim_space text_eq
is_valid = refl

is_watched : outside_watch config binding.namespace ≡ false
unfolding contains text_eq
is_watched = refl

is_scoped : parse_scope_list constants binding.scopes ≡ ok input.scopes
unfolding parse_scope_list parse_scopes_from or_open_id known_scope trim_space text_eq
is_scoped = refl

is_identified :
    validate_identity_config_map_data (
      identity_config_map_data
        (trim_space config.organisation_id)
        result.service_account_id
        (trim_space config.project_identity))
    ≡ ok tt
unfolding validate_identity_config_map_data trim_space get lookup text_eq
is_identified = rw result-service_account_id

has_account : is_empty result.service_account_id ≡ false
has_account = rw result-service_account_id

provisionable :
    IsProvisionable reconciler kube_memory-IsLawful kube_memory-IsUp binding
      (desired_of binding)
      result
      start
      provisioned
unfolding desired_of
provisionable = record {
  valid = is_valid;
  watched = is_watched;
  scopes = input.scopes;
  scoped = is_scoped;
  account = account;
  namespace = refl;
  name = refl;
  live = refl;
  there = refl;
  ensured = run;
  synced = λ _. (is_identified, (refl, refl));
}

reconcile-reaches_ready_example :
    (let first = reconcile reconciler binding.namespace binding.name start in
      let second = reconcile reconciler binding.namespace binding.name first.1 in
      (first.0 ≡ (again, none))
      × (second.0 ≡ (done, none))
      × (second.1.1 ≡ provisioned)
      × ((b' : WorkloadIdentityBinding) × ((kube_memory-IsLawful.view second.1.0).binding_at
              binding.namespace binding.name
            ≡ some b')
          × (kube_memory.contains_finalizer b'.finalizers binding_finalizer_name ≡ true)
          × IsReadyStatus reconciler kube_memory-IsLawful kube_memory-IsUp result b'.status))
reconcile-reaches_ready_example =
    reconcile-reaches_ready reconciler kube_memory-IsLawful kube_memory-IsUp binding result start
      provisioned provisionable has_account refl refl refl

-- The binding once it has the finalizer, and the cluster with it.
abbrev held : WorkloadIdentityBinding
held = record binding { finalizers = binding_finalizer_name ∷ [] }

abbrev held_start : System reconciler
held_start = (with_binding held, store)

provisionable_held :
    IsProvisionable reconciler kube_memory-IsLawful kube_memory-IsUp held
      (desired_of held)
      result
      held_start
      provisioned
unfolding desired_of
provisionable_held = record {
  valid = is_valid;
  watched = is_watched;
  scopes = input.scopes;
  scoped = is_scoped;
  account = account;
  namespace = refl;
  name = refl;
  live = refl;
  there = refl;
  ensured = run;
  synced = λ _. (is_identified, (refl, refl));
}

has_held : kube_memory.contains_finalizer held.finalizers binding_finalizer_name ≡ true
has_held = rw (text_eq_refl binding_finalizer_name)

reports_ready :
    is_ready (reconcile_binding reconciler held (desired_of held) true held_start).0.observed ≡ true
unfolding reconcile_binding
reports_ready =
    ap (λ (r : Reconciled). is_ready r.observed)
      (provision_up reconciler kube_memory-IsLawful kube_memory-IsUp held (desired_of held) result
        held_start provisioned provisionable_held).0

reconcile_binding-IsProvisioned_example :
    (let y = reconcile_binding reconciler held (desired_of held) true held_start in
      (scopes : List Text) × (r : EnsureResult) × (y.0.observed ≡ some (ready_of config r))
      × IsProvisioned constants
          (input_of config (desired_of held) scopes)
          r
          (memory_client-IsLawful.view y.1.1))
reconcile_binding-IsProvisioned_example =
    reconcile_binding-IsProvisioned reconciler memory_client-IsLawful held (desired_of held) true
      held_start (λ scopes. subject_kept (input_of config (desired_of held) scopes)) reports_ready

reconcile_binding-IsOutcome_example :
    IsOutcome reconciler (reconcile_binding reconciler held (desired_of held) true held_start).0
reconcile_binding-IsOutcome_example =
    reconcile_binding-IsOutcome reconciler held (desired_of held) true held_start

reconcile_binding-IamEffect_example :
    IamEffect reconciler held
      (desired_of held)
      true
      store
      (reconcile_binding reconciler held (desired_of held) true held_start).1.1
reconcile_binding-IamEffect_example =
    reconcile_binding-IamEffect reconciler held (desired_of held) true held_start

asks : Asks reconciler kube_memory-IsLawful binding.namespace binding.name (λ _ _. some binding)
asks b there =
    let same = some-inj there in
    (
      ap (λ (x : WorkloadIdentityBinding). x.namespace) (sym same),
      ap (λ (x : WorkloadIdentityBinding). x.name) (sym same),
      ap (λ (x : WorkloadIdentityBinding). x.delete_resources) (sym same),
    )

abbrev after_pass : System reconciler
after_pass = (reconcile reconciler binding.namespace binding.name start).1

Reach-HeldOrClean_example :
    HeldOrClean reconciler kube_memory-IsLawful binding.namespace binding.name start after_pass
Reach-HeldOrClean_example =
    Reach-HeldOrClean reconciler kube_memory-IsLawful binding.namespace binding.name start
      after_pass (pass here asks)

reconcile-stable_example :
    (let first = reconcile reconciler held.namespace held.name held_start in
      let second = reconcile reconciler held.namespace held.name first.1 in
      (second.0 ≡ (done, none))
      × (second.1.1 ≡ first.1.1)
      × ((before : IsReadyEnd reconciler kube_memory-IsLawful kube_memory-IsUp held account result
            provisioned first)
          × IsReadyEnd reconciler kube_memory-IsLawful kube_memory-IsUp
              (patched reconciler kube_memory-IsLawful kube_memory-IsUp held
                (ready_of config result)
                before.time)
              (annotated reconciler kube_memory-IsLawful kube_memory-IsUp account result)
              result
              provisioned
              second))
unfolding provisionable_held
reconcile-stable_example =
    reconcile-stable reconciler kube_memory-IsLawful kube_memory-IsUp memory_client-IsLawful held
      result held_start provisioned provisionable_held (subject_kept input) refl has_held refl

abbrev going : WorkloadIdentityBinding
going = record held { deleting = true }

-- The provider is gone, so nothing is left to delete.
is_clean :
    cleanup reconciler kube_memory-IsLawful kube_memory-IsUp (desired_of going) empty_store
    ≡ (ok tt, empty_store)
unfolding desired_of is_provider_not_ready
is_clean =
    delete_cloud_resources-no_provider memory_client memory_client-IsLawful cluster
      (desired_of going) empty_store no_provider_in_view

last_finalizer : kube_memory.remove_finalizer going.finalizers binding_finalizer_name ≡ []
last_finalizer = rw (text_eq_refl binding_finalizer_name)

reconcile-lets_go_example :
    (let y = reconcile reconciler going.namespace going.name (with_binding going, empty_store) in
      (y.0 ≡ (done, none))
      × (y.1.1 ≡ empty_store)
      × (bindings kube_memory kube_memory-IsLawful y.1.0 going.namespace going.name ≡ none))
reconcile-lets_go_example =
    reconcile-lets_go reconciler kube_memory-IsLawful kube_memory-IsUp going
      (with_binding going, empty_store) empty_store refl has_held last_finalizer is_watched
      (refl, refl) refl is_clean

validate_desired-admitted_example : admitted binding ≡ true
validate_desired-admitted_example =
    validate_desired-admitted constants binding input.scopes is_valid is_scoped
