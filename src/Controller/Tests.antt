-- ===== src/Controller/Tests.antt =====
-- Annotations, conditions and cleanup on single inputs.
use thalassa_workload_identi.Common.{◌≡◌, refl, true, false, some, [], ◌∷◌, if◌then◌else◌}
use thalassa_workload_identi.Text.Eq.{codes, text_eq}
use thalassa_workload_identi.Text.Trim.{trim_space}
use thalassa_workload_identi.Dict.{Dict}
use thalassa_workload_identi.Errors.{err, provider_not_ready}
use thalassa_workload_identi.Iam.Memory.Laws.{memory_client-IsLawful, memory_client-view, view_of}
use thalassa_workload_identi.Webhook.Mutate.{complete, identity_from_service_account}
use thalassa_workload_identi.Wif.Find.{scan_providers, one_provider}
use thalassa_workload_identi.Wif.Spec.{provider_in}
use thalassa_workload_identi.Wif.Tests.{cluster, empty_store}
use thalassa_workload_identi.Wif.Keys.{annotation_organisation_id}
use thalassa_workload_identi.Controller.Annotations.{
  annotate_service_account_identity, clear_service_account_identity_annotations,
  annotate-identity_from_service_account, clear-complete,
}
use thalassa_workload_identi.Controller.Conditions.{
  Condition, set_condition, condition_of, transition_time, set_condition_lem, set_condition_idem,
}
use thalassa_workload_identi.Controller.Cleanup.{BindingDesired}

abbrev annotations : Dict
annotations = (annotation_organisation_id, codes "old") ∷ []

annotate-identity_from_service_account_example :
    identity_from_service_account
      (annotate_service_account_identity (codes "sa") (codes " org ") [] annotations)
    ≡ record {
      organisation_id = trim_space (codes " org ");
      service_account_id = trim_space (codes "sa");
      project_id = trim_space [];
    }
annotate-identity_from_service_account_example =
    annotate-identity_from_service_account (codes "sa") (codes " org ") [] annotations

clear-complete_example :
    complete
      (identity_from_service_account (clear_service_account_identity_annotations annotations).0)
    ≡ false
clear-complete_example = clear-complete annotations

abbrev not_ready : Condition
not_ready = record {
  type = codes "Ready";
  status = codes "False";
  reason = codes "ProviderNotReady";
  message = [];
  observed_generation = 1;
  last_transition_time = 10;
}

abbrev is_ready : Condition
is_ready = record not_ready {
  status = codes "True";
  reason = codes "Ready";
  last_transition_time = 20;
}

set_condition_lem_example :
    condition_of (codes "Ready") (set_condition (not_ready ∷ []) is_ready) ≡ (
      if text_eq is_ready.type (codes "Ready")
      then some (record is_ready {
        last_transition_time =
            transition_time (condition_of is_ready.type (not_ready ∷ [])) is_ready;
      })
      else condition_of (codes "Ready") (not_ready ∷ []))
set_condition_lem_example = set_condition_lem (not_ready ∷ []) is_ready (codes "Ready")

set_condition_idem_example :
    set_condition
      (set_condition (not_ready ∷ []) is_ready)
      (record is_ready { last_transition_time = 30 })
    ≡ set_condition (not_ready ∷ []) is_ready
set_condition_idem_example = set_condition_idem (not_ready ∷ []) is_ready 30

abbrev desired : BindingDesired
desired = record {
  namespace = codes "prod";
  service_account = codes "api";
  policy_ref = codes "write";
  policy_id = [];
  role_ref = [];
  scopes = [];
  name_override = [];
  delete_resources = true;
  identity_config_map = false;
}

no_provider : provider_in (view_of empty_store) cluster ≡ err (provider_not_ready cluster)
unfolding provider_in one_provider scan_providers trim_space
no_provider = refl

pub no_provider_in_view :
    provider_in (memory_client-IsLawful.view empty_store) cluster ≡ err (provider_not_ready cluster)
no_provider_in_view = rw memory_client-view no_provider
