-- ===== src/Config/Tests.antt =====
-- A configuration and an allowlist.
use thalassa_workload_identi.Common.{
  refl, ◌≡◌, ◌↔◌, ◌⊎◌, true, false, not, ◌&&◌, is_nil, Option, none, some, [], ◌∷◌, Any, pos,
}
use thalassa_workload_identi.Text.Eq.{Text, codes}
use thalassa_workload_identi.Text.Trim.{trim_space}
use thalassa_workload_identi.Dict.{lookup}
use thalassa_workload_identi.Errors.{ok}
use thalassa_workload_identi.Config.{Config}
use thalassa_workload_identi.Config.Allowlist.{check_ref_allowlist}
use thalassa_workload_identi.Config.Allowlist.Laws.{Names, check_ref_allowlist_iff}
use thalassa_workload_identi.Config.Validate.{validate}
use thalassa_workload_identi.Config.Validate.Laws.{
  IsControllerConfig, IsWebhookConfig, validate_iff,
}
use thalassa_workload_identi.Controller.Annotations.{is_there}
use thalassa_workload_identi.Controller.System.{outside_watch}
use thalassa_workload_identi.Main.Manager.{default_namespaces, Action, returned, failure, main}
use thalassa_workload_identi.Main.Manager.Sequence.{IsCalled}
use thalassa_workload_identi.Main.Manager.Laws.{main-returned_iff, outside_watch-default_namespaces}
use thalassa_workload_identi.Main.Setup.{Flags, setup}

abbrev config : Config
config = record {
  thalassa_url = codes "https://api.example";
  organisation_id = codes "org";
  project_identity = [];
  cluster_identity = codes "cluster-1";
  controller_service_account = codes "sa";
  subject_token_file = codes "/token";
  trusted_audiences = codes "https://api.example" ∷ [];
  watch_namespaces = [];
  allowed_policies = [];
  allowed_roles = [];
  probe_addr = [];
  metrics_addr = [];
  enable_leader_election = true;
  requeue_missing_idp = pos 60;
  enable_service_account_annotations = true;
  enable_identity_config_map = true;
  enable_controllers = true;
  enable_pod_mutator = false;
  webhook_cert_dir = [];
  webhook_port = pos 0;
  webhook_audience = [];
}

-- A parser that accepts every text that is not empty.
abbrev parse : Text → Option Text
parse [] = some (codes "empty url")
parse (c ∷ s) = none

validate_iff_example : (validate parse config ≡ ok tt) ↔ (
    ((config.enable_controllers ≡ true) ⊎ (config.enable_pod_mutator ≡ true))
    × (config.enable_controllers ≡ true → IsControllerConfig parse config)
    × (config.enable_pod_mutator ≡ true → IsWebhookConfig parse config))
validate_iff_example = validate_iff parse config

check_ref_allowlist_iff_example :
    (check_ref_allowlist (codes "role") (codes "ROLE-1") (codes "reader" ∷ []) (codes "Reader" ∷ [])
      ≡ ok tt)
    ↔ ((trim_space (codes "ROLE-1") ≡ [])
        ⊎ (((codes "reader" ∷ []) ≡ [])
            ⊎ Any
                (λ entry. Names entry (trim_space (codes "ROLE-1") ∷ codes "Reader" ∷ []))
                (codes "reader" ∷ [])))
check_ref_allowlist_iff_example =
    check_ref_allowlist_iff (codes "role") (codes "ROLE-1") (codes "reader" ∷ [])
      (codes "Reader" ∷ [])

abbrev flags : Flags
flags = record {
  metrics_addr = [];
  probe_addr = [];
  secure_metrics = true;
  enable_leader_election = true;
  thalassa_url = codes "https://api.example/";
  organisation = codes "org";
  project_identity = [];
  cluster_identity = codes "cluster-1";
  service_account_id = codes "sa";
  subject_token_file = codes "/token";
  trusted_audiences_raw = [];
  watch_namespaces_raw = [];
  requeue_missing_idp = pos 60;
  enable_service_account_annotations = false;
  enable_identity_config_map = false;
  enable_controllers = true;
  enable_pod_mutator = false;
  webhook_cert_dir = [];
  webhook_port = pos 0;
  webhook_audience = [];
  allowed_policies_raw = [];
  allowed_roles_raw = [];
}

abbrev accept_all : Text → Option Text
accept_all s = none

abbrev all_succeed : Action → Option Text
all_succeed a = none

main-returned_iff_example : ((main accept_all all_succeed flags).1 ≡ returned) ↔ (
    (validate accept_all (setup flags) ≡ ok tt)
    × ((a : Action) → IsCalled flags (setup flags) a → failure all_succeed a ≡ none))
main-returned_iff_example = main-returned_iff accept_all all_succeed flags

abbrev watching : Config
watching = record config { watch_namespaces = codes "prod" ∷ [] }

outside_watch-default_namespaces_example : outside_watch watching (codes "dev") ≡ (
    not (is_nil (default_namespaces watching))
    && not (is_there (lookup (codes "dev") (default_namespaces watching))))
outside_watch-default_namespaces_example =
    outside_watch-default_namespaces watching (codes "dev") refl
