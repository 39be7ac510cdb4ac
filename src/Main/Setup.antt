-- ===== src/Main/Setup.antt =====
-- The start of cmd/main.go: from the flags to the configuration.
use thalassa_workload_identi.Common.{
  true, ◌≡◌, ◌≢◌, Bool, false, not, ◌&&◌, List, [], ◌∷◌, arith, ℤ, All, is_nil, if◌then◌else◌,
}
use thalassa_workload_identi.Text.Eq.{Text, is_empty, is_empty_iff}
use thalassa_workload_identi.Text.Trim.{trim_space}
use thalassa_workload_identi.Text.Trim.Laws.{trim_space_idem}
use thalassa_workload_identi.Text.Split.{split}
use thalassa_workload_identi.Config.{Config, normalize_url, resolve_webhook_audience}

-- The loop over the parts: trimmed, and kept where not blank.
trimmed_parts : List Text → List Text
trimmed_parts [] = []
trimmed_parts (p ∷ ps) =
    let rest = trimmed_parts ps in if is_empty (trim_space p) then rest else trim_space p ∷ rest

unfoldable pub split_csv : Text → List Text
unfolding trimmed_parts
split_csv raw = let r = trim_space raw in if is_empty r then [] else trimmed_parts (split b',' r)

-- The values of the flags, after `flag.Parse`.
pub record Flags : Type 0 where
  pub metrics_addr : Text
  pub probe_addr : Text
  pub secure_metrics : Bool
  pub enable_leader_election : Bool
  pub thalassa_url : Text
  pub organisation : Text
  pub project_identity : Text
  pub cluster_identity : Text
  pub service_account_id : Text
  pub subject_token_file : Text
  pub trusted_audiences_raw : Text
  pub watch_namespaces_raw : Text
  pub requeue_missing_idp : ℤ
  pub enable_service_account_annotations : Bool
  pub enable_identity_config_map : Bool
  pub enable_controllers : Bool
  pub enable_pod_mutator : Bool
  pub webhook_cert_dir : Text
  pub webhook_port : ℤ
  pub webhook_audience : Text
  pub allowed_policies_raw : Text
  pub allowed_roles_raw : Text

-- The literal `cfg := config.Config{...}`.
unfoldable pub config_of_flags : Flags → Config
unfolding split_csv
config_of_flags f = record {
  thalassa_url = normalize_url f.thalassa_url;
  organisation_id = trim_space f.organisation;
  project_identity = trim_space f.project_identity;
  cluster_identity = trim_space f.cluster_identity;
  controller_service_account = trim_space f.service_account_id;
  subject_token_file = trim_space f.subject_token_file;
  trusted_audiences = split_csv f.trusted_audiences_raw;
  watch_namespaces = split_csv f.watch_namespaces_raw;
  allowed_policies = split_csv f.allowed_policies_raw;
  allowed_roles = split_csv f.allowed_roles_raw;
  probe_addr = f.probe_addr;
  metrics_addr = f.metrics_addr;
  enable_leader_election = f.enable_leader_election;
  requeue_missing_idp = f.requeue_missing_idp;
  enable_service_account_annotations = f.enable_service_account_annotations;
  enable_identity_config_map = f.enable_identity_config_map;
  enable_controllers = f.enable_controllers;
  enable_pod_mutator = f.enable_pod_mutator;
  webhook_cert_dir = trim_space f.webhook_cert_dir;
  webhook_port = f.webhook_port;
  webhook_audience = trim_space f.webhook_audience;
}

default_audiences : Config → Config
default_audiences c =
    if c.enable_controllers && is_nil c.trusted_audiences
    then record c { trusted_audiences = c.thalassa_url ∷ [] }
    else c

default_webhook : Config → Config
default_webhook c =
    if is_empty c.webhook_audience
    then record c { webhook_audience = resolve_webhook_audience c }
    else c

no_election_for_webhook : Config → Config
no_election_for_webhook c =
    if c.enable_pod_mutator && not c.enable_controllers
    then record c { enable_leader_election = false }
    else c

-- The configuration that `cfg.Validate()` is asked about, after the three defaults.
unfoldable pub setup : Flags → Config
unfolding config_of_flags default_audiences default_webhook no_election_for_webhook
setup f = no_election_for_webhook (default_webhook (default_audiences (config_of_flags f)))

trimmed_parts-trimmed :
    (ps : List Text) → All (λ p. (p ≢ []) × (trim_space p ≡ p)) (trimmed_parts ps)
unfolding trimmed_parts
trimmed_parts-trimmed [] = tt
trimmed_parts-trimmed (p ∷ ps) =
    ground (arith, is_empty_iff (trim_space p), trim_space_idem p, trimmed_parts-trimmed ps)

-- The parts of a comma-separated flag are trimmed, and none of them is empty.
pub split_csv-trimmed : (raw : Text) → All (λ p. (p ≢ []) × (trim_space p ≡ p)) (split_csv raw)
unfolding split_csv
split_csv-trimmed raw = ground (arith, trimmed_parts-trimmed (split b',' (trim_space raw)))

-- With controllers enabled, the configuration trusts some audience, and leader election stays as the
-- flag says.
pub setup-trusted_audiences :
    (f : Flags)
    → f.enable_controllers ≡ true
    → ((setup f).trusted_audiences ≢ [])
      × ((setup f).enable_leader_election ≡ f.enable_leader_election)
unfolding setup config_of_flags default_audiences default_webhook no_election_for_webhook
setup-trusted_audiences f on = ground arith
