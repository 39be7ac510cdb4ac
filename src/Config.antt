-- ===== src/Config.antt =====
-- internal/config/config.go: the configuration of the process.
pub mod Allowlist
mod Tests
pub mod Validate
use thalassa_workload_identi.Common.{Bool, ℤ, List, [], ◌∷◌, not, is_nil, if◌then◌else◌}
use thalassa_workload_identi.Text.Eq.{Text, codes, is_empty}
use thalassa_workload_identi.Text.Trim.{trim_space, trim_suffix}

abbrev pub default_thalassa_url : Text
default_thalassa_url = codes "https://api.thalassa.cloud"

abbrev pub default_webhook_audience : Text
default_webhook_audience = default_thalassa_url

pub record Config : Type 0 where
  pub thalassa_url : Text
  pub organisation_id : Text
  pub project_identity : Text
  pub cluster_identity : Text
  pub controller_service_account : Text
  pub subject_token_file : Text
  pub trusted_audiences : List Text
  pub watch_namespaces : List Text
  pub allowed_policies : List Text
  pub allowed_roles : List Text
  pub probe_addr : Text
  pub metrics_addr : Text
  pub enable_leader_election : Bool
  pub requeue_missing_idp : ℤ
  pub enable_service_account_annotations : Bool
  pub enable_identity_config_map : Bool
  pub enable_controllers : Bool
  pub enable_pod_mutator : Bool
  pub webhook_cert_dir : Text
  pub webhook_port : ℤ
  pub webhook_audience : Text

unfoldable pub normalize_url : Text → Text
normalize_url u = trim_suffix (trim_space u) (codes "/")

abbrev first_or : List Text → Text → Text
first_or [] other = other
first_or (a ∷ _) other = trim_space a

unfoldable pub resolve_webhook_audience : Config → Text
resolve_webhook_audience c =
    let a = trim_space c.webhook_audience in
    let u = trim_space c.thalassa_url in
    if not (is_empty a)
    then a
    else first_or c.trusted_audiences (if not (is_empty u) then u else default_webhook_audience)
