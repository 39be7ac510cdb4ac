-- ===== src/Config/Validate/Laws.antt =====
-- Which configurations are accepted.
use thalassa_workload_identi.Common.{
  is_nil_iff, ◌≡◌, ◌≢◌, ◌↔◌, ◌⊎◌, true, Option, none, [], arith, is_positive,
}
use thalassa_workload_identi.Text.Eq.{Text, is_empty_iff}
use thalassa_workload_identi.Text.Trim.{trim_space}
use thalassa_workload_identi.Errors.{ok}
use thalassa_workload_identi.Config.{Config}
use thalassa_workload_identi.Config.Validate.{validate_controller, validate_webhook, validate}

module _ (parse_request_uri : Text → Option Text) where
  pub record IsControllerConfig (c : Config) : Type 0 where
    pub url : trim_space c.thalassa_url ≢ []
    pub url_parses : parse_request_uri c.thalassa_url ≡ none
    pub organisation : trim_space c.organisation_id ≢ []
    pub cluster : trim_space c.cluster_identity ≢ []
    pub account : trim_space c.controller_service_account ≢ []
    pub token_file : trim_space c.subject_token_file ≢ []
    pub audiences : c.trusted_audiences ≢ []
    pub requeue : is_positive c.requeue_missing_idp ≡ true

  pub record IsWebhookConfig (c : Config) : Type 0 where
    pub cert_dir : trim_space c.webhook_cert_dir ≢ []
    pub port : is_positive c.webhook_port ≡ true
    pub audience : trim_space c.webhook_audience ≢ []
    pub audience_parses : parse_request_uri c.webhook_audience ≡ none

  validate_controller_iff :
      (c : Config) → (validate_controller parse_request_uri c ≡ ok tt) ↔ IsControllerConfig c
  unfolding validate_controller
  validate_controller_iff c = ground (
    arith,
    is_empty_iff (trim_space c.thalassa_url),
    is_empty_iff (trim_space c.organisation_id),
    is_empty_iff (trim_space c.cluster_identity),
    is_empty_iff (trim_space c.controller_service_account),
    is_empty_iff (trim_space c.subject_token_file),
    is_nil_iff c.trusted_audiences,
  )

  validate_webhook_iff :
      (c : Config) → (validate_webhook parse_request_uri c ≡ ok tt) ↔ IsWebhookConfig c
  unfolding validate_webhook
  validate_webhook_iff c = ground (
    arith,
    is_empty_iff (trim_space c.webhook_cert_dir),
    is_empty_iff (trim_space c.webhook_audience),
  )

  -- A configuration is accepted exactly when a component is enabled and each enabled component has
  -- its settings.
  pub validate_iff :
      (c : Config)
      → (validate parse_request_uri c ≡ ok tt) ↔ (
          ((c.enable_controllers ≡ true) ⊎ (c.enable_pod_mutator ≡ true))
          × (c.enable_controllers ≡ true → IsControllerConfig c)
          × (c.enable_pod_mutator ≡ true → IsWebhookConfig c))
  unfolding validate
  validate_iff c = ground (arith, validate_controller_iff c, validate_webhook_iff c)
