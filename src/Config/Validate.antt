-- ===== src/Config/Validate.antt =====
-- `Validate` of internal/config/config.go. `url.ParseRequestURI` is a parameter: none for an
-- accepted text, and the error's message for any other.
pub mod Laws
use thalassa_workload_identi.Common.{
  ◌≡◌, refl, ◌≢◌, ◌↔◌, ◌⊎◌, inl, inr, Bool, true, false, not, ◌&&◌, ◌||◌, Option, none, some, List,
  [], ◌∷◌, arith, ℤ, is_positive, is_nil, if◌then◌else◌,
}
use thalassa_workload_identi.Text.Eq.{Text, codes, is_empty, is_empty_iff}
use thalassa_workload_identi.Text.Trim.{trim_space}
use thalassa_workload_identi.Errors.{
  Error, component_required, option_required, option_not_positive, remote, wrapped, Context,
  thalassa_url_invalid, webhook_audience_invalid, Result, ok, err, fail_if, ◌>>=◌, ◌>>◌,
}
use thalassa_workload_identi.Config.{Config}

abbrev is_blank : Text → Bool
is_blank s = is_empty (trim_space s)

module _ (parse_request_uri : Text → Option Text) where
  check_uri : Context → Text → Result (Unit {0})
  check_uri context u = elim (parse_request_uri u) [
    | none ↦ ok tt
    | some message ↦ err (wrapped context (remote message))
  ]

  unfoldable pub validate_controller : Config → Result (Unit {0})
  unfolding check_uri
  validate_controller c = do
    fail_if (is_blank c.thalassa_url) (option_required (codes "thalassa-url"))
    check_uri thalassa_url_invalid c.thalassa_url
    fail_if (is_blank c.organisation_id) (option_required (codes "organisation"))
    fail_if (is_blank c.cluster_identity) (option_required (codes "cluster-identity"))
    fail_if (is_blank c.controller_service_account)
        (option_required (codes "thalassa-service-account-id"))
    fail_if (is_blank c.subject_token_file) (option_required (codes "thalassa-subject-token-file"))
    fail_if (is_nil c.trusted_audiences) (option_required (codes "at least one trusted audience"))
    fail_if (not (is_positive c.requeue_missing_idp))
        (option_not_positive (codes "requeue-missing-idp"))

  unfoldable pub validate_webhook : Config → Result (Unit {0})
  unfolding check_uri
  validate_webhook c = do
    fail_if (is_blank c.webhook_cert_dir) (option_required (codes "webhook-cert-dir"))
    fail_if (not (is_positive c.webhook_port)) (option_not_positive (codes "webhook-port"))
    fail_if (is_blank c.webhook_audience) (option_required (codes "webhook-audience"))
    check_uri webhook_audience_invalid c.webhook_audience

  unfoldable pub validate : Config → Result (Unit {0})
  unfolding validate_controller validate_webhook
  validate c = do
    fail_if (not c.enable_controllers && not c.enable_pod_mutator) component_required
    (if c.enable_controllers then validate_controller c else ok tt)
    if c.enable_pod_mutator then validate_webhook c else ok tt
