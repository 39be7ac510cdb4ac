-- ===== src/Thalassa.antt =====
-- internal/thalassa/client.go: the options with which the client of client-go is made. The options are
-- values, and the constructor that takes them is a parameter.
use thalassa_workload_identi.Common.{List, [], ◌∷◌, ◌++◌, if◌then◌else◌}
use thalassa_workload_identi.Text.Eq.{Text, codes, is_empty}
use thalassa_workload_identi.Text.Trim.{trim_space}
use thalassa_workload_identi.Errors.{create_thalassa_client, remote, wrapped, Result, ok, err}
use thalassa_workload_identi.Iam.{Reply, answer, refusal}
use thalassa_workload_identi.Config.{Config, normalize_url}

abbrev pub default_subject_token_file : Text
default_subject_token_file = codes "/var/run/secrets/thalassa/token"

-- `client.OIDCTokenExchangeConfig`
pub record OidcTokenExchangeConfig : Type 0 where
  pub token_url : Text
  pub subject_token_file : Text
  pub organisation_id : Text
  pub service_account_id : Text

-- `client.Option`
pub data ClientOption : Type 0 where
  with_base_url with_organisation with_user_agent with_project : Text → ClientOption
  with_auth_oidc_token_exchange : OidcTokenExchangeConfig → ClientOption

abbrev pub subject_file : Config → Text
subject_file cfg =
    if is_empty (trim_space cfg.subject_token_file)
    then default_subject_token_file
    else trim_space cfg.subject_token_file

abbrev pub project_option : Config → List ClientOption
project_option cfg =
    if is_empty (trim_space cfg.project_identity)
    then []
    else with_project (trim_space cfg.project_identity) ∷ []

unfoldable pub client_options : Config → List ClientOption
client_options cfg =
    let base_url = normalize_url cfg.thalassa_url in
    (with_base_url base_url
      ∷ with_organisation cfg.organisation_id
      ∷ with_user_agent (codes "thalassa-workload-identity-controller/0.1.0")
      ∷ with_auth_oidc_token_exchange (record {
        token_url = base_url ++ codes "/oidc/token";
        subject_token_file = subject_file cfg;
        organisation_id = cfg.organisation_id;
        service_account_id = cfg.controller_service_account;
      })
      ∷ [])
    ++ project_option cfg

abbrev pub created : {C : Type 0} → Reply C → Result C
created (answer c) = ok c
created (refusal e) = err (wrapped create_thalassa_client (remote e))

unfoldable pub new_client : {C : Type 0} → (List ClientOption → Reply C) → Config → Result C
unfolding client_options
new_client make cfg = created (make (client_options cfg))
