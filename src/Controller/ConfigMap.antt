-- ===== src/Controller/ConfigMap.antt =====
-- internal/controller/identity_configmap.go
use thalassa_workload_identi.Common.{arith, ◌≡◌, ◌≢◌, ◌↔◌, ◌++◌, [], ◌∷◌, if◌then◌else◌}
use thalassa_workload_identi.Text.Eq.{Text, codes, text_eq, is_empty, is_empty_iff}
use thalassa_workload_identi.Text.Trim.{trim_space}
use thalassa_workload_identi.Text.Trim.Laws.{trim_space_idem}
use thalassa_workload_identi.Dict.{Dict, lookup, get}
use thalassa_workload_identi.Errors.{
  organisation_id_required, service_account_id_required, Result, ok, err,
}
use thalassa_workload_identi.Wif.Keys.{
  config_map_key_organisation_id, config_map_key_service_account_id, config_map_key_project_id,
}

abbrev pub identity_config_map_name : Text → Text
identity_config_map_name service_account = codes "wif-" ++ trim_space service_account

abbrev pub identity_config_map_data : Text → Text → Text → Dict
identity_config_map_data organisation account project =
    (config_map_key_organisation_id, trim_space organisation)
    ∷ (config_map_key_service_account_id, trim_space account)
    ∷ (if is_empty (trim_space project)
        then []
        else (config_map_key_project_id, trim_space project) ∷ [])

unfoldable pub validate_identity_config_map_data : Dict → Result (Unit {0})
validate_identity_config_map_data entries =
    if is_empty (trim_space (get config_map_key_organisation_id entries))
    then err organisation_id_required
    else if is_empty (trim_space (get config_map_key_service_account_id entries))
    then err service_account_id_required
    else ok tt

-- The data of a config map is accepted exactly when neither the organisation nor the account is
-- blank.
pub identity_config_map_data_iff :
    (organisation account project : Text)
    → (validate_identity_config_map_data (identity_config_map_data organisation account project)
        ≡ ok tt)
      ↔ ((trim_space organisation ≢ []) × (trim_space account ≢ []))
unfolding validate_identity_config_map_data get lookup text_eq
identity_config_map_data_iff organisation account project =
    rw (trim_space_idem organisation, trim_space_idem account)
      (ground (arith, is_empty_iff (trim_space organisation), is_empty_iff (trim_space account)))
