-- ===== src/Webhook/Mutate.antt =====
-- internal/webhook/podmutator/mutate.go: what the webhook injects into a pod. A function that
-- changes its argument in Go returns the changed value here, beside the Boolean that Go returns.
pub mod Env
pub mod Laws
pub mod Mounts
pub mod Token
use thalassa_workload_identi.Common.{
  Bool, true, false, not, ◌&&◌, ◌||◌, Option, none, some, List, [], ◌∷◌, ◌++◌, any, if◌then◌else◌,
}
use thalassa_workload_identi.Text.Eq.{Text, text_eq, is_empty}
use thalassa_workload_identi.Text.Trim.{trim_space}
use thalassa_workload_identi.Dict.{Dict, get}
use thalassa_workload_identi.Wif.Keys.{
  annotation_organisation_id, annotation_service_account_id, annotation_project_id, label_wif_use,
  label_wif_use_value, env_organisation_id, env_service_account_id, env_project_id,
  env_subject_token_file, projected_volume_name, projected_token_mount_path, projected_token_path,
  default_subject_token_file,
}
use thalassa_workload_identi.Webhook.Pod.{
  EnvVar, VolumeMount, Container, TokenProjection, VolumeProjection, Volume, Pod,
}

pub record Identity : Type 0 where
  pub organisation_id : Text
  pub service_account_id : Text
  pub project_id : Text

unfoldable pub complete : Identity → Bool
complete id =
    not (is_empty (trim_space id.organisation_id))
    && not (is_empty (trim_space id.service_account_id))

-- From the annotations of a service account.
abbrev pub identity_from_service_account : Dict → Identity
identity_from_service_account annotations = record {
  organisation_id = trim_space (get annotation_organisation_id annotations);
  service_account_id = trim_space (get annotation_service_account_id annotations);
  project_id = trim_space (get annotation_project_id annotations);
}

unfoldable pub opted_in : Pod → Bool
opted_in pod = text_eq (get label_wif_use pod.labels) label_wif_use_value

abbrev pub has_env : Text → Container → Bool
has_env name c = any (λ (e : EnvVar). text_eq e.name name) c.env

unfoldable pub ensure_env : Text → Text → Container → Container × Bool
ensure_env name value c =
    if has_env name c
    then (c, false)
    else (record c { env = c.env ++ (record { name = name; value = value } ∷ []) }, true)

abbrev pub mounts_token : VolumeMount → Bool
mounts_token m =
    text_eq m.name projected_volume_name || text_eq m.mount_path projected_token_mount_path

abbrev pub token_mount : VolumeMount
token_mount = record {
  name = projected_volume_name;
  mount_path = projected_token_mount_path;
  read_only = true;
}

unfoldable pub ensure_volume_mount : Container → Container × Bool
ensure_volume_mount c =
    if any mounts_token c.volume_mounts
    then (c, false)
    else (record c { volume_mounts = c.volume_mounts ++ (token_mount ∷ []) }, true)

-- `if f(c) { changed = true }`
abbrev pub and_then : Container × Bool → (Container → Container × Bool) → Container × Bool
and_then p f = ((f p.0).0, p.1 || (f p.0).1)

unfoldable pub inject_container : Identity → Container → Container × Bool
inject_container id c =
    and_then
      (and_then
        (and_then
          (and_then (ensure_env env_organisation_id id.organisation_id c)
            (ensure_env env_service_account_id id.service_account_id))
          (λ d.
            if is_empty id.project_id
            then (d, false)
            else ensure_env env_project_id id.project_id d))
        (ensure_env env_subject_token_file default_subject_token_file))
      ensure_volume_mount

-- The loop over the containers of one kind.
abbrev pub inject_each : Identity → List Container → List Container × Bool
inject_each id [] = ([], false)
inject_each id (c ∷ cs) =
    let (d, b) = inject_container id c in let (ds, bs) = inject_each id cs in (d ∷ ds, b || bs)

abbrev pub is_token : Text → Option TokenProjection → Bool
is_token audience none = false
is_token audience (some tok) =
    text_eq tok.path projected_token_path && text_eq tok.audience audience

abbrev pub sources_have_token : Text → Option (List VolumeProjection) → Bool
sources_have_token audience none = false
sources_have_token audience (some sources) =
    any (λ (src : VolumeProjection). is_token audience src.service_account_token) sources

abbrev pub volume_has_thalassa_token : Text → Volume → Bool
volume_has_thalassa_token audience v = sources_have_token audience v.projected

-- A volume that has the name of ours, or that projects the token already.
abbrev pub named_or_token : Text → Volume → Bool
named_or_token audience v =
    text_eq v.name projected_volume_name || volume_has_thalassa_token audience v

abbrev pub token_volume : Text → Volume
token_volume audience = record {
  name = projected_volume_name;
  projected = some (
      record {
        service_account_token = some (record {
          path = projected_token_path;
          audience = audience;
          expiration_seconds = some 3600;
        });
      }
      ∷ []);
}

unfoldable pub ensure_projected_token_volume : Text → Pod → Pod × Bool
ensure_projected_token_volume audience pod =
    if any (named_or_token audience) pod.volumes
    then (pod, false)
    else (record pod { volumes = pod.volumes ++ (token_volume audience ∷ []) }, true)

-- The steps of `MutatePod` after its guards.
unfoldable pub inject_pod : Identity → Text → Pod → Pod × Bool
inject_pod id audience pod =
    let (p, changed) = ensure_projected_token_volume audience pod in
    let (inits, in_inits) = inject_each id p.init_containers in
    let (mains, in_mains) = inject_each id p.containers in
    (record p { init_containers = inits; containers = mains }, changed || in_inits || in_mains)

unfoldable pub mutate_pod : Pod → Identity → Text → Pod × Bool
unfolding inject_pod
mutate_pod pod id audience =
    if not (complete id)
    then (pod, false)
    else if is_empty (trim_space audience)
    then (pod, false)
    else inject_pod id (trim_space audience) pod
