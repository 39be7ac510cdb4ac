-- ===== src/Webhook/Tests.antt =====
-- Pods that the webhook mutates.
use native.Mathlib.Decide.{ℕ_discrete}
use thalassa_workload_identi.Common.{◌⊎◌, Any, All}
use thalassa_workload_identi.Webhook.Mutate.Token.{Projects, IsServed, mutate_pod-IsServed}
use thalassa_workload_identi.Common.{
  ◌≡◌, refl, true, false, Option, none, some, [], ◌∷◌, any, if◌then◌else◌,
}
use thalassa_workload_identi.Text.Eq.{Text, codes, text_eq, is_empty}
use thalassa_workload_identi.Text.Trim.{trim_space}
use thalassa_workload_identi.Dict.{get, lookup}
use thalassa_workload_identi.Wif.Keys.{
  annotation_organisation_id, annotation_service_account_id, env_organisation_id,
  env_service_account_id, env_subject_token_file, label_wif_use, label_wif_use_value,
  projected_volume_name, projected_token_path,
}
use thalassa_workload_identi.Webhook.Pod.{Container, Volume, Pod}
use thalassa_workload_identi.Webhook.Mutate.{
  Identity, complete, opted_in, ensure_env, ensure_volume_mount, inject_container, inject_pod,
  volume_has_thalassa_token, ensure_projected_token_volume, mutate_pod,
}
use thalassa_workload_identi.Webhook.Mutate.Env.{
  env_value, or_else, injected_env, inject_container_env,
}
use thalassa_workload_identi.Webhook.Mutate.Laws.{mutate_pod_idem}
use thalassa_workload_identi.Webhook.Mutate.Mounts.{
  named, well_mounted, mutate_pod-well_mounted, mutate_pod-dangling,
}
use thalassa_workload_identi.Webhook.Handler.{
  Fetched, found, allowed, already_injected, patch, Request, with_identity, with_account, with_pod,
  handle,
}
use thalassa_workload_identi.Webhook.Handler.Laws.{IsPatched, handle-IsPatched, handle-own_result}

abbrev app : Container
app = record {
  name = codes "app";
  env = record { name = env_organisation_id; value = codes "mine" } ∷ [];
  volume_mounts = [];
}

abbrev pod : Pod
pod = record {
  namespace = codes "prod";
  labels = (label_wif_use, label_wif_use_value) ∷ [];
  service_account_name = codes "api";
  volumes = [];
  init_containers = [];
  containers = app ∷ [];
}

abbrev id : Identity
id = record { organisation_id = codes "org"; service_account_id = codes "sa"; project_id = [] }

abbrev audience : Text
audience = codes " https://api.example "

-- A volume of another name that brings the same token.
abbrev own_volume : Volume
own_volume = record {
  name = codes "mine";
  projected = some (
      record {
        service_account_token = some (record {
          path = projected_token_path;
          audience = codes "https://api.example";
          expiration_seconds = none;
        });
      }
      ∷ []);
}

abbrev pod_with_volume : Pod
pod_with_volume = record pod { volumes = own_volume ∷ [] }

is_complete : complete id ≡ true
unfolding complete trim_space
is_complete = refl

is_set : is_empty (trim_space audience) ≡ false
unfolding trim_space
is_set = refl

-- A variable that is there is kept, and the others are added.
env_of_app :
    (inject_container id app).0.env
    ≡ record { name = env_organisation_id; value = codes "mine" }
      ∷ record { name = env_service_account_id; value = codes "sa" }
      ∷ record { name = env_subject_token_file; value = codes "/var/run/secrets/thalassa/token" }
      ∷ []
unfolding inject_container ensure_env ensure_volume_mount text_eq
env_of_app = refl

mutate_pod_idem_example :
    mutate_pod (mutate_pod pod id audience).0 id audience ≡ ((mutate_pod pod id audience).0, false)
mutate_pod_idem_example = mutate_pod_idem pod id audience

inject_container_env_example :
    env_value env_organisation_id (inject_container id app).0.env
    ≡ or_else (env_value env_organisation_id app.env) (lookup env_organisation_id (injected_env id))
inject_container_env_example = inject_container_env id app env_organisation_id

abbrev mutated : Pod
mutated = (mutate_pod pod id audience).0

mutate_pod-IsServed_example :
    ((named projected_volume_name pod.volumes ≡ true)
      ⊎ Any (Projects (trim_space audience)) mutated.volumes)
    × All (IsServed id) mutated.init_containers
    × All (IsServed id) mutated.containers
mutate_pod-IsServed_example = mutate_pod-IsServed pod id audience is_complete is_set

mutate_pod-well_mounted_example : well_mounted (mutate_pod pod id audience).0 ≡ true
mutate_pod-well_mounted_example =
    mutate_pod-well_mounted pod id audience is_complete is_set refl refl

has_token : any (volume_has_thalassa_token (trim_space audience)) (own_volume ∷ []) ≡ true
unfolding trim_space text_eq
has_token = refl

no_name : named projected_volume_name (own_volume ∷ []) ≡ false
unfolding text_eq
no_name = refl

mutate_pod-dangling_example : well_mounted (mutate_pod pod_with_volume id audience).0 ≡ false
mutate_pod-dangling_example =
    mutate_pod-dangling pod_with_volume id audience app [] is_complete is_set has_token no_name refl
      refl

pod_discrete : Discrete Pod
pod_discrete = hlevel ℕ_discrete

abbrev raw_pod : Text
raw_pod = codes "pod"

abbrev raw_mutated : Text
raw_mutated = codes "mutated"

-- An encoder and a decoder that know one pod before the mutation and the same after it.
abbrev when_same : {P : Type 0} → Dec P → Option Text → Option Text
when_same (yes p) o = o
when_same (no np) o = none

marshal : Pod → Option Text
marshal p = when_same (pod_discrete p mutated) (some raw_mutated)

abbrev decode : Text → Option Pod
decode text =
    if text_eq text raw_pod
    then some pod
    else if text_eq text raw_mutated
    then some mutated
    else none

abbrev get_account : Text → Text → Fetched
get_account namespace name =
    found
      ((annotation_organisation_id, codes "org") ∷ (annotation_service_account_id, codes "sa") ∷ [])

abbrev request : Request
request = record { namespace = codes "prod"; raw = raw_pod }

marshal-mutated : marshal mutated ≡ some raw_mutated
unfolding marshal
marshal-mutated = go (pod_discrete mutated mutated)
  where
    go : (d : Dec (mutated ≡ mutated)) → when_same d (some raw_mutated) ≡ some raw_mutated
    go (yes p) = refl
    go (no np) = absurd (np refl)

some-injective : {s t : Text} → ◌≡◌ {A = Option Text} (some s) (some t) → s ≡ t
some-injective e = cc

marshal-undone : (p : Pod) (text : Text) → marshal p ≡ some text → decode text ≡ some p
unfolding marshal text_eq
marshal-undone p text e = go (pod_discrete p mutated) e
  where
    go : (d : Dec (p ≡ mutated)) → when_same d (some raw_mutated) ≡ some text → decode text ≡ some p
    go (yes same) e = rw (← (some-injective e), same) refl
    go (no np) e = cc

handled : handle decode get_account marshal audience request ≡ patch raw_pod raw_mutated
unfolding handle with_pod with_account with_identity opted_in text_eq get lookup trim_space complete
    mutate_pod inject_pod inject_container ensure_env ensure_volume_mount
    ensure_projected_token_volume
handled = rw marshal-mutated

handle-IsPatched_example :
    (raw_pod ≡ raw_pod) × IsPatched decode get_account marshal audience request raw_mutated
handle-IsPatched_example = handle-IsPatched decode get_account marshal audience request handled

handle-own_result_example :
    handle decode get_account marshal audience (record request { raw = raw_mutated })
    ≡ allowed already_injected
handle-own_result_example =
    handle-own_result decode get_account marshal audience request marshal-undone handled
