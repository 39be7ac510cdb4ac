-- ===== src/Webhook/Mutate/Token.antt =====
-- What a mutated pod needs to get its token: a volume that projects it, and in every container a mount
-- and the variables.
use thalassa_workload_identi.Common.{
  ◌≡◌, ◌⊎◌, refl, true, false, Option, none, some, List, any, arith, Any, All, any-Any,
  Any-append_last, All-map, Bool-cases, inl, inr,
}
use thalassa_workload_identi.Text.Eq.{Text, text_eq, text_eq_iff, is_empty}
use thalassa_workload_identi.Text.Trim.{trim_space}
use thalassa_workload_identi.Dict.{lookup}
use thalassa_workload_identi.Wif.Keys.{
  env_organisation_id, env_service_account_id, env_project_id, env_subject_token_file,
  default_subject_token_file, projected_volume_name, projected_token_mount_path,
  projected_token_path,
}
use thalassa_workload_identi.Webhook.Pod.{
  VolumeMount, Container, TokenProjection, VolumeProjection, Volume, Pod,
}
use thalassa_workload_identi.Webhook.Mutate.{
  Identity, complete, mounts_token, inject_container, is_token, sources_have_token, named_or_token,
  volume_has_thalassa_token, token_volume, mutate_pod,
}
use thalassa_workload_identi.Webhook.Mutate.Env.{
  or_else, env_value, injected_env, inject_container_env,
}
use thalassa_workload_identi.Webhook.Mutate.Laws.{inject_container-mounts, mutate_pod_lem}
use thalassa_workload_identi.Webhook.Mutate.Mounts.{
  named, volumes_after, mutate_pod-volumes, named_or_token-split,
}

-- A source that gives a token for the audience at the path of the webhook.
abbrev pub Gives : Text → VolumeProjection → Type 0
Gives audience src =
    (tok : TokenProjection) × (src.service_account_token ≡ some tok)
    × (tok.path ≡ projected_token_path)
    × (tok.audience ≡ audience)

-- A projected volume with such a source.
abbrev pub Projects : Text → Volume → Type 0
Projects audience v =
    (sources : List VolumeProjection) × (v.projected ≡ some sources) × Any (Gives audience) sources

-- A container in which the variables are set and a volume of the webhook's name, or one at its path, is
-- mounted; the project is set where the identity has one.
pub record IsServed (id : Identity) (c : Container) : Type 0 where
  pub organisation : (v : Text) × (env_value env_organisation_id c.env ≡ some v)
  pub account : (v : Text) × (env_value env_service_account_id c.env ≡ some v)
  pub project :
      (is_empty id.project_id ≡ true) ⊎ ((v : Text) × (env_value env_project_id c.env ≡ some v))
  pub token_file : (v : Text) × (env_value env_subject_token_file c.env ≡ some v)
  pub mount :
      Any
        (λ (m : VolumeMount).
          (m.name ≡ projected_volume_name) ⊎ (m.mount_path ≡ projected_token_mount_path))
        c.volume_mounts

is_token-Gives :
    (audience : Text) (src : VolumeProjection)
    → is_token audience src.service_account_token ≡ true
    → Gives audience src
is_token-Gives audience src h = go src.service_account_token h
  where
    go :
        (o : Option TokenProjection)
        → is_token audience o ≡ true
        → (tok : TokenProjection) × (o ≡ some tok)
          × (tok.path ≡ projected_token_path)
          × (tok.audience ≡ audience)
    go none h = cc
    go (some tok) h = (
      tok,
      refl,
      (text_eq_iff tok.path projected_token_path).0 (ground arith),
      (text_eq_iff tok.audience audience).0 (ground arith),
    )

token-Projects :
    (audience : Text) (v : Volume)
    → volume_has_thalassa_token audience v ≡ true
    → Projects audience v
token-Projects audience v h = go v.projected h
  where
    go :
        (o : Option (List VolumeProjection))
        → sources_have_token audience o ≡ true
        → (sources : List VolumeProjection) × (o ≡ some sources) × Any (Gives audience) sources
    go none h = cc
    go (some sources) h =
        (sources, refl, any-Any (Gives audience) _ (is_token-Gives audience) sources h)

token_volume-Projects : (audience : Text) → Projects audience (token_volume audience)
token_volume-Projects audience = (_, refl, inl (_, refl, refl, refl))

volumes_after-Projects :
    (audience : Text) (vs : List Volume)
    → (named projected_volume_name vs ≡ true) ⊎ Any (Projects audience) (volumes_after audience vs)
volumes_after-Projects audience vs = elim (Bool-cases (any (named_or_token audience) vs)) [
  | inr missing ↦ inr (rw missing (Any-append_last _ vs _ (token_volume-Projects audience)))
  | inl there ↦ elim (Bool-cases (named projected_volume_name vs)) [
    | inl name ↦ inl name
    | inr other ↦
        let split = named_or_token-split audience vs in
        inr (rw there (any-Any (Projects audience) _ (token-Projects audience) vs (ground arith)))
  ]
]

or_else-set : (o : Option Text) (v : Text) → (w : Text) × (or_else o (some v) ≡ some w)
or_else-set none v = (v, refl)
or_else-set (some w) v = (w, refl)

env_set :
    (id : Identity) (c : Container) (n v : Text)
    → lookup n (injected_env id) ≡ some v
    → (w : Text) × (env_value n (inject_container id c).0.env ≡ some w)
env_set id c n v e = rw (inject_container_env, e) (or_else-set (env_value n c.env) v)

inject_container-IsServed : (id : Identity) (c : Container) → IsServed id (inject_container id c).0
unfolding lookup text_eq
inject_container-IsServed id c = record {
  organisation = env_set id c env_organisation_id _ refl;
  account = env_set id c env_service_account_id _ refl;
  project = elim (Bool-cases (is_empty id.project_id)) [
    | inl none_set ↦ inl none_set
    | inr set ↦ inr (env_set id c env_project_id id.project_id (rw set))
  ];
  token_file = elim (Bool-cases (is_empty id.project_id)) [
    | inl none_set ↦ env_set id c env_subject_token_file default_subject_token_file (rw none_set)
    | inr set ↦ env_set id c env_subject_token_file default_subject_token_file (rw set)
  ];
  mount =
      any-Any _ mounts_token mount_of (inject_container id c).0.volume_mounts
        (inject_container-mounts id c);
}
  where
    mount_of :
        (m : VolumeMount)
        → mounts_token m ≡ true
        → (m.name ≡ projected_volume_name) ⊎ (m.mount_path ≡ projected_token_mount_path)
    mount_of m h = elim (Bool-cases (text_eq m.name projected_volume_name)) [
      | inl name ↦ inl ((text_eq_iff m.name projected_volume_name).0 name)
      | inr other ↦ inr ((text_eq_iff m.mount_path projected_token_mount_path).0 (ground arith))
    ]

-- With a complete identity and an audience that is not blank, a pod had a volume of the webhook's name
-- before, or it has a volume after the mutation that projects a token for the trimmed audience at the
-- webhook's path. Each of its containers of both kinds has the variables of the identity, that of the
-- project where the identity has one, and that of the token file, and mounts a volume of the webhook's
-- name or one at its mount path.
pub mutate_pod-IsServed :
    (pod : Pod) (id : Identity) (audience : Text)
    → complete id ≡ true
    → is_empty (trim_space audience) ≡ false
    → (let after = (mutate_pod pod id audience).0 in
        ((named projected_volume_name pod.volumes ≡ true)
          ⊎ Any (Projects (trim_space audience)) after.volumes)
        × All (IsServed id) after.init_containers
        × All (IsServed id) after.containers)
mutate_pod-IsServed pod id audience whole set =
    let (_, inits, mains) = mutate_pod_lem pod id audience whole set in
    rw (mutate_pod-volumes pod id audience whole set, inits, mains)
      (
        volumes_after-Projects (trim_space audience) pod.volumes,
        All-map (IsServed id) _ (inject_container-IsServed id) pod.init_containers,
        All-map (IsServed id) _ (inject_container-IsServed id) pod.containers,
      )
