-- ===== src/Webhook/Mutate/Laws.antt =====
-- What injection adds to a container and to a pod, and that it adds it once.
use thalassa_workload_identi.Common.{
  ◌≡◌, refl, ap, ◌∙◌, Bool, true, false, Option, none, some, List, [], ◌∷◌, any, map, any-append,
  arith, Bool-cases, inl, inr,
}
use thalassa_workload_identi.Text.Eq.{Text, text_eq, is_empty}
use thalassa_workload_identi.Text.Trim.{trim_space}
use thalassa_workload_identi.Dict.{lookup}
use thalassa_workload_identi.Wif.Keys.{
  env_organisation_id, env_service_account_id, env_project_id, env_subject_token_file,
  default_subject_token_file,
}
use thalassa_workload_identi.Webhook.Pod.{EnvVar, Container, Pod}
use thalassa_workload_identi.Webhook.Mutate.{
  Identity, complete, has_env, ensure_env, mounts_token, ensure_volume_mount, inject_container,
  inject_each, named_or_token, ensure_projected_token_volume, inject_pod, mutate_pod,
}
use thalassa_workload_identi.Webhook.Mutate.Env.{
  or_else, env_value, injected_env, inject_container_env,
}

abbrev is_some : Option Text → Bool
is_some none = false
is_some (some v) = true

has_env-eq : (n : Text) (c : Container) → has_env n c ≡ is_some (env_value n c.env)
has_env-eq n c = go c.env
  where
    go : (xs : List EnvVar) → any (λ (e : EnvVar). text_eq e.name n) xs ≡ is_some (env_value n xs)
    go [] = refl
    go (e ∷ xs) = ground (arith, go xs)

is_some-or_else : (o : Option Text) (v : Text) → is_some (or_else o (some v)) ≡ true
is_some-or_else none v = refl
is_some-or_else (some w) v = refl

has_env_of_injected :
    (id : Identity) (c : Container) (n v : Text)
    → lookup n (injected_env id) ≡ some v
    → has_env n (inject_container id c).0 ≡ true
has_env_of_injected id c n v e =
    rw (has_env-eq, inject_container_env, e) (is_some-or_else (env_value n c.env) _)

-- The container has the variables and a mount of the token.
abbrev pub IsInjected : Identity → Container → Type 0
IsInjected id c =
    (has_env env_organisation_id c ≡ true)
    × (has_env env_service_account_id c ≡ true)
    × ((is_empty id.project_id ≡ false) → has_env env_project_id c ≡ true)
    × (has_env env_subject_token_file c ≡ true)
    × (any mounts_token c.volume_mounts ≡ true)

ensure_volume_mount-mounts :
    (c : Container) → any mounts_token (ensure_volume_mount c).0.volume_mounts ≡ true
unfolding ensure_volume_mount text_eq
ensure_volume_mount-mounts c = elim (Bool-cases (any mounts_token c.volume_mounts)) [
  | inl there ↦ rw there there
  | inr missing ↦ rw (missing, any-append, missing)
]

pub inject_container-mounts :
    (id : Identity) (c : Container)
    → any mounts_token (inject_container id c).0.volume_mounts ≡ true
unfolding inject_container
inject_container-mounts id c = ensure_volume_mount-mounts _

-- Injection gives a container the variables and a mount of the token.
pub inject_container-IsInjected :
    (id : Identity) (c : Container) → IsInjected id (inject_container id c).0
unfolding lookup text_eq
inject_container-IsInjected id c = (
  has_env_of_injected id c env_organisation_id _ refl,
  has_env_of_injected id c env_service_account_id _ refl,
  λ set. has_env_of_injected id c env_project_id id.project_id (rw set),
  elim (Bool-cases (is_empty id.project_id)) [
    | inl none_set ↦
        has_env_of_injected id c env_subject_token_file default_subject_token_file (rw none_set)
    | inr set ↦ has_env_of_injected id c env_subject_token_file default_subject_token_file (rw set)
  ],
  inject_container-mounts id c,
)

inject_container_of_IsInjected :
    (id : Identity) (c : Container) → IsInjected id c → inject_container id c ≡ (c, false)
unfolding inject_container ensure_env ensure_volume_mount
inject_container_of_IsInjected id c (org, account, project, file, mount) =
    elim (Bool-cases (is_empty id.project_id)) [
      | inl none_set ↦ rw none_set (rw (org) (rw account (rw (file) (rw mount))))
      | inr set ↦
          let p = project set in rw set (rw (org) (rw account (rw p (rw (file) (rw mount)))))
    ]

inject_container_idem :
    (id : Identity) (c : Container)
    → inject_container id (inject_container id c).0 ≡ ((inject_container id c).0, false)
inject_container_idem id c = inject_container_of_IsInjected id _ (inject_container-IsInjected id c)

inject_each-map :
    (id : Identity) (cs : List Container)
    → (inject_each id cs).0 ≡ map (λ c. (inject_container id c).0) cs
inject_each-map id [] = refl
inject_each-map id (c ∷ cs) = rw (inject_each-map id cs)

inject_each_idem :
    (id : Identity) (cs : List Container)
    → inject_each id (inject_each id cs).0 ≡ ((inject_each id cs).0, false)
inject_each_idem id [] = refl
inject_each_idem id (c ∷ cs) = rw (inject_container_idem id c, inject_each_idem id cs)

ensure_projected_token_volume-named_or_token :
    (audience : Text) (pod : Pod)
    → any (named_or_token audience) (ensure_projected_token_volume audience pod).0.volumes ≡ true
unfolding ensure_projected_token_volume text_eq
ensure_projected_token_volume-named_or_token audience pod =
    elim (Bool-cases (any (named_or_token audience) pod.volumes)) [
      | inl there ↦ rw there there
      | inr missing ↦ rw (missing, any-append, missing)
    ]

inject_pod_of_done :
    (id : Identity) (audience : Text) (p : Pod)
    → any (named_or_token audience) p.volumes ≡ true
    → inject_each id p.init_containers ≡ (p.init_containers, false)
    → inject_each id p.containers ≡ (p.containers, false)
    → inject_pod id audience p ≡ (p, false)
unfolding inject_pod ensure_projected_token_volume
inject_pod_of_done id audience p served inits mains = rw (served, inits, mains)

ensure_projected_token_volume-containers :
    (audience : Text) (pod : Pod)
    → ((ensure_projected_token_volume audience pod).0.init_containers ≡ pod.init_containers)
      × ((ensure_projected_token_volume audience pod).0.containers ≡ pod.containers)
unfolding ensure_projected_token_volume
ensure_projected_token_volume-containers audience pod = ground arith

inject_pod_idem :
    (id : Identity) (audience : Text) (pod : Pod)
    → inject_pod id audience (inject_pod id audience pod).0
      ≡ ((inject_pod id audience pod).0, false)
unfolding inject_pod
inject_pod_idem id audience pod =
    inject_pod_of_done id audience _ (ensure_projected_token_volume-named_or_token audience pod)
      (inject_each_idem id _) (inject_each_idem id _)

-- A pod that has been mutated is left as it is by the same mutation.
pub mutate_pod_idem :
    (pod : Pod) (id : Identity) (audience : Text)
    → mutate_pod (mutate_pod pod id audience).0 id audience
      ≡ ((mutate_pod pod id audience).0, false)
unfolding mutate_pod
mutate_pod_idem pod id audience = elim (Bool-cases (complete id)) [
  | inr missing ↦ rw missing
  | inl whole ↦ elim (Bool-cases (is_empty (trim_space audience))) [
    | inl blank ↦ rw (whole, blank)
    | inr set ↦ rw (whole, set) (inject_pod_idem id (trim_space audience) pod)
  ]
]

-- With a complete identity and an audience that is not blank, a mutated pod has a volume with the name
-- of ours or with the token, and every container of both kinds is injected.
pub mutate_pod_lem :
    (pod : Pod) (id : Identity) (audience : Text)
    → complete id ≡ true
    → is_empty (trim_space audience) ≡ false
    → (any (named_or_token (trim_space audience)) (mutate_pod pod id audience).0.volumes ≡ true)
      × ((mutate_pod pod id audience).0.init_containers
          ≡ map (λ c. (inject_container id c).0) pod.init_containers)
      × ((mutate_pod pod id audience).0.containers
          ≡ map (λ c. (inject_container id c).0) pod.containers)
unfolding mutate_pod inject_pod
mutate_pod_lem pod id audience whole set =
    let (inits, mains) = ensure_projected_token_volume-containers (trim_space audience) pod in
    rw (whole, set)
      (
        ensure_projected_token_volume-named_or_token (trim_space audience) pod,
        inject_each-map id _ ∙ ap (map (λ c. (inject_container id c).0)) inits,
        inject_each-map id _ ∙ ap (map (λ c. (inject_container id c).0)) mains,
      )
