-- ===== src/Webhook/Mutate/Mounts.antt =====
-- Whether the volume mounts of a mutated pod refer to volumes of the pod.
use thalassa_workload_identi.Common.{
  ◌≡◌, refl, Bool, true, false, ◌&&◌, ◌||◌, List, [], ◌∷◌, ◌++◌, any, all, map, any-append, arith,
  if◌then◌else◌, Bool-cases, inl, inr,
}
use thalassa_workload_identi.Text.Eq.{Text, text_eq, is_empty}
use thalassa_workload_identi.Text.Trim.{trim_space}
use thalassa_workload_identi.Wif.Keys.{projected_volume_name}
use thalassa_workload_identi.Webhook.Pod.{VolumeMount, Container, Volume, Pod}
use thalassa_workload_identi.Webhook.Mutate.{
  Identity, complete, ensure_env, mounts_token, token_mount, ensure_volume_mount, inject_container,
  named_or_token, volume_has_thalassa_token, token_volume, ensure_projected_token_volume,
  mutate_pod, inject_pod,
}
use thalassa_workload_identi.Webhook.Mutate.Laws.{mutate_pod_lem}

abbrev pub named : Text → List Volume → Bool
named name vs = any (λ (v : Volume). text_eq v.name name) vs

-- Every mount of every container refers to a volume.
abbrev pub resolves : List Volume → Container → Bool
resolves vs c = all (λ (m : VolumeMount). named m.name vs) c.volume_mounts

abbrev pub well_mounted : Pod → Bool
well_mounted pod =
    all (resolves pod.volumes) pod.init_containers && all (resolves pod.volumes) pod.containers

abbrev mounts_after : Container → List VolumeMount
mounts_after c =
    if any mounts_token c.volume_mounts
    then c.volume_mounts
    else c.volume_mounts ++ (token_mount ∷ [])

ensure_env_mounts :
    (n v : Text) (c : Container) → (ensure_env n v c).0.volume_mounts ≡ c.volume_mounts
unfolding ensure_env
ensure_env_mounts n v c = ground arith

ensure_volume_mount_lem : (c : Container) → (ensure_volume_mount c).0.volume_mounts ≡ mounts_after c
unfolding ensure_volume_mount
ensure_volume_mount_lem c = ground arith

inject_container_mounts :
    (id : Identity) (c : Container) → (inject_container id c).0.volume_mounts ≡ mounts_after c
unfolding inject_container
inject_container_mounts id c = elim (Bool-cases (is_empty id.project_id)) [
  | inl none_set ↦
      rw (none_set, ensure_volume_mount_lem)
        (rw (ensure_env_mounts) (rw (ensure_env_mounts) (rw ensure_env_mounts)))
  | inr set ↦
      rw (set, ensure_volume_mount_lem)
        (rw (ensure_env_mounts)
          (rw (ensure_env_mounts) (rw (ensure_env_mounts) (rw ensure_env_mounts))))
]

all-append :
    {A : Type 0} (p : A → Bool) (xs ys : List A) → all p (xs ++ ys) ≡ (all p xs && all p ys)
all-append p [] ys = refl
all-append p (x ∷ xs) ys = ground (arith, all-append p xs ys)

module _ (vs us : List Volume) (more : (n : Text) → named n vs ≡ true → named n us ≡ true)
    (there : named projected_volume_name us ≡ true) where
  -- More volumes resolve no fewer mounts.
  resolves-more :
      (ms : List VolumeMount)
      → all (λ (m : VolumeMount). named m.name vs) ms ≡ true
      → all (λ (m : VolumeMount). named m.name us) ms ≡ true
  resolves-more [] h = refl
  resolves-more (m ∷ ms) h = ground (arith, resolves-more ms, more m.name)

  inject_container-resolves :
      (id : Identity) (c : Container)
      → resolves vs c ≡ true
      → resolves us (inject_container id c).0 ≡ true
  inject_container-resolves id c h = elim (Bool-cases (any mounts_token c.volume_mounts)) [
    | inl mounted ↦ rw (inject_container_mounts, mounted) (resolves-more c.volume_mounts h)
    | inr unmounted ↦
        rw (inject_container_mounts, unmounted, all-append, resolves-more c.volume_mounts h, there)
  ]

  inject_each-resolves :
      (id : Identity) (cs : List Container)
      → all (resolves vs) cs ≡ true
      → all (resolves us) (map (λ c. (inject_container id c).0) cs) ≡ true
  inject_each-resolves id [] h = refl
  inject_each-resolves id (c ∷ cs) h =
      ground (arith, inject_each-resolves id cs, inject_container-resolves id c)

-- The volumes of a mutated pod.
abbrev pub volumes_after : Text → List Volume → List Volume
volumes_after audience vs =
    if any (named_or_token audience) vs then vs else vs ++ (token_volume audience ∷ [])

pub mutate_pod-volumes :
    (pod : Pod) (id : Identity) (audience : Text)
    → complete id ≡ true
    → is_empty (trim_space audience) ≡ false
    → (mutate_pod pod id audience).0.volumes ≡ volumes_after (trim_space audience) pod.volumes
unfolding mutate_pod inject_pod ensure_projected_token_volume
mutate_pod-volumes pod id audience whole set =
    elim (Bool-cases (any (named_or_token (trim_space audience)) pod.volumes)) [
      | inl there ↦ rw (whole, set, there)
      | inr missing ↦ rw (whole, set, missing)
    ]

-- Some volume has the name or the token exactly when some has the name or some has the token.
pub named_or_token-split :
    (audience : Text) (vs : List Volume)
    → any (named_or_token audience) vs
      ≡ (named projected_volume_name vs || any (volume_has_thalassa_token audience) vs)
named_or_token-split audience [] = refl
named_or_token-split audience (v ∷ vs) = ground (arith, named_or_token-split audience vs)

volumes_after-more :
    (audience : Text) (vs : List Volume) (n : Text)
    → named n vs ≡ true
    → named n (volumes_after audience vs) ≡ true
volumes_after-more audience vs n h = elim (Bool-cases (any (named_or_token audience) vs)) [
  | inl served ↦ rw served h
  | inr missing ↦ rw (missing, any-append, h)
]

volumes_after-named :
    (audience : Text) (vs : List Volume)
    → any (volume_has_thalassa_token audience) vs ≡ false
    → named projected_volume_name (volumes_after audience vs) ≡ true
unfolding text_eq
volumes_after-named audience vs h = elim (Bool-cases (any (named_or_token audience) vs)) [
  | inl served ↦ rw served (ground (arith, named_or_token-split audience vs))
  | inr missing ↦ rw (missing, any-append) (ground (arith, named_or_token-split audience vs))
]

both :
    {a b c d : Bool}
    → (a && b) ≡ true
    → (a ≡ true → c ≡ true)
    → (b ≡ true → d ≡ true)
    → (c && d) ≡ true
both h f g = ground arith

-- With a complete identity and an audience that is not blank: if every mount of a pod refers to a
-- volume, and no volume brings the token already, then after the mutation every mount refers to a
-- volume.
pub mutate_pod-well_mounted :
    (pod : Pod) (id : Identity) (audience : Text)
    → complete id ≡ true
    → is_empty (trim_space audience) ≡ false
    → any (volume_has_thalassa_token (trim_space audience)) pod.volumes ≡ false
    → well_mounted pod ≡ true
    → well_mounted (mutate_pod pod id audience).0 ≡ true
mutate_pod-well_mounted pod id audience whole set alone ok =
    let us = volumes_after (trim_space audience) pod.volumes in
    let (_, inits, mains) = mutate_pod_lem pod id audience whole set in
    let more = volumes_after-more (trim_space audience) pod.volumes in
    let there = volumes_after-named (trim_space audience) pod.volumes alone in
    let in_inits = inject_each-resolves pod.volumes us more there id pod.init_containers in
    let in_mains = inject_each-resolves pod.volumes us more there id pod.containers in
    rw (mutate_pod-volumes pod id audience whole set, inits, mains) (both ok in_inits in_mains)

-- With a complete identity and an audience that is not blank: if a volume brings the token, none has
-- the webhook's name for it, and the first container does not mount the token, then some mount of the
-- mutated pod refers to no volume.
pub mutate_pod-dangling :
    (pod : Pod) (id : Identity) (audience : Text) (c : Container) (cs : List Container)
    → complete id ≡ true
    → is_empty (trim_space audience) ≡ false
    → any (volume_has_thalassa_token (trim_space audience)) pod.volumes ≡ true
    → named projected_volume_name pod.volumes ≡ false
    → pod.containers ≡ c ∷ cs
    → any mounts_token c.volume_mounts ≡ false
    → well_mounted (mutate_pod pod id audience).0 ≡ false
mutate_pod-dangling pod id audience c cs whole set token unnamed first unmounted =
    let served = named_or_token-split (trim_space audience) pod.volumes in
    let (_, _, mains) = mutate_pod_lem pod id audience whole set in
    rw (mutate_pod-volumes pod id audience whole set, mains, served, token, unnamed, first)
      (rw (inject_container_mounts, unmounted) (rw (all-append, unnamed) (ground arith)))
