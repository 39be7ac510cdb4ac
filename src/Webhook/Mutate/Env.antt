-- ===== src/Webhook/Mutate/Env.antt =====
-- The environment of a container after injection.
use thalassa_workload_identi.Common.{
  ◌≡◌, refl, Bool, true, false, Option, none, some, List, [], ◌∷◌, ◌++◌, any, arith, if◌then◌else◌,
  Bool-cases, inl, inr,
}
use thalassa_workload_identi.Text.Eq.{Text, text_eq, text_eq_iff, is_empty}
use thalassa_workload_identi.Dict.{Dict, lookup}
use thalassa_workload_identi.Wif.Keys.{
  env_organisation_id, env_service_account_id, env_project_id, env_subject_token_file,
  default_subject_token_file,
}
use thalassa_workload_identi.Webhook.Pod.{EnvVar, Container}
use thalassa_workload_identi.Webhook.Mutate.{
  Identity, has_env, ensure_env, ensure_volume_mount, inject_container,
}

abbrev pub or_else : Option Text → Option Text → Option Text
or_else (some v) o = some v
or_else none o = o

-- The value of the first variable with a name.
abbrev pub env_value : Text → List EnvVar → Option Text
env_value n [] = none
env_value n (e ∷ env) = if text_eq e.name n then some e.value else env_value n env

-- The variables that an identity gives to a container.
abbrev pub injected_env : Identity → Dict
injected_env id =
    (env_organisation_id, id.organisation_id)
    ∷ (env_service_account_id, id.service_account_id)
    ∷ (if is_empty id.project_id
        then (env_subject_token_file, default_subject_token_file) ∷ []
        else (env_project_id, id.project_id)
          ∷ (env_subject_token_file, default_subject_token_file)
          ∷ [])

or_else-none : (o : Option Text) → or_else o none ≡ o
or_else-none none = refl
or_else-none (some v) = refl

abbrev when : Bool → Text → Option Text → Option Text
when b v o = if b then some v else o

or_else-three :
    (o : Option Text) (a b c : Bool) (u v w : Text)
    → or_else (or_else (or_else o (when a u none)) (when b v none)) (when c w none)
      ≡ or_else o (when a u (when b v (when c w none)))
or_else-three (some x) a b c u v w = refl
or_else-three none true b c u v w = refl
or_else-three none false true c u v w = refl
or_else-three none false false c u v w = refl

or_else-four :
    (o : Option Text) (a b c d : Bool) (u v w x : Text)
    → or_else
        (or_else (or_else (or_else o (when a u none)) (when b v none)) (when c w none))
        (when d x none)
      ≡ or_else o (when a u (when b v (when c w (when d x none))))
or_else-four (some y) a b c d u v w x = refl
or_else-four none true b c d u v w x = refl
or_else-four none false true c d u v w x = refl
or_else-four none false false true d u v w x = refl
or_else-four none false false false d u v w x = refl

env_value-append :
    (n : Text) (xs ys : List EnvVar)
    → env_value n (xs ++ ys) ≡ or_else (env_value n xs) (env_value n ys)
env_value-append n [] ys = refl
env_value-append n (e ∷ xs) ys = ground (arith, env_value-append n xs ys)

env_value-some :
    (n : Text) (xs : List EnvVar)
    → any (λ (e : EnvVar). text_eq e.name n) xs ≡ true
    → (v : Text) × (env_value n xs ≡ some v)
env_value-some n [] h = cc
env_value-some n (e ∷ xs) h = elim (Bool-cases (text_eq e.name n)) [
  | inl same ↦ (e.value, rw same)
  | inr other ↦ let (v, there) = env_value-some n xs (rw other at h) in (v, rw other there)
]

-- A variable that is there keeps its value; one that is not gets the value that is given.
ensure_env_lem :
    (n m v : Text) (c : Container)
    → env_value n (ensure_env m v c).0.env
      ≡ or_else (env_value n c.env) (if text_eq m n then some v else none)
unfolding ensure_env
ensure_env_lem n m v c = elim (Bool-cases (has_env m c)) [
  | inl there ↦ elim (Bool-cases (text_eq m n)) [
    | inl same ↦
        let (w, found) = env_value-some m c.env there in
        rw (there, same, ← (text_eq_iff m n).0 same, found)
    | inr other ↦ rw (there, other, or_else-none)
  ]
  | inr missing ↦ rw missing (env_value-append n c.env _)
]

ensure_volume_mount_env : (c : Container) → (ensure_volume_mount c).0.env ≡ c.env
unfolding ensure_volume_mount
ensure_volume_mount_env c = ground arith

-- After injection a variable has the value that it had before, and else the injected one.
pub inject_container_env :
    (id : Identity) (c : Container) (n : Text)
    → env_value n (inject_container id c).0.env
      ≡ or_else (env_value n c.env) (lookup n (injected_env id))
unfolding inject_container lookup
inject_container_env id c n = elim (Bool-cases (is_empty id.project_id)) [
  | inl none_set ↦ rw none_set (
      rw (ensure_volume_mount_env, ensure_env_lem)
        (rw (ensure_env_lem, ensure_env_lem) (or_else-three _ _ _ _ _ _ _)))
  | inr set ↦ rw set (
      rw (ensure_volume_mount_env, ensure_env_lem)
        (rw (ensure_env_lem, ensure_env_lem, ensure_env_lem) (or_else-four _ _ _ _ _ _ _ _ _)))
]
