-- ===== src/Errors.antt =====
-- Errors as values: one constructor for each message of the program, and the result of a call.
pub mod Message
use thalassa_workload_identi.Common.{◌≡◌, refl, ◌⊎◌, inl, inr, Bool, true, false}
use thalassa_workload_identi.Text.Eq.{Text}

-- What an error was wrapped with, by `fmt.Errorf("...: %w", err)`.
pub data Context : Type 0 where
  list_organisation_roles list_iam_policies : Context
  delete_federated_identity delete_service_account : Context
  list_role_bindings delete_role_binding : Context
  list_iam_policy_bindings delete_iam_policy_binding : Context
  resolve_provider_for_delete thalassa_url_invalid webhook_audience_invalid create_thalassa_client :
      Context
  tls_crt_not_ready tls_key_not_ready : Context

pub data Error : Type 0 where
  -- internal/wif/ensure.go
  cluster_identity_required : Error
  provider_not_ready : Text → Error
  multiple_providers : Text → Error
  empty_issuer : Text → Error
  kubernetes_names_required : Error
  policy_or_role_required : Error
  wildcard_ref : Error
  trusted_audiences_required : Error
  scopes_required : Error
  role_not_found : Text → Error
  policy_ref_required : Error
  policy_not_found : Text → Error
  -- internal/wif/subject.go
  names_required : Error
  names_contain_slash : Error
  wildcard_scope : Error
  unsupported_scope : Text → Error
  -- internal/config
  not_in_allowlist : Text → Text → Error
  component_required : Error
  option_required : Text → Error
  option_not_positive : Text → Error
  -- internal/controller
  provider_empty_issuer : Text → Error
  binding_names_required : Error
  policy_ref_or_role_ref_required : Error
  organisation_id_required : Error
  service_account_id_required : Error
  -- An error of the Kubernetes API for which `apierrors.IsNotFound` holds, by its message.
  not_found : Text → Error
  -- Any other error that code outside the repository returned, by its message.
  remote : Text → Error
  wrapped : Context → Error → Error

pub data Result (A : Type 0) : Type 0 where
  ok : A → Result A
  err : Error → Result A

infixl 5 ◌>>=◌ ◌>>◌
abbrev pub ◌>>=◌ : {A B : Type 0} → Result A → (A → Result B) → Result B
ok a >>= f = f a
err e >>= f = err e

abbrev pub ◌>>◌ : {B : Type 0} → Result (Unit {0}) → Result B → Result B
m >> k = m >>= λ _. k

-- `if bad { return err }`
abbrev pub fail_if : Bool → Error → Result (Unit {0})
fail_if true e = err e
fail_if false e = ok tt

-- `errors.As(err, &notReady)` looks through what an error was wrapped with.
unfoldable pub is_provider_not_ready : Error → Bool
is_provider_not_ready (provider_not_ready _) = true
is_provider_not_ready (wrapped _ e) = is_provider_not_ready e
is_provider_not_ready _ = false

pub Result-cases :
    {A : Type 0} (r : Result A) → ((a : A) × (r ≡ ok a)) ⊎ ((e : Error) × (r ≡ err e))
Result-cases (ok a) = inl (a, refl)
Result-cases (err e) = inr (e, refl)
