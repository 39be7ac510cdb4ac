-- ===== src/Iam.antt =====
-- The IAM API as internal/wif uses it: the fields of its resources and requests that the program
-- reads or writes, the interface `IAMClient`, and the monad of a call that may fail. The client is
-- code of github.com/thalassa-cloud/client-go, so it is a parameter over an unknown state.
pub mod Deletion
pub mod Laws
pub mod Memory
pub mod Monad
use thalassa_workload_identi.Common.{Option, List}
use thalassa_workload_identi.Text.Eq.{Text}
use thalassa_workload_identi.Dict.{Dict}

pub record FederatedIdentityProvider : Type 0 where
  pub identity : Text
  pub provider_issuer : Text
  pub labels : Dict

pub record ServiceAccount : Type 0 where
  pub identity : Text
  pub labels : Dict

pub record FederatedIdentity : Type 0 where
  pub identity : Text
  pub name : Text
  pub description : Text
  pub labels : Dict
  pub annotations : Dict
  pub provider_subject : Text
  pub trusted_audiences : List Text
  pub audience_match_mode : Text
  pub allowed_scopes : List Text

pub record OrganisationRole : Type 0 where
  pub identity : Text
  pub slug : Text
  pub name : Text

pub record IamPolicy : Type 0 where
  pub identity : Text
  pub slug : Text
  pub name : Text

-- A role or policy binding. Of its service account only the identity is read, if there is one.
pub record Binding : Type 0 where
  pub identity : Text
  pub labels : Dict
  pub service_account : Option Text

pub record CreateServiceAccountRequest : Type 0 where
  pub name : Text
  pub description : Text
  pub labels : Dict
  pub annotations : Dict

pub record CreateFederatedIdentityRequest : Type 0 where
  pub name : Text
  pub description : Text
  pub labels : Dict
  pub annotations : Dict
  pub service_account_identity : Text
  pub provider_identity : Text
  pub provider_subject : Text
  pub trusted_audiences : List Text
  pub audience_match_mode : Text
  pub allowed_scopes : List Text

pub record UpdateFederatedIdentityRequest : Type 0 where
  pub name : Text
  pub description : Text
  pub labels : Dict
  pub annotations : Dict
  pub trusted_audiences : List Text
  pub audience_match_mode : Text
  pub allowed_scopes : List Text

pub record CreateBindingRequest : Type 0 where
  pub name : Text
  pub description : Text
  pub labels : Dict
  pub service_account_identity : Text

-- What the API answers: a value, or an error by its message.
pub data Reply (A : Type 0) : Type 0 where
  answer : A → Reply A
  refusal : Text → Reply A

-- `IAMClient`. A list request with labels carries the filter on them. A lookup may answer with
-- nothing, which is Go's nil beside a nil error.
pub record IamClient : Type 1 where
  pub State : Type 0
  pub list_federated_identity_providers :
      Dict → State → Reply (List FederatedIdentityProvider) × State
  pub list_service_accounts : Dict → State → Reply (List ServiceAccount) × State
  pub create_service_account : CreateServiceAccountRequest → State → Reply ServiceAccount × State
  pub delete_service_account : Text → State → Reply (Unit {0}) × State
  pub list_federated_identities : Dict → State → Reply (List FederatedIdentity) × State
  pub create_federated_identity :
      CreateFederatedIdentityRequest → State → Reply FederatedIdentity × State
  pub update_federated_identity :
      Text → UpdateFederatedIdentityRequest → State → Reply FederatedIdentity × State
  pub delete_federated_identity : Text → State → Reply (Unit {0}) × State
  pub get_organisation_role : Text → State → Reply (Option OrganisationRole) × State
  pub list_organisation_roles : State → Reply (List OrganisationRole) × State
  pub list_role_bindings : Text → State → Reply (List Binding) × State
  pub create_role_binding : Text → CreateBindingRequest → State → Reply Binding × State
  pub delete_role_binding : Text → Text → State → Reply (Unit {0}) × State
  pub list_iam_policies : State → Reply (List IamPolicy) × State
  pub get_iam_policy : Text → State → Reply (Option IamPolicy) × State
  pub list_iam_policy_bindings : Text → State → Reply (List Binding) × State
  pub create_iam_policy_binding : Text → CreateBindingRequest → State → Reply Binding × State
  pub delete_iam_policy_binding : Text → Text → State → Reply (Unit {0}) × State
