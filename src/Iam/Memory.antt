-- ===== src/Iam/Memory.antt =====
-- An IAM service that keeps its resources in lists and answers with all of them, like the fake of
-- internal/wif/ensure_test.go. Each creation takes the next identity, and an update is refused
-- unless exactly one federated identity has the identity that it names.
pub mod Deletion
pub mod Laws
use Prim.Native.Nat.{ℕ}
use thalassa_workload_identi.Common.{
  ◌+◌, ◌≡◌, Bool, true, false, not, Option, none, some, List, [], ◌∷◌, ◌++◌, map, any, ◌==◌,
  if◌then◌else◌,
}
use thalassa_workload_identi.Text.Eq.{Text, codes, text_eq}
use thalassa_workload_identi.Dict.{Dict}
use thalassa_workload_identi.Iam.Deletion.{without}
use thalassa_workload_identi.Iam.{
  FederatedIdentityProvider, ServiceAccount, FederatedIdentity, OrganisationRole, IamPolicy,
  Binding, CreateServiceAccountRequest, CreateFederatedIdentityRequest,
  UpdateFederatedIdentityRequest, CreateBindingRequest, Reply, answer, refusal, IamClient,
}

pub record Store : Type 0 where
  pub next : Text
  pub providers : List FederatedIdentityProvider
  pub accounts : List ServiceAccount
  pub identities : List FederatedIdentity
  pub roles : List OrganisationRole
  pub policies : List IamPolicy
  pub role_bindings : List (Text × Binding)
  pub policy_bindings : List (Text × Binding)

-- The bindings of one role or policy.
abbrev pub bindings_of : Text → List (Text × Binding) → List Binding
bindings_of id [] = []
bindings_of id ((owner, b) ∷ l) =
    let rest = bindings_of id l in if text_eq owner id then b ∷ rest else rest

abbrev pub without_binding : Text → Text → List (Text × Binding) → List (Text × Binding)
without_binding owner id [] = []
without_binding owner id ((o, b) ∷ l) =
    let rest = without_binding owner id l in
    if text_eq o owner
    then (if text_eq b.identity id then rest else (o, b) ∷ rest)
    else (o, b) ∷ rest

abbrev pub role_with : Text → List OrganisationRole → Reply (Option OrganisationRole)
role_with id [] = refusal (codes "not found")
role_with id (r ∷ l) = if text_eq r.identity id then answer (some r) else role_with id l

abbrev pub policy_with : Text → List IamPolicy → Reply (Option IamPolicy)
policy_with id [] = refusal (codes "not found")
policy_with id (p ∷ l) = if text_eq p.identity id then answer (some p) else policy_with id l

-- The next identity, one byte longer than the last.
abbrev pub after_next : Store → Text
after_next s = b'x' ∷ s.next

abbrev pub updated : UpdateFederatedIdentityRequest → FederatedIdentity → FederatedIdentity
updated r fi = record {
  identity = fi.identity;
  name = r.name;
  description = r.description;
  labels = r.labels;
  annotations = r.annotations;
  provider_subject = fi.provider_subject;
  trusted_audiences = r.trusted_audiences;
  audience_match_mode = r.audience_match_mode;
  allowed_scopes = r.allowed_scopes;
}

-- The federated identities that carry an identity, and the list with one of them updated.
abbrev pub count_identity : Text → List FederatedIdentity → ℕ
count_identity id [] = 0
count_identity id (fi ∷ l) =
    let rest = count_identity id l in if text_eq fi.identity id then rest + 1 else rest

abbrev pub update_in :
    Text → UpdateFederatedIdentityRequest → List FederatedIdentity → List FederatedIdentity
update_in id r [] = []
update_in id r (fi ∷ l) = (if text_eq fi.identity id then updated r fi else fi) ∷ update_in id r l

abbrev pub find_identity : Text → List FederatedIdentity → Option FederatedIdentity
find_identity id [] = none
find_identity id (fi ∷ l) = if text_eq fi.identity id then some fi else find_identity id l

abbrev pub update_identity :
    Text → UpdateFederatedIdentityRequest → Store → Reply FederatedIdentity × Store
update_identity id r s = elim (find_identity id s.identities) [
  | none ↦ (refusal (codes "not found"), s)
  | some fi ↦
      if count_identity id s.identities == 1
      then (answer (updated r fi), record s { identities = update_in id r s.identities })
      else (refusal (codes "ambiguous identity"), s)
]

abbrev pub new_account : CreateServiceAccountRequest → Store → ServiceAccount
new_account r s = record { identity = s.next; labels = r.labels }

abbrev pub new_identity : CreateFederatedIdentityRequest → Store → FederatedIdentity
new_identity r s = record {
  identity = s.next;
  name = r.name;
  description = r.description;
  labels = r.labels;
  annotations = r.annotations;
  provider_subject = r.provider_subject;
  trusted_audiences = r.trusted_audiences;
  audience_match_mode = r.audience_match_mode;
  allowed_scopes = r.allowed_scopes;
}

abbrev pub new_binding : CreateBindingRequest → Store → Binding
new_binding r s = record {
  identity = s.next;
  labels = r.labels;
  service_account = some r.service_account_identity;
}

abbrev pub memory_client : IamClient
memory_client = record {
  State = Store;
  list_federated_identity_providers = λ _ s. (answer s.providers, s);
  list_service_accounts = λ _ s. (answer s.accounts, s);
  create_service_account = λ r s. (
    answer (new_account r s),
    record s { next = after_next s; accounts = s.accounts ++ new_account r s ∷ [] },
  );
  delete_service_account = λ id s. (
    answer tt,
    record s { accounts = without (λ (sa : ServiceAccount). sa.identity) id s.accounts },
  );
  list_federated_identities = λ _ s. (answer s.identities, s);
  create_federated_identity = λ r s. (
    answer (new_identity r s),
    record s { next = after_next s; identities = s.identities ++ new_identity r s ∷ [] },
  );
  update_federated_identity = update_identity;
  delete_federated_identity = λ id s. (
    answer tt,
    record s { identities = without (λ (fi : FederatedIdentity). fi.identity) id s.identities },
  );
  get_organisation_role = λ id s. (role_with id s.roles, s);
  list_organisation_roles = λ s. (answer s.roles, s);
  list_role_bindings = λ id s. (answer (bindings_of id s.role_bindings), s);
  create_role_binding = λ id r s. (
    answer (new_binding r s),
    record s { next = after_next s; role_bindings = (id, new_binding r s) ∷ s.role_bindings },
  );
  delete_role_binding = λ owner id s.
      (answer tt, record s { role_bindings = without_binding owner id s.role_bindings });
  list_iam_policies = λ s. (answer s.policies, s);
  get_iam_policy = λ id s. (policy_with id s.policies, s);
  list_iam_policy_bindings = λ id s. (answer (bindings_of id s.policy_bindings), s);
  create_iam_policy_binding = λ id r s. (
    answer (new_binding r s),
    record s { next = after_next s; policy_bindings = (id, new_binding r s) ∷ s.policy_bindings },
  );
  delete_iam_policy_binding = λ owner id s.
      (answer tt, record s { policy_bindings = without_binding owner id s.policy_bindings });
}
