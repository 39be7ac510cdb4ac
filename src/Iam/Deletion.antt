-- ===== src/Iam/Deletion.antt =====
-- What the program relies on of deletions in a lawful IAM service: a deletion that is answered takes
-- what carries the identity out of the view, and nothing else.
use thalassa_workload_identi.Common.{◌≡◌, List, [], ◌∷◌, if◌then◌else◌}
use thalassa_workload_identi.Text.Eq.{Text, text_eq}
use thalassa_workload_identi.Iam.{ServiceAccount, FederatedIdentity, Binding, answer, IamClient}
use thalassa_workload_identi.Iam.Laws.{View, IsLawful}

abbrev pub without : {A : Type 0} → (A → Text) → Text → List A → List A
without identity id [] = []
without identity id (a ∷ l) =
    let rest = without identity id l in if text_eq (identity a) id then rest else a ∷ rest

abbrev pub drop_account : Text → View → View
drop_account id v = record v {
  accounts = λ want. without (λ (sa : ServiceAccount). sa.identity) id (v.accounts want);
}

abbrev pub drop_identity : Text → View → View
drop_identity id v = record v {
  identities = λ want. without (λ (fi : FederatedIdentity). fi.identity) id (v.identities want);
}

-- Of the bindings by owner, those of one owner without an identity.
abbrev pub unbind : Text → Text → (Text → List Binding) → Text → List Binding
unbind owner id bindings p =
    if text_eq owner p then without (λ (b : Binding). b.identity) id (bindings p) else bindings p

abbrev pub drop_role_binding : Text → Text → View → View
drop_role_binding role id v = record v { role_bindings = unbind role id v.role_bindings }

abbrev pub drop_policy_binding : Text → Text → View → View
drop_policy_binding policy id v = record v { policy_bindings = unbind policy id v.policy_bindings }

pub record IsDeleting (c : IamClient) (L : IsLawful c) : Type 0 where
  pub delete_account :
      (id : Text) (s : c.State) {x : Unit {0}} {t : c.State}
      → c.delete_service_account id s ≡ (answer x, t)
      → L.view t ≡ drop_account id (L.view s)
  pub delete_identity :
      (id : Text) (s : c.State) {x : Unit {0}} {t : c.State}
      → c.delete_federated_identity id s ≡ (answer x, t)
      → L.view t ≡ drop_identity id (L.view s)
  pub delete_role_binding :
      (role id : Text) (s : c.State) {x : Unit {0}} {t : c.State}
      → c.delete_role_binding role id s ≡ (answer x, t)
      → L.view t ≡ drop_role_binding role id (L.view s)
  pub delete_policy_binding :
      (policy id : Text) (s : c.State) {x : Unit {0}} {t : c.State}
      → c.delete_iam_policy_binding policy id s ≡ (answer x, t)
      → L.view t ≡ drop_policy_binding policy id (L.view s)
