-- ===== src/Wif/Examples.antt =====
-- The pure functions of internal/wif on single inputs.
use thalassa_workload_identi.Common.{◌≡◌, refl, ◌↔◌, ◌∷◌, false, none, List, []}
use thalassa_workload_identi.Text.Eq.{Text, codes, text_eq, contains_byte}
use thalassa_workload_identi.Text.Trim.{trim_space}
use thalassa_workload_identi.Dict.{Dict}
use thalassa_workload_identi.Errors.{ok}
use thalassa_workload_identi.Iam.{FederatedIdentity, IamPolicy}
use thalassa_workload_identi.Wif.Keys.{annotation_provider_subject}
use thalassa_workload_identi.Wif.Subject.{build_kubernetes_subject, normalize_issuer}
use thalassa_workload_identi.Wif.Subject.Laws.{resource_key_input-injective}
use thalassa_workload_identi.Wif.Scopes.{
  known_scope, parse_scopes_from, or_open_id, parse_scope_list,
}
use thalassa_workload_identi.Wif.Scopes.Laws.{IsScopeList, parse_scope_list-IsScopeList}
use thalassa_workload_identi.Wif.Find.{
  cluster_labels, scan_providers, one_provider, or_policy_not_found, policy_alias, scan_policies,
}
use thalassa_workload_identi.Wif.Find.Laws.{
  matching, the_only, one_provider-scan_providers, first_policy, or_policy, scan_policies_lem,
}
use thalassa_workload_identi.Text.Fold.{equal_fold}
use thalassa_workload_identi.Wif.Ensure.{fi_needs_update}
use thalassa_workload_identi.Wif.Ensure.Laws.{IsCurrent, fi_needs_update_iff}
use thalassa_workload_identi.Wif.Tests.{constants, cluster, provider}

abbrev prod : Text
prod = codes "prod"

abbrev api : Text
api = codes " api"

abbrev issuer : Text
issuer = codes "https://issuer.example/"

built : build_kubernetes_subject prod api ≡ ok (codes "system:serviceaccount:prod:api")
unfolding build_kubernetes_subject trim_space contains_byte
built = refl

no_colon : contains_byte b':' (trim_space prod) ≡ false
unfolding trim_space contains_byte
no_colon = refl

no_line_break : contains_byte b'\n' (trim_space api) ≡ false
unfolding trim_space contains_byte
no_line_break = refl

resource_key_input-injective_example :
    (trim_space prod ≡ trim_space prod)
    × (trim_space api ≡ trim_space api)
    × (normalize_issuer issuer ≡ normalize_issuer issuer)
resource_key_input-injective_example =
    resource_key_input-injective prod api issuer prod api issuer built built no_line_break
      no_line_break refl

abbrev want : Dict
want = cluster_labels cluster

abbrev parts : List Text
parts = codes " kubernetes" ∷ [] ∷ codes "openid" ∷ codes "kubernetes" ∷ []

parsed : parse_scope_list constants parts ≡ ok (codes "kubernetes" ∷ codes "openid" ∷ [])
unfolding parse_scope_list parse_scopes_from or_open_id known_scope trim_space text_eq
parsed = refl

parse_scope_list-IsScopeList_example :
    IsScopeList constants parts (codes "kubernetes" ∷ codes "openid" ∷ [])
parse_scope_list-IsScopeList_example =
    parse_scope_list-IsScopeList constants parts (codes "kubernetes" ∷ codes "openid" ∷ []) parsed

one_provider-scan_providers_example :
    one_provider cluster (scan_providers want (provider ∷ provider ∷ []) 0 none)
    ≡ the_only cluster (matching want (provider ∷ provider ∷ []))
one_provider-scan_providers_example =
    one_provider-scan_providers cluster want (provider ∷ provider ∷ [])

abbrev policies : List IamPolicy
policies =
    record { identity = codes "pol-1"; slug = codes "write"; name = codes "Write" }
    ∷ record { identity = codes "write"; slug = codes "other"; name = codes "Other" }
    ∷ []

scan_policies_lem_example :
    scan_policies (codes "write") policies none
    ≡ or_policy_not_found (codes "write") (
        or_policy
          (first_policy (λ p. equal_fold p.identity (codes "write")) policies)
          (first_policy (policy_alias (codes "write")) policies))
scan_policies_lem_example = scan_policies_lem (codes "write") policies

abbrev identity : FederatedIdentity
identity = record {
  identity = codes "fi-1";
  name = codes "wif";
  description = codes "d";
  labels = want;
  annotations = (annotation_provider_subject, codes "s") ∷ [];
  provider_subject = codes "s";
  trusted_audiences = codes "a" ∷ codes "b" ∷ [];
  audience_match_mode = [];
  allowed_scopes = codes "openid" ∷ [];
}

fi_needs_update_iff_example :
    (fi_needs_update constants identity
        (codes "wif")
        (codes "d")
        (codes "s")
        (codes "openid" ∷ [])
        (codes "b" ∷ codes "a" ∷ [])
        want
      ≡ false)
    ↔ IsCurrent constants identity
        (codes "wif")
        (codes "d")
        (codes "s")
        (codes "openid" ∷ [])
        (codes "b" ∷ codes "a" ∷ [])
        want
fi_needs_update_iff_example =
    fi_needs_update_iff constants identity (codes "wif") (codes "d") (codes "s")
      (codes "openid" ∷ []) (codes "b" ∷ codes "a" ∷ []) want
