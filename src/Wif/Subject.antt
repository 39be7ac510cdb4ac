-- ===== src/Wif/Subject.antt =====
-- The subject, the resource key and the display names of internal/wif/subject.go.
pub mod Laws
use thalassa_workload_identi.Common.{
  ℕ, ◌≡◌, Bool, true, false, not, ◌&&◌, ◌||◌, List, [], ◌∷◌, ◌++◌, length, take, ltb, if◌then◌else◌,
}
use thalassa_workload_identi.Text.Eq.{Text, codes, is_empty, contains_byte, cut}
use thalassa_workload_identi.Text.Trim.{trim_space, trim_suffix}
use thalassa_workload_identi.Text.Fold.{to_lower}
use thalassa_workload_identi.Sha256.{sum256, hex_encode}
use thalassa_workload_identi.Errors.{
  Error, names_required, names_contain_slash, Result, ok, err, fail_if, ◌>>=◌, ◌>>◌,
}
use thalassa_workload_identi.Wif.Keys.{value_vcs_kubernetes}

abbrev pub subject_prefix : Text
subject_prefix = codes "system:serviceaccount:"

unfoldable pub build_kubernetes_subject : Text → Text → Result Text
build_kubernetes_subject namespace name =
    let ns = trim_space namespace in
    let n = trim_space name in
    if is_empty ns || is_empty n
    then err names_required
    else if contains_byte b'/' ns || contains_byte b'/' n
    then err names_contain_slash
    else ok (subject_prefix ++ ns ++ b':' ∷ n)

unfoldable pub normalize_issuer : Text → Text
normalize_issuer issuer = trim_suffix (trim_space issuer) (codes "/")

-- What is hashed: kubernetes, the repository, the subject and the issuer, a line each.
unfoldable pub resource_key_input : Text → Text → Text → Text → Text
unfolding normalize_issuer
resource_key_input namespace sa_name subject issuer =
    to_lower value_vcs_kubernetes
    ++ b'\n' ∷ (trim_space namespace ++ b'/' ∷ trim_space sa_name)
    ++ b'\n' ∷ subject
    ++ b'\n' ∷ normalize_issuer issuer

unfoldable pub resource_key : Text → Text → Text → Text → Text
unfolding resource_key_input
resource_key namespace sa_name subject issuer =
    hex_encode (take 8 (sum256 (resource_key_input namespace sa_name subject issuer)))

unfoldable pub sanitize_name : Text → Text
sanitize_name s = cut 200 (trim_space s)

-- The display names of the service account and of the federated identity.
unfoldable pub default_resource_names : Text → Text → Text × Text
unfolding sanitize_name
default_resource_names key override =
    let o = trim_space override in
    if not (is_empty o) then (sanitize_name o, sanitize_name (o ++ codes "-fi")) else (
      sanitize_name (codes "wif-k8s-" ++ key),
      sanitize_name (codes "wif-k8s-" ++ key ++ codes "-fi"),
    )
