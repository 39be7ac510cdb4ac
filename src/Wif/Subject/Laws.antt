-- ===== src/Wif/Subject/Laws.antt =====
-- What the subject, the resource key and the display names determine.
use thalassa_workload_identi.Common.{
  ℕ, ◌≤◌, ◌≡◌, refl, sym, ◌∙◌, ◌≢◌, ◌↔◌, false, [], ◌∷◌, ◌++◌, arith, length, All, length-take,
}
use mathlib.Core.List.{append_assoc}
use thalassa_workload_identi.Text.Eq.{Text, codes, is_empty_iff, contains_byte, length-cut-le}
use thalassa_workload_identi.Text.Fold.{to_lower}
use thalassa_workload_identi.Wif.Keys.{value_vcs_kubernetes}
use thalassa_workload_identi.Text.Trim.{trim_space}
use thalassa_workload_identi.Sha256.{sum256}
use thalassa_workload_identi.Sha256.Laws.{
  IsHexDigit, length-sum256, sum256-IsByte, take-IsByte, length-hex_encode, hex_encode-IsHexDigit,
}
use thalassa_workload_identi.Errors.{ok}
use thalassa_workload_identi.Wif.Subject.{
  subject_prefix, build_kubernetes_subject, normalize_issuer, resource_key_input, resource_key,
  sanitize_name, default_resource_names,
}

append_cancel_left : (p s t : Text) → p ++ s ≡ p ++ t → s ≡ t
append_cancel_left [] s t e = e
append_cancel_left (c ∷ p) s t e = append_cancel_left p s t (cc)

cons_injective : {c d : ℕ} {s t : Text} → c ∷ s ≡ d ∷ t → s ≡ t
cons_injective e = cc

-- Two texts that are followed by a byte which neither holds.
split_at_byte :
    (c : ℕ) (s s' t t' : Text)
    → contains_byte c s ≡ false
    → contains_byte c s' ≡ false
    → s ++ c ∷ t ≡ s' ++ c ∷ t'
    → (s ≡ s') × (t ≡ t')
unfolding contains_byte
split_at_byte c [] [] t t' h h' e = (refl, cc)
split_at_byte c [] (d ∷ s') t t' h h' e = ground arith
split_at_byte c (d ∷ s) [] t t' h h' e = ground arith
split_at_byte c (d ∷ s) (d' ∷ s') t t' h h' e = ground (arith, split_at_byte c s s' t t')

-- A subject is built exactly of two names that are not blank and hold no slash.
pub build_kubernetes_subject_iff :
    (namespace name subject : Text)
    → (build_kubernetes_subject namespace name ≡ ok subject) ↔ (
        (trim_space namespace ≢ [])
        × (trim_space name ≢ [])
        × (contains_byte b'/' (trim_space namespace) ≡ false)
        × (contains_byte b'/' (trim_space name) ≡ false)
        × (subject ≡ subject_prefix ++ trim_space namespace ++ b':' ∷ trim_space name))
unfolding build_kubernetes_subject
build_kubernetes_subject_iff namespace name subject =
    ground (arith, is_empty_iff (trim_space namespace), is_empty_iff (trim_space name))

-- One subject belongs to one pair of names, where the namespaces hold no colon.
pub build_kubernetes_subject-injective :
    (ns name ns' name' : Text) {subject : Text}
    → contains_byte b':' (trim_space ns) ≡ false
    → contains_byte b':' (trim_space ns') ≡ false
    → build_kubernetes_subject ns name ≡ ok subject
    → build_kubernetes_subject ns' name' ≡ ok subject
    → (trim_space ns ≡ trim_space ns') × (trim_space name ≡ trim_space name')
build_kubernetes_subject-injective ns name ns' name' h h' e e' =
    let (_, _, _, _, same) = (build_kubernetes_subject_iff ns name _).0 e in
    let (_, _, _, _, same') = (build_kubernetes_subject_iff ns' name' _).0 e' in
    split_at_byte b':' (trim_space ns) (trim_space ns') (trim_space name) (trim_space name') h h'
      (append_cancel_left subject_prefix _ _ (simp append_assoc at (sym same ∙ same')))

-- A resource key is sixteen hexadecimal digits, whatever it is made of.
pub resource_key-IsHexDigit :
    (namespace sa_name subject issuer : Text)
    → (length (resource_key namespace sa_name subject issuer) ≡ 16)
      × All IsHexDigit (resource_key namespace sa_name subject issuer)
unfolding resource_key
resource_key-IsHexDigit namespace sa_name subject issuer =
    let input = resource_key_input namespace sa_name subject issuer in
    (
      length-hex_encode _ ∙ omega (arith, length-take 8 (sum256 input), length-sum256 input),
      hex_encode-IsHexDigit _ (take-IsByte 8 _ (sum256-IsByte input)),
    )

-- What is hashed determines the two names and the normalised issuer, where the first is accepted
-- for a subject and no service account's name holds a line break.
pub resource_key_input-injective :
    (ns sa issuer ns' sa' issuer' : Text) {subject subject' : Text}
    → build_kubernetes_subject ns sa ≡ ok subject
    → build_kubernetes_subject ns' sa' ≡ ok subject'
    → contains_byte b'\n' (trim_space sa) ≡ false
    → contains_byte b'\n' (trim_space sa') ≡ false
    → resource_key_input ns sa subject issuer ≡ resource_key_input ns' sa' subject' issuer'
    → (trim_space ns ≡ trim_space ns')
      × (trim_space sa ≡ trim_space sa')
      × (normalize_issuer issuer ≡ normalize_issuer issuer')
unfolding resource_key_input
resource_key_input-injective ns sa issuer ns' sa' issuer' {subject} {subject'} e e' h h' k =
    let (_, _, clean, _, same) = (build_kubernetes_subject_iff ns sa _).0 e in
    let (_, _, clean', _, same') = (build_kubernetes_subject_iff ns' sa' _).0 e' in
    let (ns_eq, rest) = split_at_byte b'/' (trim_space ns) (trim_space ns') _ _ clean clean' (
      cons_injective
        (append_cancel_left (to_lower value_vcs_kubernetes) _ _ (simp append_assoc at k))) in
    let (sa_eq, rest') = split_at_byte b'\n' (trim_space sa) (trim_space sa') _ _ h h' rest in
    let subject_eq : subject ≡ subject' = same ∙ rw (ns_eq, sa_eq) (sym same') in
    (ns_eq, sa_eq, cons_injective (append_cancel_left subject' _ _ (rw subject_eq at rest')))

sanitize_name-length : (s : Text) → length (sanitize_name s) ≤ 200
unfolding sanitize_name
sanitize_name-length s = length-cut-le 200 (trim_space s)

-- Both display names have 200 bytes at most.
pub default_resource_names-length :
    (key override : Text)
    → (length (default_resource_names key override).0 ≤ 200)
      × (length (default_resource_names key override).1 ≤ 200)
unfolding default_resource_names
default_resource_names-length key override = ground (
  arith,
  sanitize_name-length (trim_space override),
  sanitize_name-length (trim_space override ++ codes "-fi"),
  sanitize_name-length (codes "wif-k8s-" ++ key),
  sanitize_name-length (codes "wif-k8s-" ++ key ++ codes "-fi"),
)
