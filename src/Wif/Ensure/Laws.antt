-- ===== src/Wif/Ensure/Laws.antt =====
-- When a federated identity needs an update, and that creating or updating one settles it.
use mathlib.Core.List.{Perm}
use mathlib.Core.List.Perm
use thalassa_workload_identi.Common.{◌≡◌, refl, ◌↔◌, ◌⊎◌, inr, true, false, List, [], ◌∷◌, arith}
use thalassa_workload_identi.Text.Eq.{Text, text_eq, text_eq_iff, is_empty_iff}
use thalassa_workload_identi.Text.Order.{sort}
use thalassa_workload_identi.Text.Order.Laws.{list_eq_iff, sort-eq_iff}
use thalassa_workload_identi.Dict.{Dict, get}
use thalassa_workload_identi.Iam.{FederatedIdentity}
use thalassa_workload_identi.Wif.Keys.{annotation_provider_subject}
use thalassa_workload_identi.Wif.Labels.{labels_match}
use thalassa_workload_identi.Wif.Scopes.{IamConstants}
use thalassa_workload_identi.Wif.Ensure.{scopes_equal, audiences_equal, fi_needs_update}

-- Scopes are compared without their order, and with how often each occurs.
pub scopes_equal_iff : (a b : List Text) → (scopes_equal a b ≡ true) ↔ Perm a b
unfolding scopes_equal
scopes_equal_iff a b =
    let (same, perm) = sort-eq_iff a b in
    let (to, from) = list_eq_iff (sort a) (sort b) in (λ h. same (to h), λ p. from (perm p))

-- So are audiences.
pub audiences_equal_iff : (a b : List Text) → (audiences_equal a b ≡ true) ↔ Perm a b
unfolding audiences_equal
audiences_equal_iff a b =
    let (same, perm) = sort-eq_iff a b in
    let (to, from) = list_eq_iff (sort a) (sort b) in (λ h. same (to h), λ p. from (perm p))

module _ (k : IamConstants) (fi : FederatedIdentity) (name desc subject : Text)
    (scopes audiences : List Text) (labels : Dict) where
  -- The federated identity is as it is wanted: scopes and audiences in any order, any audience
  -- mode or none, and all else to the letter.
  pub record IsCurrent : Type 0 where
    pub scopes_same : Perm fi.allowed_scopes scopes
    pub audiences_same : Perm fi.trusted_audiences audiences
    pub mode_same :
        (fi.audience_match_mode ≡ []) ⊎ (fi.audience_match_mode ≡ k.audience_match_mode_any)
    pub name_same : fi.name ≡ name
    pub description_same : fi.description ≡ desc
    pub labels_same : labels_match fi.labels labels ≡ true
    pub annotation_same : get annotation_provider_subject fi.annotations ≡ subject
    pub subject_same : fi.provider_subject ≡ subject

  -- No update is needed exactly when the federated identity is as it is wanted.
  pub fi_needs_update_iff :
      (fi_needs_update k fi name desc subject scopes audiences labels ≡ false) ↔ IsCurrent
  unfolding fi_needs_update
  fi_needs_update_iff = ground (
    arith,
    scopes_equal_iff fi.allowed_scopes scopes,
    audiences_equal_iff fi.trusted_audiences audiences,
    is_empty_iff fi.audience_match_mode,
    text_eq_iff fi.audience_match_mode k.audience_match_mode_any,
    text_eq_iff fi.name name,
    text_eq_iff fi.description desc,
    text_eq_iff (get annotation_provider_subject fi.annotations) subject,
    text_eq_iff fi.provider_subject subject,
  )

  -- One that was written with what is wanted needs no update.
  pub written-IsCurrent :
      fi.allowed_scopes ≡ scopes
      → fi.trusted_audiences ≡ audiences
      → fi.audience_match_mode ≡ k.audience_match_mode_any
      → fi.name ≡ name
      → fi.description ≡ desc
      → fi.labels ≡ labels
      → labels_match labels labels ≡ true
      → fi.annotations ≡ (annotation_provider_subject, subject) ∷ []
      → fi.provider_subject ≡ subject
      → fi_needs_update k fi name desc subject scopes audiences labels ≡ false
  written-IsCurrent e1 e2 e3 e4 e5 e6 m e7 e8 = fi_needs_update_iff.1 (record {
    scopes_same = rw e1 (Perm.refl _);
    audiences_same = rw e2 (Perm.refl _);
    mode_same = inr e3;
    name_same = e4;
    description_same = e5;
    labels_same = rw e6 m;
    annotation_same = rw e7 (unfold get text_eq in refl);
    subject_same = e8;
  })
