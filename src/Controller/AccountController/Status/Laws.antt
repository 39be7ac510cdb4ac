-- ===== src/Controller/AccountController/Status/Laws.antt =====
-- What `patchStatus` of the ServiceAccount controller leaves in the annotations.
use thalassa_workload_identi.Common.{
  ◌≡◌, refl, ap, ◌∙◌, false, Option, none, some, List, [], ◌∷◌, All, length, ◌≤◌, inl, inr,
  Bool-cases,
}
use thalassa_workload_identi.Text.Eq.{Text, text_eq, text_eq_refl, is_empty, cut, length-cut-le}
use thalassa_workload_identi.Dict.{
  Dict, lookup, get, insert, erase, lookup-insert, lookup-erase, or_empty,
}
use thalassa_workload_identi.Wif.Keys.{
  annotation_status, annotation_last_reconcile, annotation_last_error,
  annotation_service_account_id, annotation_federated_identity_id, annotation_provider_id,
  annotation_policy_id,
}
use thalassa_workload_identi.Wif.Ensure.{EnsureResult}
use thalassa_workload_identi.Controller.AccountController.Status.{
  with_last_error, with_policy_id, with_result, patched_annotations,
}

-- The keys of the result, and all keys that are written.
abbrev pub result_keys : List Text
result_keys =
    annotation_service_account_id ∷ annotation_federated_identity_id ∷ annotation_provider_id
    ∷ annotation_policy_id ∷ []

abbrev pub owned_keys : List Text
owned_keys = annotation_status ∷ annotation_last_reconcile ∷ annotation_last_error ∷ result_keys

abbrev pub IsOther : Text → List Text → Type 0
IsOther key keys = All (λ k. text_eq k key ≡ false) keys

lookup-insert_other :
    (k j v : Text) (d : Dict) → text_eq k j ≡ false → lookup j (insert k v d) ≡ lookup j d
lookup-insert_other k j v d apart = lookup-insert k j v d ∙ rw apart

lookup-erase_other :
    (k j : Text) (d : Dict) → text_eq k j ≡ false → lookup j (erase k d) ≡ lookup j d
lookup-erase_other k j d apart = lookup-erase k j d ∙ rw apart

with_last_error-other :
    (text key : Text) (d : Dict)
    → text_eq annotation_last_error key ≡ false
    → lookup key (with_last_error text d) ≡ lookup key d
with_last_error-other text key d apart = elim (Bool-cases (is_empty text)) [
  | inl blank ↦ rw blank (lookup-erase_other annotation_last_error key d apart)
  | inr set ↦ rw set (lookup-insert_other annotation_last_error key (cut 1024 text) d apart)
]

with_policy_id-other :
    (id key : Text) (d : Dict)
    → text_eq annotation_policy_id key ≡ false
    → lookup key (with_policy_id id d) ≡ lookup key d
with_policy_id-other id key d apart = elim (Bool-cases (is_empty id)) [
  | inl blank ↦ rw blank (lookup-erase_other annotation_policy_id key d apart)
  | inr set ↦ rw set (lookup-insert_other annotation_policy_id key id d apart)
]

with_result-other :
    (result : Option EnsureResult) (key : Text) (d : Dict)
    → IsOther key result_keys
    → lookup key (with_result result d) ≡ lookup key d
with_result-other none key d apart = refl
with_result-other (some r) key d (account, (identity, (provider, (policy, _)))) =
    with_policy_id-other r.policy_id key _ policy
    ∙ (lookup-insert_other annotation_provider_id key r.provider_id _ provider
        ∙ (lookup-insert_other annotation_federated_identity_id key r.federated_identity_id _
              identity
            ∙ lookup-insert_other annotation_service_account_id key r.service_account_id d account))

-- Writing the status leaves every annotation alone that is not one of the controller's seven.
pub patched_annotations-other :
    (now status text : Text) (result : Option EnsureResult) (key : Text) (d : Dict)
    → IsOther key owned_keys
    → lookup key (patched_annotations now status text result d) ≡ lookup key d
unfolding patched_annotations
patched_annotations-other now status text result key d (phase, (time, (error, ids))) =
    with_result-other result key _ ids
    ∙ (with_last_error-other text key _ error
        ∙ (lookup-insert_other annotation_last_reconcile key now _ time
            ∙ lookup-insert_other annotation_status key status d phase))

last_error_written :
    (text : Text) (d : Dict)
    → or_empty (lookup annotation_last_error (with_last_error text d)) ≡ cut 1024 text
unfolding cut
last_error_written [] d =
    rw (
      lookup-erase annotation_last_error annotation_last_error d,
      text_eq_refl annotation_last_error,
    )
last_error_written (c ∷ s) d = rw (
  lookup-insert annotation_last_error annotation_last_error (cut 1024 (c ∷ s)) d,
  text_eq_refl annotation_last_error,
)

last_error-IsOther : IsOther annotation_last_error result_keys
unfolding text_eq
last_error-IsOther = (refl, (refl, (refl, (refl, tt))))

status-IsOther :
    IsOther annotation_status (annotation_last_error ∷ annotation_last_reconcile ∷ result_keys)
unfolding text_eq
status-IsOther = (refl, (refl, (refl, (refl, (refl, (refl, tt))))))

-- After the status is written, its annotation is the status, and the one of the last error is the
-- error, cut to 1024 bytes, or missing where there is none.
pub patched_annotations_lem :
    (now status text : Text) (result : Option EnsureResult) (d : Dict)
    → (let written = patched_annotations now status text result d in
        (get annotation_status written ≡ status)
        × (get annotation_last_error written ≡ cut 1024 text)
        × (length (get annotation_last_error written) ≤ 1024))
unfolding patched_annotations get
patched_annotations_lem now status text result d =
    let inner = insert annotation_last_reconcile now (insert annotation_status status d) in
    let error =
      ap or_empty (with_result-other result annotation_last_error _ last_error-IsOther)
      ∙ last_error_written text inner in
    (
      ap or_empty (
            with_result-other result annotation_status _ status-IsOther.1.1
            ∙ (with_last_error-other text annotation_status inner status-IsOther.0
                ∙ (lookup-insert_other annotation_last_reconcile annotation_status now _
                      status-IsOther.1.0
                    ∙ lookup-insert annotation_status annotation_status status d)))
          ∙ rw (text_eq_refl annotation_status),
      error,
      rw error (length-cut-le 1024 text),
    )
