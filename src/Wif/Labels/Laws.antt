-- ===== src/Wif/Labels/Laws.antt =====
-- What the label comparison decides.
use thalassa_workload_identi.Common.{◌≡◌, refl, ◌≢◌, ◌↔◌, true, [], ◌∷◌, All, all_iff}
use thalassa_workload_identi.Text.Eq.{Text, text_eq, text_eq_iff}
use thalassa_workload_identi.Dict.{Dict, get}
use thalassa_workload_identi.Wif.Labels.{ownership_labels, has_label, labels_match}

-- Labels match exactly when something is wanted and each wanted key has the wanted value, where a
-- missing key has the empty one.
pub labels_match_iff :
    (have want : Dict)
    → (labels_match have want ≡ true) ↔ ((want ≢ []) × All (λ p. get p.0 have ≡ p.1) want)
unfolding labels_match
labels_match_iff have [] = (λ h. cc, λ h. absurd (h.0 refl))
labels_match_iff have (p ∷ want) =
    let each = all_iff (has_label have) (λ q. text_eq_iff (get q.0 have) q.1) (p ∷ want) in
    (λ h. (λ e. cc, each.0 h), λ h. each.1 h.1)

-- Labels that were written match themselves.
pub ownership_labels_match_self :
    (key namespace sa_name : Text)
    → labels_match (ownership_labels key namespace sa_name) (ownership_labels key namespace sa_name)
      ≡ true
unfolding ownership_labels
ownership_labels_match_self key namespace sa_name =
    (labels_match_iff _ _).1
      (λ e. cc, unfold get text_eq in (refl, (refl, (refl, (refl, (refl, tt))))))
