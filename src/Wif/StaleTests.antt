-- ===== src/Wif/StaleTests.antt =====
-- A federated identity with another subject in the in-memory service.
use thalassa_workload_identi.Common.{◌≡◌, ◌≢◌, refl, true, some, [], ◌∷◌}
use thalassa_workload_identi.Text.Eq.{codes, text_eq}
use thalassa_workload_identi.Text.Order.{list_eq, sort, text_le}
use thalassa_workload_identi.Dict.{Dict, get, lookup}
use thalassa_workload_identi.Errors.{ok}
use thalassa_workload_identi.Iam.{FederatedIdentity, ServiceAccount}
use thalassa_workload_identi.Iam.Laws.{identity_in}
use thalassa_workload_identi.Iam.Memory.{Store, memory_client}
use thalassa_workload_identi.Iam.Memory.Laws.{memory_client-IsLawful, memory_client-view, view_of}
use thalassa_workload_identi.Wif.Keys.{annotation_provider_subject}
use thalassa_workload_identi.Wif.Labels.{labels_match}
use thalassa_workload_identi.Wif.Find.{cluster_labels, first_labelled, find_by_labels_fi}
use thalassa_workload_identi.Wif.Ensure.{
  ensure_federated_identity, fi_needs_update, description_of_fi, scopes_equal, audiences_equal,
}
use thalassa_workload_identi.Wif.Spec.Stale.{ensure_federated_identity-other_subject}
use thalassa_workload_identi.Wif.Tests.{constants, cluster, provider, empty_store}

abbrev labels : Dict
labels = cluster_labels cluster

abbrev account : ServiceAccount
account = record { identity = codes "sa-1"; labels = [] }

abbrev old : FederatedIdentity
old = record {
  identity = codes "fi-1";
  name = codes "wif";
  description = [];
  labels = labels;
  annotations = [];
  provider_subject = codes "other";
  trusted_audiences = [];
  audience_match_mode = [];
  allowed_scopes = [];
}

abbrev written : FederatedIdentity
written = record {
  identity = codes "fi-1";
  name = codes "wif";
  description = description_of_fi (codes "s");
  labels = labels;
  annotations = (annotation_provider_subject, codes "s") ∷ [];
  provider_subject = codes "other";
  trusted_audiences = codes "a" ∷ [];
  audience_match_mode = codes "any";
  allowed_scopes = codes "openid" ∷ [];
}

abbrev before : Store
before = record empty_store { identities = old ∷ [] }

abbrev after : Store
after = record empty_store { identities = written ∷ [] }

run :
    ensure_federated_identity constants memory_client provider account
      (codes "wif")
      (codes "s")
      (codes "openid" ∷ [])
      (codes "a" ∷ [])
      labels
      before
    ≡ (ok written, after)
unfolding ensure_federated_identity find_by_labels_fi first_labelled labels_match get lookup text_eq
    fi_needs_update scopes_equal audiences_equal list_eq sort text_le
run = refl

labels_self : labels_match labels labels ≡ true
unfolding labels_match get lookup text_eq
labels_self = refl

old_there : identity_in (view_of before) labels ≡ some old
unfolding first_labelled labels_match get lookup text_eq
old_there = refl

old_in_view : identity_in (memory_client-IsLawful.view before) labels ≡ some old
old_in_view = rw memory_client-view old_there

old_subject : old.provider_subject ≢ codes "s"
old_subject e = cc

ensure_federated_identity-other_subject_example :
    (identity_in (memory_client-IsLawful.view after) labels ≡ some written)
    × (written.provider_subject ≡ old.provider_subject)
    × (fi_needs_update constants written
          (codes "wif")
          (description_of_fi (codes "s"))
          (codes "s")
          (codes "openid" ∷ [])
          (codes "a" ∷ [])
          labels
        ≡ true)
ensure_federated_identity-other_subject_example =
    ensure_federated_identity-other_subject constants memory_client memory_client-IsLawful provider
      account (codes "wif") (codes "s") (codes "openid" ∷ []) (codes "a" ∷ []) labels before
      labels_self old_in_view old_subject run
