-- ===== src/Webhook/Handler.antt =====
-- internal/webhook/podmutator/handler.go: what the webhook answers to an admission request. The
-- decoder, the API server, the JSON encoder and the patch that controller-runtime computes are
-- parameters.
pub mod Laws
use thalassa_workload_identi.Common.{ℕ, Bool, true, false, not, Option, none, some, if◌then◌else◌}
use thalassa_workload_identi.Text.Eq.{Text, codes, is_empty}
use thalassa_workload_identi.Dict.{Dict}
use thalassa_workload_identi.Webhook.Pod.{Pod}
use thalassa_workload_identi.Webhook.Mutate.{
  Identity, complete, identity_from_service_account, opted_in, mutate_pod,
}

-- `client.Get` of a service account: its annotations, `IsNotFound`, or another error.
pub data Fetched : Type 0 where
  found : Dict → Fetched
  not_found : Fetched
  failed : Text → Fetched

-- Why a pod is let through as it is.
pub data Reason : Type 0 where
  label_not_set : Reason
  account_not_found : Reason
  identity_incomplete : Reason
  already_injected : Reason

-- The admission responses: `Allowed`, `Errored` with its status code, and
-- `PatchResponseFromRaw(raw, marshaled)`.
pub data Response : Type 0 where
  allowed : Reason → Response
  errored : ℕ → Response
  patch : Text → Text → Response

-- The request, by its namespace and the raw object.
pub record Request : Type 0 where
  pub namespace : Text
  pub raw : Text

abbrev pub in_namespace : Request → Pod → Pod
in_namespace req pod =
    if is_empty pod.namespace then record pod { namespace = req.namespace } else pod

abbrev pub account_name : Pod → Text
account_name pod =
    if is_empty pod.service_account_name then codes "default" else pod.service_account_name

abbrev pub respond : Request → Option Text → Response
respond req none = errored 500
respond req (some marshaled) = patch req.raw marshaled

module _ (decode : Text → Option Pod) (get_account : Text → Text → Fetched)
    (marshal : Pod → Option Text) (audience : Text) where
  unfoldable pub with_identity : Request → Pod → Identity → Response
  with_identity req pod id =
      if not (complete id)
      then allowed identity_incomplete
      else (let (mutated, changed) = mutate_pod pod id audience in
          if not changed then allowed already_injected else respond req (marshal mutated))

  unfoldable pub with_account : Request → Pod → Fetched → Response
  unfolding with_identity
  with_account req pod not_found = allowed account_not_found
  with_account req pod (failed e) = errored 500
  with_account req pod (found annotations) =
      with_identity req pod (identity_from_service_account annotations)

  unfoldable pub with_pod : Request → Pod → Response
  unfolding with_account
  with_pod req pod =
      if not (opted_in pod)
      then allowed label_not_set
      else with_account req pod (get_account pod.namespace (account_name pod))

  unfoldable pub handle : Request → Response
  unfolding with_pod
  handle req = elim (decode req.raw) [
    | none ↦ errored 400
    | some pod ↦ with_pod req (in_namespace req pod)
  ]
