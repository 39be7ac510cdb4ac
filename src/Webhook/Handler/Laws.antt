-- ===== src/Webhook/Handler/Laws.antt =====
-- When the webhook patches a pod, and what it answers to its own result.
use thalassa_workload_identi.Common.{
  ◌≡◌, refl, sym, ap, ◌∙◌, Bool, true, false, Option, none, some, arith, Bool-cases, Option-cases,
  inl, inr,
}
use thalassa_workload_identi.Text.Eq.{Text, is_empty}
use thalassa_workload_identi.Dict.{Dict}
use thalassa_workload_identi.Webhook.Pod.{Pod}
use thalassa_workload_identi.Webhook.Mutate.{
  Identity, complete, identity_from_service_account, opted_in, ensure_projected_token_volume,
  inject_pod, mutate_pod,
}
use thalassa_workload_identi.Webhook.Mutate.Laws.{mutate_pod_idem}
use thalassa_workload_identi.Webhook.Handler.{
  Fetched, found, not_found, failed, already_injected, allowed, patch, Request, in_namespace,
  account_name, respond, with_identity, with_account, with_pod, handle,
}

in_namespace-settled :
    (req : Request) (decoded q : Pod)
    → q.namespace ≡ (in_namespace req decoded).namespace
    → in_namespace req q ≡ q
in_namespace-settled req decoded q e = elim (Bool-cases (is_empty q.namespace)) [
  | inr full ↦ rw full
  | inl blank ↦ elim (Bool-cases (is_empty decoded.namespace)) [
    | inl placed ↦
        let at = rw placed at e in rw blank (ap (λ (n : Text). record q { namespace = n }) (sym at))
    | inr named ↦ absurd (ground (arith, rw named at e))
  ]
]

module _ (decode : Text → Option Pod) (get_account : Text → Text → Fetched)
    (marshal : Pod → Option Text) (audience : Text) where
  -- What stands behind a patch: an opted-in pod, an account with a complete identity, and a
  -- mutation that changed the pod into the one that was encoded.
  pub record IsPatched (req : Request) (out : Text) : Type 0 where
    pub decoded : Pod
    pub is_decoded : decode req.raw ≡ some decoded
    pub pod : Pod
    pub is_placed : in_namespace req decoded ≡ pod
    pub asked : opted_in pod ≡ true
    pub annotations : Dict
    pub is_found : get_account pod.namespace (account_name pod) ≡ found annotations
    pub is_complete : complete (identity_from_service_account annotations) ≡ true
    pub has_changed : (mutate_pod pod (identity_from_service_account annotations) audience).1 ≡ true
    pub is_encoded :
        marshal (mutate_pod pod (identity_from_service_account annotations) audience).0 ≡ some out

  patch_of_respond :
      (req : Request) (o : Option Text) {raw out : Text}
      → respond req o ≡ patch raw out
      → (raw ≡ req.raw) × (o ≡ some out)
  patch_of_respond req none e = cc
  patch_of_respond req (some m) e = (cc, cc)

  with_identity-patch :
      (req : Request) (pod : Pod) (id : Identity) {raw out : Text}
      → with_identity decode get_account marshal audience req pod id ≡ patch raw out
      → (raw ≡ req.raw)
        × (complete id ≡ true)
        × ((mutate_pod pod id audience).1 ≡ true)
        × (marshal (mutate_pod pod id audience).0 ≡ some out)
  unfolding with_identity
  with_identity-patch req pod id e = elim (Bool-cases (complete id)) [
    | inr missing ↦ absurd (ground arith)
    | inl whole ↦ elim (Bool-cases (mutate_pod pod id audience).1) [
      | inr same ↦ absurd (ground arith)
      | inl changed ↦
          let (at, encoded) = patch_of_respond req _ (rw (whole, changed) at e) in
          (at, whole, changed, encoded)
    ]
  ]

  unfoldable Behind : Request → Pod → Dict → Text → Type 0
  Behind req pod annotations out =
      (complete (identity_from_service_account annotations) ≡ true)
      × ((mutate_pod pod (identity_from_service_account annotations) audience).1 ≡ true)
      × (marshal (mutate_pod pod (identity_from_service_account annotations) audience).0 ≡ some out)

  with_account-patch :
      (req : Request) (pod : Pod) (f : Fetched) {raw out : Text}
      → with_account decode get_account marshal audience req pod f ≡ patch raw out
      → (raw ≡ req.raw)
        × ((annotations : Dict) × (f ≡ found annotations) × Behind req pod annotations out)
  unfolding with_account Behind
  with_account-patch req pod not_found e = absurd (ground arith)
  with_account-patch req pod (failed x) e = absurd (ground arith)
  with_account-patch req pod (found annotations) e =
      let (at, whole, changed, encoded) = with_identity-patch req pod _ e in
      (at, (annotations, refl, (whole, changed, encoded)))

  with_pod-patch :
      (req : Request) (pod : Pod) {raw out : Text}
      → with_pod decode get_account marshal audience req pod ≡ patch raw out
      → (raw ≡ req.raw)
        × (opted_in pod ≡ true)
        × ((annotations : Dict) × (get_account pod.namespace (account_name pod) ≡ found annotations)
            × Behind req pod annotations out)
  unfolding with_pod
  with_pod-patch req pod e = elim (Bool-cases (opted_in pod)) [
    | inr out ↦ absurd (ground arith)
    | inl asked ↦ let (at, rest) = with_account-patch req pod _ (rw asked at e) in (at, asked, rest)
  ]

  -- The webhook patches only as `IsPatched` says, and the patch is against the raw object.
  pub handle-IsPatched :
      (req : Request) {raw out : Text}
      → handle decode get_account marshal audience req ≡ patch raw out
      → (raw ≡ req.raw) × IsPatched req out
  unfolding handle Behind
  handle-IsPatched req e = elim (Option-cases (decode req.raw)) [
    | inl undecodable ↦ absurd (ground arith)
    | inr (pod, is_decoded) ↦
        let (at, asked, (annotations, is_found, (whole, changed, encoded))) =
          with_pod-patch req (in_namespace req pod) (rw (handle, is_decoded) at e) in
        (
          at,
          record {
            decoded = pod;
            is_decoded = is_decoded;
            pod = in_namespace req pod;
            is_placed = refl;
            asked = asked;
            annotations = annotations;
            is_found = is_found;
            is_complete = whole;
            has_changed = changed;
            is_encoded = encoded;
          },
        )
  ]

  -- Nothing that the handler reads of a pod is changed by the mutation.
  mutate_pod-kept :
      (pod : Pod) (id : Identity)
      → ((mutate_pod pod id audience).0.namespace ≡ pod.namespace)
        × ((mutate_pod pod id audience).0.labels ≡ pod.labels)
        × ((mutate_pod pod id audience).0.service_account_name ≡ pod.service_account_name)
  unfolding mutate_pod inject_pod ensure_projected_token_volume
  mutate_pod-kept pod id = ground arith

  opted_in-same : (p q : Pod) → p.labels ≡ q.labels → opted_in p ≡ opted_in q
  unfolding opted_in
  opted_in-same p q e = rw e

  get_account-same :
      (p q : Pod)
      → p.namespace ≡ q.namespace
      → p.service_account_name ≡ q.service_account_name
      → get_account p.namespace (account_name p) ≡ get_account q.namespace (account_name q)
  get_account-same p q in_ns in_account = rw (in_ns, in_account)

  with_pod-settled :
      (req : Request) (q : Pod) (annotations : Dict)
      → opted_in q ≡ true
      → get_account q.namespace (account_name q) ≡ found annotations
      → complete (identity_from_service_account annotations) ≡ true
      → (mutate_pod q (identity_from_service_account annotations) audience).1 ≡ false
      → with_pod decode get_account marshal audience req q ≡ allowed already_injected
  unfolding with_pod with_account with_identity
  with_pod-settled req q annotations asked fetched whole same = rw (asked, fetched, whole, same)

  -- If decoding undoes encoding, then the webhook lets its own result through as it is.
  pub handle-own_result :
      (req : Request) {raw out : Text}
      → ((p : Pod) (text : Text) → marshal p ≡ some text → decode text ≡ some p)
      → handle decode get_account marshal audience req ≡ patch raw out
      → handle decode get_account marshal audience (record req { raw = out })
        ≡ allowed already_injected
  unfolding handle
  handle-own_result req {raw} {out} undo e =
      let (_, p) = handle-IsPatched req e in
      let id = identity_from_service_account p.annotations in
      let q = (mutate_pod p.pod id audience).0 in
      let (in_ns, in_labels, in_account) = mutate_pod-kept p.pod id in
      let placed =
        in_namespace-settled (record req { raw = out }) p.decoded q
          (in_ns ∙ ap (λ (x : Pod). x.namespace) (sym p.is_placed)) in
      rw (handle, undo _ _ p.is_encoded)
        (rw placed (
          with_pod-settled (record req { raw = out }) q p.annotations
            (opted_in-same q p.pod in_labels ∙ p.asked)
            (get_account-same q p.pod in_ns in_account ∙ p.is_found) p.is_complete
            (ap (λ (x : Pod × Bool). x.1) (mutate_pod_idem p.pod id audience))))
