-- ===== src/Iam/Memory/Deletion.antt =====
-- The in-memory service deletes as the program relies on.
use mathlib.Core.Path.{fun_ext}
use thalassa_workload_identi.Common.{◌≡◌, ap, List, [], ◌∷◌, arith}
use thalassa_workload_identi.Text.Eq.{Text, text_eq_iff}
use thalassa_workload_identi.Iam.{Binding, Reply, answer}
use thalassa_workload_identi.Iam.Deletion.{unbind, IsDeleting}
use thalassa_workload_identi.Iam.Memory.{Store, bindings_of, without_binding, memory_client}
use thalassa_workload_identi.Iam.Memory.Laws.{view_of, memory_client-IsLawful, memory_client-view}

bindings_of-without_binding :
    (owner id p : Text) (l : List (Text × Binding))
    → bindings_of p (without_binding owner id l) ≡ unbind owner id (λ q. bindings_of q l) p
bindings_of-without_binding owner id p [] = ground arith
bindings_of-without_binding owner id p ((o, b) ∷ l) = ground (
  arith,
  bindings_of-without_binding owner id p l,
  text_eq_iff o owner,
  text_eq_iff owner p,
  text_eq_iff o p,
)

-- The state after an answer.
state_of_answer :
    {A : Type 0} {a b : A} {s t : Store}
    → ◌≡◌ {A = Reply A × Store} (answer a, s) (answer b, t)
    → s ≡ t
state_of_answer e = cc

pub memory_client-IsDeleting : IsDeleting memory_client memory_client-IsLawful
memory_client-IsDeleting = record {
  delete_account = λ id s e. rw (memory_client-view, memory_client-view, ← state_of_answer e);
  delete_identity = λ id s e. rw (memory_client-view, memory_client-view, ← state_of_answer e);
  delete_role_binding = λ role id s e.
      rw (memory_client-view, memory_client-view, ← state_of_answer e)
        (ap (λ (f : Text → List Binding). record (view_of s) { role_bindings = f })
          (fun_ext (λ p. bindings_of-without_binding role id p s.role_bindings)));
  delete_policy_binding = λ policy id s e.
      rw (memory_client-view, memory_client-view, ← state_of_answer e)
        (ap (λ (f : Text → List Binding). record (view_of s) { policy_bindings = f })
          (fun_ext (λ p. bindings_of-without_binding policy id p s.policy_bindings)));
}
