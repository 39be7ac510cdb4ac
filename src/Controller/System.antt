-- ===== src/Controller/System.antt =====
-- What the reconcilers of internal/controller share: the two services side by side, what a call of
-- `Reconcile` returns, and `contains`.
use thalassa_workload_identi.Common.{
  Bool, true, false, not, ◌&&◌, Option, List, [], ◌∷◌, ℤ, pos, is_nil, if◌then◌else◌,
}
use thalassa_workload_identi.Text.Eq.{Text, text_eq}
use thalassa_workload_identi.Errors.{Error}
use thalassa_workload_identi.Kube.{KubeClient}
use thalassa_workload_identi.Iam.{IamClient}
use thalassa_workload_identi.Iam.Monad.{M}
use thalassa_workload_identi.Wif.Scopes.{IamConstants}
use thalassa_workload_identi.Config.{Config}
use thalassa_workload_identi.Controller.Conditions.{BindingObserved}

-- A call of one of the services leaves the other alone.
abbrev pub on_kube : {K C A : Type 0} → M K A → M (K × C) A
on_kube m s = ((m s.0).0, ((m s.0).1, s.1))

abbrev pub on_iam : {K C A : Type 0} → M C A → M (K × C) A
on_iam m s = ((m s.1).0, (s.0, (m s.1).1))

-- The reconcilers' fields `Client`, `Scheme`, `IAM` and `Config`, with what the code takes from
-- packages outside the repository: the constants of client-go, and strconv.Quote.
pub record Reconciler : Type 1 where
  pub client : KubeClient
  pub has_scheme : Bool
  pub iam : IamClient
  pub config : Config
  pub constants : IamConstants
  pub quote : Text → Text

abbrev pub System : Reconciler → Type 0
System self = self.client.State × self.iam.State

-- `ctrl.Result`
pub record ReconcileResult : Type 0 where
  pub requeue : Bool
  pub requeue_after : ℤ

abbrev pub done : ReconcileResult
done = record { requeue = false; requeue_after = pos 0 }

abbrev pub again : ReconcileResult
again = record { requeue = true; requeue_after = pos 0 }

abbrev pub after_delay : ℤ → ReconcileResult
after_delay d = record { requeue = false; requeue_after = d }

-- The three results of `reconcileBinding`.
pub record Reconciled : Type 0 where
  pub result : ReconcileResult
  pub observed : Option BindingObserved
  pub error : Option Error

unfoldable pub contains : List Text → Text → Bool
contains [] v = false
contains (x ∷ list) v = if text_eq x v then true else contains list v

-- `len(r.Config.WatchNamespaces) > 0 && !contains(r.Config.WatchNamespaces, namespace)`
abbrev pub outside_watch : Config → Text → Bool
outside_watch cfg namespace =
    not (is_nil cfg.watch_namespaces) && not (contains cfg.watch_namespaces namespace)
