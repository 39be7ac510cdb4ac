-- ===== src/Main/Manager/Laws.antt =====
-- What `main` performs, and the cache of the manager against the namespaces that are reconciled.
use thalassa_workload_identi.Common.{
  ◌≡◌, ◌↔◌, ◌⊎◌, All, refl, ◌∙◌, true, false, not, ◌&&◌, ◌||◌, Option, none, some, List, [], ◌∷◌,
  arith, is_nil, inl, inr, Bool-cases,
}
use thalassa_workload_identi.Text.Eq.{Text}
use thalassa_workload_identi.Dict.{Dict, lookup, insert, lookup-insert}
use thalassa_workload_identi.Errors.{ok, Result-cases}
use thalassa_workload_identi.Config.{Config}
use thalassa_workload_identi.Config.Validate.{validate}
use thalassa_workload_identi.Main.Setup.{Flags, setup}
use thalassa_workload_identi.Controller.Annotations.{is_there}
use thalassa_workload_identi.Controller.System.{contains, outside_watch}
use thalassa_workload_identi.Main.Manager.{
  ns_cache, default_namespaces, Action, actions, returned, failure, run, main,
}
use thalassa_workload_identi.Main.Manager.Sequence.{
  IsCalled, All-Occurs, Occurs-All, Occurs-actions_iff,
}

Option-cases : {A : Type 0} (o : Option A) → (o ≡ none) ⊎ ((a : A) × (o ≡ some a))
Option-cases none = inl refl
Option-cases (some a) = inr (a, refl)

lookup-ns_cache :
    (namespaces : List Text) (d : Dict) (ns : Text)
    → is_there (lookup ns (ns_cache namespaces d))
      ≡ (contains namespaces ns || is_there (lookup ns d))
unfolding ns_cache contains
lookup-ns_cache [] d ns = refl
lookup-ns_cache (n ∷ namespaces) d ns =
    lookup-ns_cache namespaces (insert n [] d) ns ∙ ground (arith, lookup-insert n ns [] d)

is_nil-insert : (k v : Text) (d : Dict) → is_nil (insert k v d) ≡ false
unfolding insert
is_nil-insert k v [] = refl
is_nil-insert k v ((j, w) ∷ d) = ground arith

is_nil-ns_cache :
    (namespaces : List Text) (d : Dict)
    → is_nil (ns_cache namespaces d) ≡ (is_nil namespaces && is_nil d)
unfolding ns_cache
is_nil-ns_cache [] d = refl
is_nil-ns_cache (n ∷ namespaces) d =
    is_nil-ns_cache namespaces (insert n [] d) ∙ ground (arith, is_nil-insert n [] d)

-- With controllers enabled, the reconcilers pass over a namespace exactly when the manager's cache is
-- restricted and the namespace is not among those that it keeps.
pub outside_watch-default_namespaces :
    (cfg : Config) (ns : Text)
    → cfg.enable_controllers ≡ true
    → outside_watch cfg ns ≡ (
        not (is_nil (default_namespaces cfg))
        && not (is_there (lookup ns (default_namespaces cfg))))
unfolding default_namespaces lookup
outside_watch-default_namespaces cfg ns on = elim (Bool-cases (is_nil cfg.watch_namespaces)) [
  | inl all ↦ rw (on, all)
  | inr some' ↦
      rw (on, some')
        (rw
          (
            is_nil-ns_cache cfg.watch_namespaces [],
            some',
            lookup-ns_cache cfg.watch_namespaces [] ns,
          )
          (ground arith))
]

module _ (parse_request_uri : Text → Option Text) (perform : Action → Option Text) where
  run-returned_iff :
      (l : List Action) → ((run perform l).1 ≡ returned) ↔ All (λ a. failure perform a ≡ none) l
  unfolding run
  run-returned_iff [] = (λ _. tt, λ _. refl)
  run-returned_iff (a ∷ l) = elim (Option-cases (failure perform a)) [
    | inl good ↦ rw good (λ e. (refl, (run-returned_iff l).0 e), λ (_, h). (run-returned_iff l).1 h)
    | inr (message, bad) ↦ rw bad (λ e. cc, λ (e, _). cc)
  ]

  -- `main` comes to its end exactly when the configuration is valid and each call that its settings ask
  -- for succeeds: the client and the controllers where controllers are enabled, that of service accounts
  -- where their annotations are, the manager with its options, the health checks, the check of the
  -- certificates where the pod mutator is enabled, and the start of the manager. The registration of the
  -- webhook cannot fail.
  pub main-returned_iff :
      (f : Flags)
      → ((main parse_request_uri perform f).1 ≡ returned) ↔ (
          (validate parse_request_uri (setup f) ≡ ok tt)
          × ((a : Action) → IsCalled f (setup f) a → failure perform a ≡ none))
  unfolding main
  main-returned_iff f =
      let l = actions f (setup f) in
      elim (Result-cases (validate parse_request_uri (setup f))) [
        | inl (u, valid) ↦ rw valid (
          λ e. (
            refl,
            λ a called.
                All-Occurs _ l a ((run-returned_iff l).0 e)
                  ((Occurs-actions_iff f (setup f) a).1 called),
          ),
          λ (_, h).
              (run-returned_iff l).1
                (Occurs-All _ l (λ a i. h a ((Occurs-actions_iff f (setup f) a).0 i))),
        )
        | inr (x, bad) ↦ rw bad (λ e. cc, λ (e, _). cc)
      ]
