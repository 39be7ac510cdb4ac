-- ===== src/Main/Manager/Sequence.antt =====
-- The calls of `main`: which are in the sequence, and that the start of the manager is the last.
use thalassa_workload_identi.Common.{
  Any, All-append, Bool, sym, ap, ◌++◌, ◌≡◌, ◌↔◌, All, refl, true, false, ◌&&◌, List, [], ◌∷◌,
  arith, inl, inr,
}
use thalassa_workload_identi.Text.Eq.{codes}
use thalassa_workload_identi.Config.{Config, resolve_webhook_audience}
use thalassa_workload_identi.Main.Setup.{Flags}
use thalassa_workload_identi.Thalassa.{client_options}
use thalassa_workload_identi.Main.Manager.{
  manager_options, Action, create_client, new_manager, setup_binding_controller,
  setup_account_controller, register_webhook, add_healthz_check, add_readyz_check, add_cert_check,
  start_manager, when, actions,
}

-- The calls that a configuration asks for, each by its own settings.
abbrev pub IsCalled : Flags → Config → Action → Type 0
IsCalled f cfg (create_client o) = (cfg.enable_controllers ≡ true) × (o ≡ client_options cfg)
IsCalled f cfg (new_manager o) = o ≡ manager_options f cfg
IsCalled f cfg setup_binding_controller = cfg.enable_controllers ≡ true
IsCalled f cfg setup_account_controller =
    (cfg.enable_controllers ≡ true) × (cfg.enable_service_account_annotations ≡ true)
IsCalled f cfg (register_webhook path audience) =
    (cfg.enable_pod_mutator ≡ true)
    × (path ≡ codes "/mutate-v1-pod")
    × (audience ≡ resolve_webhook_audience cfg)
IsCalled f cfg (add_healthz_check name) = name ≡ codes "healthz"
IsCalled f cfg (add_readyz_check name) = name ≡ codes "readyz"
IsCalled f cfg (add_cert_check dir) = (cfg.enable_pod_mutator ≡ true) × (dir ≡ cfg.webhook_cert_dir)
IsCalled f cfg start_manager = Unit

-- An action is in a sequence.
abbrev pub Occurs : Action → List Action → Type 0
Occurs a l = Any (λ (b : Action). b ≡ a) l

Occurs-left : (a : Action) (l m : List Action) → Occurs a l → Occurs a (l ++ m)
Occurs-left a [] m h = absurd h
Occurs-left a (b ∷ l) m (inl here) = inl here
Occurs-left a (b ∷ l) m (inr later) = inr (Occurs-left a l m later)

Occurs-right : (a : Action) (l m : List Action) → Occurs a m → Occurs a (l ++ m)
Occurs-right a [] m h = h
Occurs-right a (b ∷ l) m h = inr (Occurs-right a l m h)

Occurs-when :
    (a : Action) (b : Bool) (l : List Action) → b ≡ true → Occurs a l → Occurs a (when b l)
Occurs-when a true l on h = h
Occurs-when a false l on h = cc

All-when :
    (P : Action → Type 0) (b : Bool) (l : List Action) → (b ≡ true → All P l) → All P (when b l)
All-when P true l h = h refl
All-when P false l h = tt

pub All-Occurs : (P : Action → Type 0) (l : List Action) (a : Action) → All P l → Occurs a l → P a
All-Occurs P [] a h i = absurd i
All-Occurs P (b ∷ l) a (p, h) (inl same) = rw (← same) p
All-Occurs P (b ∷ l) a (p, h) (inr later) = All-Occurs P l a h later

pub Occurs-All :
    (P : Action → Type 0) (l : List Action) → ((a : Action) → Occurs a l → P a) → All P l
Occurs-All P [] h = tt
Occurs-All P (b ∷ l) h = (h b (inl refl), Occurs-All P l (λ a i. h a (inr i)))

both : {a b : Bool} → (a && b) ≡ true → (a ≡ true) × (b ≡ true)
both h = ground arith

-- A sequence that ends with the start of the manager.
abbrev pub StartsLast : List Action → Type 0
StartsLast l = (before : List Action) × (l ≡ before ++ start_manager ∷ [])

StartsLast-append : (l m : List Action) → StartsLast m → StartsLast (l ++ m)
StartsLast-append [] m h = h
StartsLast-append (a ∷ l) m h =
    let (before, e) = StartsLast-append l m h in (a ∷ before, ap (λ k. a ∷ k) e)

module _ (f : Flags) (cfg : Config) where
  -- The parts of the sequence that depend on a setting, and what follows each.
  abbrev clients : List Action
  clients = when cfg.enable_controllers (create_client (client_options cfg) ∷ [])

  abbrev bindings : List Action
  bindings = when cfg.enable_controllers (setup_binding_controller ∷ [])

  abbrev accounts : List Action
  accounts =
      when (cfg.enable_controllers && cfg.enable_service_account_annotations)
        (setup_account_controller ∷ [])

  abbrev hooks : List Action
  hooks =
      when cfg.enable_pod_mutator
        (register_webhook (codes "/mutate-v1-pod") (resolve_webhook_audience cfg) ∷ [])

  abbrev certs : List Action
  certs = when cfg.enable_pod_mutator (add_cert_check cfg.webhook_cert_dir ∷ [])

  abbrev from_certs : List Action
  from_certs = certs ++ start_manager ∷ []

  abbrev from_health : List Action
  from_health = add_healthz_check (codes "healthz") ∷ add_readyz_check (codes "readyz") ∷ from_certs

  abbrev from_hooks : List Action
  from_hooks = hooks ++ from_health

  abbrev from_accounts : List Action
  from_accounts = accounts ++ from_hooks

  abbrev from_bindings : List Action
  from_bindings = bindings ++ from_accounts

  abbrev from_manager : List Action
  from_manager = new_manager (manager_options f cfg) ∷ from_bindings

  -- Every action of the sequence is asked for, and every action that is asked for is in it.
  actions-All : All (IsCalled f cfg) (clients ++ from_manager)
  actions-All =
      let P = IsCalled f cfg in
      All-append P clients from_manager
        (All-when P cfg.enable_controllers (create_client (client_options cfg) ∷ [])
          (λ on. ((on, refl), tt)))
        (
          refl,
          All-append P bindings from_accounts
              (All-when P cfg.enable_controllers (setup_binding_controller ∷ []) (λ on. (on, tt)))
              (All-append P accounts from_hooks
                (All-when P (cfg.enable_controllers && cfg.enable_service_account_annotations)
                  (setup_account_controller ∷ []) (λ on. (both on, tt)))
                (All-append P hooks from_health
                  (All-when P cfg.enable_pod_mutator
                    (register_webhook (codes "/mutate-v1-pod") (resolve_webhook_audience cfg) ∷ [])
                    (λ on. ((on, refl, refl), tt)))
                  (
                    refl,
                    (
                      refl,
                      All-append P certs (start_manager ∷ [])
                          (All-when P cfg.enable_pod_mutator
                            (add_cert_check cfg.webhook_cert_dir ∷ []) (λ on. ((on, refl), tt)))
                          (tt, tt),
                    ),
                  ))),
        )

  -- An action of a later part is in the whole.
  in_manager : (a : Action) → Occurs a from_manager → Occurs a (clients ++ from_manager)
  in_manager a i = Occurs-right a clients from_manager i

  in_accounts : (a : Action) → Occurs a from_accounts → Occurs a (clients ++ from_manager)
  in_accounts a i = in_manager a (inr (Occurs-right a bindings from_accounts i))

  in_hooks : (a : Action) → Occurs a from_hooks → Occurs a (clients ++ from_manager)
  in_hooks a i = in_accounts a (Occurs-right a accounts from_hooks i)

  in_health : (a : Action) → Occurs a from_health → Occurs a (clients ++ from_manager)
  in_health a i = in_hooks a (Occurs-right a hooks from_health i)

  Occurs-optional :
      (a b : Action) (on : Bool) (rest : List Action)
      → on ≡ true
      → b ≡ a
      → Occurs a (when on (b ∷ []) ++ rest)
  Occurs-optional a b on rest wanted same =
      Occurs-left a (when on (b ∷ [])) rest (Occurs-when a on (b ∷ []) wanted (inl same))

  IsCalled-Occurs : (a : Action) → IsCalled f cfg a → Occurs a (clients ++ from_manager)
  IsCalled-Occurs (create_client o) (on, e) =
      Occurs-optional (create_client o) _ _ from_manager on (ap create_client (sym e))
  IsCalled-Occurs (new_manager o) e = in_manager (new_manager o) (inl (ap new_manager (sym e)))
  IsCalled-Occurs setup_binding_controller on =
      in_manager setup_binding_controller (inr (Occurs-optional _ _ _ from_accounts on refl))
  IsCalled-Occurs setup_account_controller (on, also) =
      in_accounts setup_account_controller (Occurs-optional _ _ _ from_hooks (rw (on, also)) refl)
  IsCalled-Occurs (register_webhook path audience) (on, e1, e2) =
      in_hooks (register_webhook path audience) (Occurs-optional _ _ _ from_health on (rw (e1, e2)))
  IsCalled-Occurs (add_healthz_check name) e =
      in_health (add_healthz_check name) (inl (ap add_healthz_check (sym e)))
  IsCalled-Occurs (add_readyz_check name) e =
      in_health (add_readyz_check name) (inr (inl (ap add_readyz_check (sym e))))
  IsCalled-Occurs (add_cert_check dir) (on, e) =
      in_health (add_cert_check dir)
        (inr (inr (Occurs-optional _ _ _ (start_manager ∷ []) on (ap add_cert_check (sym e)))))
  IsCalled-Occurs start_manager _ =
      in_health start_manager
        (inr (inr (Occurs-right start_manager certs (start_manager ∷ []) (inl refl))))

  pub actions-StartsLast : StartsLast (actions f cfg)
  unfolding actions
  actions-StartsLast =
      let last = StartsLast-append certs (start_manager ∷ []) ([], refl) in
      let health =
        StartsLast-append
          (add_healthz_check (codes "healthz") ∷ add_readyz_check (codes "readyz") ∷ []) from_certs
          last in
      StartsLast-append clients from_manager (
        StartsLast-append (new_manager (manager_options f cfg) ∷ []) from_bindings (
          StartsLast-append bindings from_accounts
            (StartsLast-append accounts from_hooks (StartsLast-append hooks from_health health))))

  pub Occurs-actions_iff : (a : Action) → Occurs a (actions f cfg) ↔ IsCalled f cfg a
  unfolding actions
  Occurs-actions_iff a =
      (All-Occurs (IsCalled f cfg) (clients ++ from_manager) a actions-All, IsCalled-Occurs a)
