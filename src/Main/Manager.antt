-- ===== src/Main/Manager.antt =====
-- The second half of cmd/main.go: the client, the manager's options, and what is registered with the
-- manager, as the sequence of actions that `main` performs. Each action is a call of controller-runtime
-- or client-go; all but the registration of the webhook may fail with a message, so whether they do is a
-- parameter.
pub mod Sequence
pub mod Laws
use thalassa_workload_identi.Common.{
  Bool, true, false, not, ◌&&◌, Option, none, some, List, [], ◌∷◌, ◌++◌, ℤ, is_nil, if◌then◌else◌,
}
use thalassa_workload_identi.Text.Eq.{Text, codes}
use thalassa_workload_identi.Dict.{Dict, insert}
use thalassa_workload_identi.Errors.{
  Error, remote, wrapped, tls_crt_not_ready, tls_key_not_ready, Result, ok, err,
}
use thalassa_workload_identi.Config.{Config, resolve_webhook_audience}
use thalassa_workload_identi.Config.Validate.{validate}
use thalassa_workload_identi.Main.Setup.{Flags, setup}
use thalassa_workload_identi.Thalassa.{ClientOption, client_options}

abbrev pub pod_mutator_path : Text
pod_mutator_path = codes "/mutate-v1-pod"

-- `metricsserver.Options`, with whether the filter provider is set.
pub record MetricsOptions : Type 0 where
  pub bind_address : Text
  pub secure_serving : Bool
  pub filter_provider : Bool

-- `webhook.Options`
pub record WebhookOptions : Type 0 where
  pub port : ℤ
  pub cert_dir : Text

-- `ctrl.Options`; the cache is restricted to the keys of `default_namespaces`, if there are any.
pub record ManagerOptions : Type 0 where
  pub metrics : MetricsOptions
  pub health_probe_bind_address : Text
  pub leader_election : Bool
  pub leader_election_id : Text
  pub webhook_server : Option WebhookOptions
  pub default_namespaces : Dict

abbrev pub metrics_options : Flags → MetricsOptions
metrics_options f = record {
  bind_address = f.metrics_addr;
  secure_serving = f.secure_metrics;
  filter_provider = f.secure_metrics;
}

abbrev pub webhook_options : Config → Option WebhookOptions
webhook_options cfg =
    if cfg.enable_pod_mutator
    then some (record { port = cfg.webhook_port; cert_dir = cfg.webhook_cert_dir })
    else none

-- The loop `nsCache[ns] = cache.Config{}`, whose values are all the empty configuration.
unfoldable pub ns_cache : List Text → Dict → Dict
ns_cache [] d = d
ns_cache (ns ∷ namespaces) d = ns_cache namespaces (insert ns [] d)

unfoldable pub default_namespaces : Config → Dict
unfolding ns_cache
default_namespaces cfg =
    if cfg.enable_controllers && not (is_nil cfg.watch_namespaces)
    then ns_cache cfg.watch_namespaces []
    else []

abbrev pub manager_options : Flags → Config → ManagerOptions
manager_options f cfg = record {
  metrics = metrics_options f;
  health_probe_bind_address = f.probe_addr;
  leader_election = cfg.enable_leader_election;
  leader_election_id = codes "thalassa-workload-identity-controller";
  webhook_server = webhook_options cfg;
  default_namespaces = default_namespaces cfg;
}

pub data Action : Type 0 where
  create_client : List ClientOption → Action
  new_manager : ManagerOptions → Action
  setup_binding_controller setup_account_controller : Action
  -- The path and the audience of the handler.
  register_webhook : Text → Text → Action
  add_healthz_check add_readyz_check : Text → Action
  -- The check of the certificates in a directory.
  add_cert_check : Text → Action
  start_manager : Action

abbrev pub when : Bool → List Action → List Action
when true actions = actions
when false actions = []

-- The calls of `main` once the configuration is valid, in their order.
unfoldable pub actions : Flags → Config → List Action
actions f cfg =
    when cfg.enable_controllers (create_client (client_options cfg) ∷ [])
    ++ (new_manager (manager_options f cfg)
        ∷ (when cfg.enable_controllers (setup_binding_controller ∷ [])
            ++ (when (cfg.enable_controllers && cfg.enable_service_account_annotations)
                  (setup_account_controller ∷ [])
                ++ (when cfg.enable_pod_mutator
                      (register_webhook pod_mutator_path (resolve_webhook_audience cfg) ∷ [])
                    ++ (add_healthz_check (codes "healthz")
                        ∷ (add_readyz_check (codes "readyz")
                            ∷ (when cfg.enable_pod_mutator
                                  (add_cert_check cfg.webhook_cert_dir ∷ [])
                                ++ (start_manager ∷ []))))))))

-- How `main` ends: an error of the configuration, an error of an action, each with `os.Exit(1)`, or
-- the return from the last action.
pub data Exit : Type 0 where
  invalid : Error → Exit
  stopped : Action → Text → Exit
  returned : Exit

-- The error of an action; `Register` of a webhook server returns none.
abbrev pub failure : (Action → Option Text) → Action → Option Text
failure perform (create_client o) = perform (create_client o)
failure perform (new_manager o) = perform (new_manager o)
failure perform setup_binding_controller = perform setup_binding_controller
failure perform setup_account_controller = perform setup_account_controller
failure perform (register_webhook path audience) = none
failure perform (add_healthz_check name) = perform (add_healthz_check name)
failure perform (add_readyz_check name) = perform (add_readyz_check name)
failure perform (add_cert_check dir) = perform (add_cert_check dir)
failure perform start_manager = perform start_manager

abbrev pub and_then : Action → Option Text → List Action × Exit → List Action × Exit
and_then a none after = (a ∷ after.0, after.1)
and_then a (some message) after = (a ∷ [], stopped a message)

-- Each action in turn, up to the first that fails; with what was performed.
unfoldable pub run : (Action → Option Text) → List Action → List Action × Exit
run perform [] = ([], returned)
run perform (a ∷ rest) = let after = run perform rest in and_then a (failure perform a) after

module _ (parse_request_uri : Text → Option Text) (perform : Action → Option Text) where
  abbrev pub when_valid : Flags → Config → Result (Unit {0}) → List Action × Exit
  when_valid f cfg (ok _) = run perform (actions f cfg)
  when_valid f cfg (err e) = ([], invalid e)

  unfoldable pub main : Flags → List Action × Exit
  main f = when_valid f (setup f) (validate parse_request_uri (setup f))

-- `webhookCertReady`: `os.Stat` as the message of its error, if any, and filepath.Join.
module _ (stat : Text → Option Text) (join : Text → Text → Text) where
  abbrev pub key_ready : Option Text → Result (Unit {0})
  key_ready (some message) = err (wrapped tls_key_not_ready (remote message))
  key_ready none = ok tt

  abbrev pub crt_ready : Text → Option Text → Result (Unit {0})
  crt_ready cert_dir (some message) = err (wrapped tls_crt_not_ready (remote message))
  crt_ready cert_dir none = key_ready (stat (join cert_dir (codes "tls.key")))

  unfoldable pub webhook_cert_ready : Text → Result (Unit {0})
  webhook_cert_ready cert_dir = crt_ready cert_dir (stat (join cert_dir (codes "tls.crt")))
