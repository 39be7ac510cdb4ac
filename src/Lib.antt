-- ===== src/Lib.antt =====
-- Verification of the Thalassa workload identity controller: the engine that provisions a workload
-- identity in the Thalassa IAM service, the reconcilers that run it for the resources of a Kubernetes
-- cluster, the configuration and allowlists that guard it, and the admission webhook that gives pods
-- their identity.
--
-- The parts, and the code they are about:
--   Config, Config.Allowlist, Config.Validate   internal/config/config.go, allowlist.go
--   Main.Setup, Main.Manager                    cmd/main.go, from the flags to the configuration, and
--                                               from there to the start of the manager
--   Thalassa                                    internal/thalassa/client.go
--   Api, Api.Rules                              api/v1beta1/workloadidentitybinding_types.go
--   Wif.Keys                                    internal/wif/annotations.go
--   Wif.Subject, Wif.Labels, Wif.Scopes         internal/wif/subject.go
--   Wif.Find, Wif.Ensure, Wif.Bindings,         internal/wif/ensure.go: the searches, the creation
--     Wif.Workload                              and update of the resources, the bindings, and
--                                               EnsureWorkloadIdentity and DeleteWorkloadIdentity
--   Iam, Iam.Monad                              the interface IAMClient of internal/wif/ensure.go
--   Webhook.Pod, Webhook.Mutate                 internal/webhook/podmutator/mutate.go
--   Webhook.Handler                             internal/webhook/podmutator/handler.go
--   Controller.ConfigMap                        internal/controller/identity_configmap.go
--   Controller.Annotations, Conditions, Cleanup internal/controller/binding_reconcile.go: what it
--                                               writes to annotations and conditions, the test of a
--                                               binding and the deletion of its resources
--   Controller.System                           what both reconcilers of internal/controller share
--   Controller.Binding, Controller.Binding.Calls  internal/controller/binding_reconcile.go: a pass over
--                                               a binding, and its calls of the Kubernetes API
--   Controller.BindingController                internal/controller/workloadidentitybinding_controller.go
--   Controller.AccountController                internal/controller/serviceaccount_controller.go
--   Kube                                        the Kubernetes API, as internal/controller calls it
--   Errors, Errors.Message                      the errors of all packages, and their texts
-- An operation has the name of its Go function in snake case. Common, Text, Dict, Errors and Sha256
-- hold what the parts share: lists, Go strings as byte sequences with TrimSpace, EqualFold, Split and
-- sorting, maps as association lists, errors as values, and SHA-256 as FIPS 180-4 defines it.
--
-- How they interact: the engine calls the IAM service through the record Iam.IamClient, which is a
-- parameter over an unknown state, since the client is code of github.com/thalassa-cloud/client-go.
-- Iam.Laws.IsLawful says what the theorems rely on: reads answer from a view of the state and leave
-- it alone, and a write changes its own part of the view only and can be read back. A lawful service
-- may refuse any write. Iam.Memory is a service of lists that is lawful. Wif.Spec says of the view
-- alone what a provisioned workload identity is, and Wif.Spec.Refinement relates the runs to it.
-- Wif.Spec.Reads, Same, Steps, Bound and Settled are the lemmas for the single steps. Iam.Deletion says what
-- is relied on of deletions, and Wif.Spec.Deletion and Gone relate DeleteWorkloadIdentity to the view.
-- The reconcilers run on a pair of states, of the Kubernetes API and of the IAM service. The API is the
-- record Kube.KubeClient, and Kube.Laws says what is relied on: reads answer from a view of what is
-- stored, an update that fails may still have been carried out, and an object that is being deleted
-- goes with its last finalizer; Kube.Laws.IsUp is a server that answers, and in which SetControllerReference
-- succeeds for an object that no other one controls. Kube.Memory is such a server. Controller.Binding.Effects, Released,
-- Ready and Outcomes follow one pass through its branches; Controller.BindingController.Reach is the
-- life of a binding as a step relation, with changes that others make between the passes; Live, Progress,
-- Gone and Stable are about servers that answer. Controller.AccountController has Effects, Held, Released,
-- Reach, Live and Gone for a service account. The webhook reads the annotations that the binding reconciler
-- writes.
--
-- Bounds and fuel: no function runs on fuel; every loop is structural recursion on a list. Names are
-- cut at 200 bytes and binding names at 63, as in the code. SHA-256 works on words of 32 bits.
--
-- Parameters: the IAM client, the Kubernetes client with the functions of controllerutil and the clock,
-- the scope values and the audience mode of client-go, url.ParseRequestURI, strconv.Quote, os.Stat,
-- filepath.Join, the calls that main makes, and for the webhook the decoder, the lookup of a service
-- account and the JSON encoder. Of the resources of the IAM API and of Kubernetes only the fields that
-- the code reads or writes are kept. A nil map is an empty map. EqualFold folds ASCII and the two other
-- letters that fold to ASCII, so it is Go's where one of the texts is ASCII. Errors are values, and
-- Errors.Message gives their texts; logging and contexts are left out. FindProviderByClusterID never
-- returns nil without an error, so the branches for that are not there. Nothing happens within a pass
-- but its own calls; what others do stands between passes.
--
-- Not modelled: the generated copies of api/v1beta1, its list type and the registration with a scheme,
-- the parsing of the flags, and what controller-runtime does with the reconcilers, the predicates and
-- the webhook that it is given.
pub mod Api
pub mod Common
pub mod Config
pub mod Controller
pub mod Dict
pub mod Errors
pub mod Iam
pub mod Kube
pub mod Main
pub mod Sha256
pub mod Text
pub mod Thalassa
pub mod Webhook
pub mod Wif
