-- ===== src/Kube.antt =====
-- The Kubernetes API as internal/controller uses it, and the functions of controller-runtime's
-- controllerutil that it calls: code outside the repository, so parameters over an unknown state. Of
-- its resources the fields are kept that the program reads or writes; an update that meets a newer
-- version of the resource is one that fails.
pub mod Laws
pub mod Memory
use thalassa_workload_identi.Common.{ℕ, Bool, Option, List}
use thalassa_workload_identi.Text.Eq.{Text}
use thalassa_workload_identi.Dict.{Dict}
use thalassa_workload_identi.Errors.{not_found, remote, Result, ok, err}
use thalassa_workload_identi.Api.{WorkloadIdentityBinding}

-- `corev1.ServiceAccount`
pub record ServiceAccount : Type 0 where
  pub namespace : Text
  pub name : Text
  pub annotations : Dict
  pub finalizers : List Text
  pub deleting : Bool

-- `metav1.OwnerReference`
pub record OwnerReference : Type 0 where
  pub kind : Text
  pub name : Text
  pub controller : Bool

-- `corev1.ConfigMap`
pub record ConfigMap : Type 0 where
  pub namespace : Text
  pub name : Text
  pub labels : Dict
  pub owner_references : List OwnerReference
  pub entries : Dict

-- What a request comes to: a value, an error for which `apierrors.IsNotFound` holds, or another one.
pub data Response (A : Type 0) : Type 0 where
  given : A → Response A
  missing : Text → Response A
  failed : Text → Response A

pub record KubeClient : Type 1 where
  pub State : Type 0
  pub get_service_account : Text → Text → State → Response ServiceAccount × State
  pub update_service_account : ServiceAccount → State → Response (Unit {0}) × State
  pub get_binding : Text → Text → State → Response WorkloadIdentityBinding × State
  pub update_binding : WorkloadIdentityBinding → State → Response (Unit {0}) × State
  -- `r.Status().Update`
  pub update_binding_status : WorkloadIdentityBinding → State → Response (Unit {0}) × State
  -- `controllerutil.CreateOrUpdate` of the config map with a namespace and a name.
  pub create_or_update_config_map :
      Text → Text → (ConfigMap → Response ConfigMap) → State → Response (Unit {0}) × State
  pub set_controller_reference : WorkloadIdentityBinding → ConfigMap → Response ConfigMap
  pub contains_finalizer : List Text → Text → Bool
  pub add_finalizer : List Text → Text → List Text
  pub remove_finalizer : List Text → Text → List Text
  -- What `time.Now` reads, and its text in the layout RFC 3339.
  pub now : State → ℕ
  pub rfc3339 : ℕ → Text

-- The error of a response is returned as it is.
abbrev pub replied : {A S : Type 0} → Response A × S → Result A × S
replied (given a, s) = (ok a, s)
replied (missing m, s) = (err (not_found m), s)
replied (failed m, s) = (err (remote m), s)
