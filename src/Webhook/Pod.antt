-- ===== src/Webhook/Pod.antt =====
-- The parts of k8s.io/api/core/v1 that the pod webhook reads or writes: a pod, its containers and
-- its volumes. A missing pointer is `none`.
use thalassa_workload_identi.Common.{ℕ, Bool, Option, List}
use thalassa_workload_identi.Text.Eq.{Text}
use thalassa_workload_identi.Dict.{Dict}

pub record EnvVar : Type 0 where
  pub name : Text
  pub value : Text

pub record VolumeMount : Type 0 where
  pub name : Text
  pub mount_path : Text
  pub read_only : Bool

pub record Container : Type 0 where
  pub name : Text
  pub env : List EnvVar
  pub volume_mounts : List VolumeMount

pub record TokenProjection : Type 0 where
  pub path : Text
  pub audience : Text
  pub expiration_seconds : Option ℕ

-- One source of a projected volume, by its `ServiceAccountToken`.
pub record VolumeProjection : Type 0 where
  pub service_account_token : Option TokenProjection

-- A volume, by its name and the sources of `Projected`.
pub record Volume : Type 0 where
  pub name : Text
  pub projected : Option (List VolumeProjection)

pub record Pod : Type 0 where
  pub namespace : Text
  pub labels : Dict
  pub service_account_name : Text
  pub volumes : List Volume
  pub init_containers : List Container
  pub containers : List Container
