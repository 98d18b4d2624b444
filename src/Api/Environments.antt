-- ===== src/Api/Environments.antt =====
-- api/v1alpha1/environment_types.go
use paas_controlplane.Base.{String, Bool, Option, ℤ}
use paas_controlplane.Api.ObjectMeta.{Meta}
use paas_controlplane.Api.Stacks.{StackSpec}

-- The field `type` of the source is `env_type`.
pub record EnvironmentSpec : Type 0 where
  pub project : String
  pub env_type : String
  pub clone_from : String
  pub stack : Option StackSpec

pub record EnvironmentStatus : Type 0 where
  pub namespace : String
  pub phase : String
  pub baseline_stamped : Bool
  pub observed_generation : ℤ

pub record Environment : Type 0 where
  pub meta : Meta
  pub spec : EnvironmentSpec
  pub status : EnvironmentStatus
