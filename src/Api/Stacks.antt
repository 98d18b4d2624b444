-- ===== src/Api/Stacks.antt =====
-- api/v1alpha1/stack_types.go
use paas_controlplane.Base.{String, List, Bool, Option, ℤ}
use paas_controlplane.Api.ObjectMeta.{Meta}
use paas_controlplane.Api.Apps.{EnvVar, Resources}

pub record BuildSpec : Type 0 where
  pub repo_subdir : String
  pub dockerfile : String

pub record ProcessSpec : Type 0 where
  pub name : String
  pub command : String
  pub port : ℤ
  pub replicas : ℤ
  pub kind : String
  pub resources : Resources

pub record Hooks : Type 0 where
  pub release : String

-- The fields `to` and `as` of the source.
pub record ConnectionSpec : Type 0 where
  pub to : String
  pub as_name : String

pub record ServiceSpec : Type 0 where
  pub name : String
  pub image : String
  pub build : Option BuildSpec
  pub processes : List ProcessSpec
  pub env : List EnvVar
  pub hooks : Option Hooks
  pub connections : List ConnectionSpec

-- The field `type` of the source is `engine`.
pub record BackingSpec : Type 0 where
  pub name : String
  pub engine : String
  pub version : String
  pub disk : String
  pub plan : String
  pub image : String
  pub port : ℤ
  pub backup : Bool

pub record VolumeSpec : Type 0 where
  pub name : String
  pub kind : String

pub record StackSpec : Type 0 where
  pub services : List ServiceSpec
  pub backing : List BackingSpec
  pub volumes : List VolumeSpec

pub record StackStatus : Type 0 where
  pub phase : String
  pub observed_generation : ℤ
  pub services : ℤ
  pub ready_services : ℤ
  pub release_hook : String

pub record Stack : Type 0 where
  pub meta : Meta
  pub spec : StackSpec
  pub status : StackStatus
