-- ===== src/Api/Apps.antt =====
-- api/v1alpha1/app_types.go and release_types.go
use paas_controlplane.Base.{String, List, ℤ}
use paas_controlplane.Api.ObjectMeta.{Meta}

pub record EnvVar : Type 0 where
  pub name : String
  pub value : String

pub record Resources : Type 0 where
  pub cpu : String
  pub memory : String

pub record AppSpec : Type 0 where
  pub owner : String
  pub port : ℤ
  pub replicas : ℤ
  pub env : List EnvVar
  pub resources : Resources
  pub domains : List String

pub record AppStatus : Type 0 where
  pub phase : String
  pub image : String
  pub url : String
  pub ready_replicas : ℤ
  pub observed_generation : ℤ

pub record App : Type 0 where
  pub meta : Meta
  pub spec : AppSpec
  pub status : AppStatus

pub record ReleaseSpec : Type 0 where
  pub app : String
  pub image : String
  pub git_sha : String

pub record ReleaseStatus : Type 0 where
  pub phase : String

pub record Release : Type 0 where
  pub meta : Meta
  pub spec : ReleaseSpec
  pub status : ReleaseStatus
