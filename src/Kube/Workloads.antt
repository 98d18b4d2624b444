-- ===== src/Kube/Workloads.antt =====
-- The shapes of pods and of what they hold, k8s.io/api/core/v1 and apps/v1, with the fields that
-- the program sets or reads. They are data of the API, not code.
use paas_controlplane.Base.{String, List, [], Bool, Option, none, ℤ}

-- resource.Quantity by how it was made: MustParse, NewMilliQuantity, NewQuantity.
pub data Quantity : Type 0 where
  must_parse : String → Quantity
  decimal_milli : ℤ → Quantity
  binary : ℤ → Quantity

-- corev1.ResourceList with its two keys, cpu and memory.
pub record ResourceList : Type 0 where
  pub cpu : Quantity
  pub memory : Quantity

pub record ResourceRequirements : Type 0 where
  pub requests : ResourceList
  pub limits : ResourceList

-- corev1.EnvVarSource: a key of a Secret or of a ConfigMap, or a literal `Value`.
pub data EnvSource : Type 0 where
  literal : String → EnvSource
  secret_key_ref : String → String → EnvSource
  config_map_key_ref : String → String → EnvSource

-- corev1.EnvVar
pub record ContainerEnv : Type 0 where
  pub name : String
  pub source : EnvSource

pub record ContainerPort : Type 0 where
  pub container_port : ℤ
  pub name : String

pub record VolumeMount : Type 0 where
  pub name : String
  pub mount_path : String

pub record SecurityContext : Type 0 where
  pub allow_privilege_escalation : Bool
  pub drop : List String

pub record Container : Type 0 where
  pub name : String
  pub image : String
  pub image_pull_policy : String
  pub command : List String
  pub args : List String
  pub env : List ContainerEnv
  pub ports : List ContainerPort
  pub resources : Option ResourceRequirements
  pub volume_mounts : List VolumeMount
  pub security_context : SecurityContext

pub record Toleration : Type 0 where
  pub key : String
  pub operator : String
  pub effect : String

pub record PodSecurityContext : Type 0 where
  pub run_as_user : Option ℤ
  pub run_as_group : Option ℤ
  pub fs_group : Option ℤ
  pub run_as_non_root : Option Bool

pub record PodSpec : Type 0 where
  pub restart_policy : String
  pub automount_service_account_token : Option Bool
  pub tolerations : List Toleration
  pub scheduler_name : String
  pub security_context : Option PodSecurityContext
  pub containers : List Container

abbrev pub empty_pod : PodSpec
empty_pod = record {
  restart_policy = "";
  automount_service_account_token = none;
  tolerations = [];
  scheduler_name = "";
  security_context = none;
  containers = [];
}

-- corev1.TypedLocalObjectReference
pub record DataSource : Type 0 where
  pub api_group : String
  pub kind : String
  pub name : String

-- An entry of VolumeClaimTemplates.
pub record ClaimTemplate : Type 0 where
  pub name : String
  pub access_modes : List String
  pub storage_class_name : String
  pub data_source : Option DataSource
  pub storage : Quantity

pub record ServicePort : Type 0 where
  pub name : String
  pub port : ℤ
  pub target_port : ℤ

pub record JobCondition : Type 0 where
  pub condition_type : String
  pub status : String
