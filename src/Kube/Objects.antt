-- ===== src/Kube/Objects.antt =====
-- The objects that the client reads and writes, by kind. An object that the source handles as
-- `unstructured` is a record of the paths that the source sets or reads; each stands for the
-- nested field of the same path.
use paas_controlplane.Base.{String, List, [], Bool, false, Option, none, Dict, ℤ, pos}
use paas_controlplane.Api.{Meta, App, Release, Stack, Environment}
use paas_controlplane.Kube.Workloads.{PodSpec, empty_pod, ClaimTemplate, ServicePort, JobCondition}
use paas_controlplane.Kube.Operators.{CnpgCluster, ScheduledBackup, BucketClaim, SnapshotSchedule}

pub record Deployment : Type 0 where
  pub meta : Meta
  pub replicas : Option ℤ
  pub selector : Dict String
  pub template_labels : Dict String
  pub pod : PodSpec
  pub ready_replicas : ℤ

pub record Service : Type 0 where
  pub meta : Meta
  pub cluster_ip : String
  pub selector : Dict String
  pub ports : List ServicePort

pub record StatefulSet : Type 0 where
  pub meta : Meta
  pub service_name : String
  pub replicas : Option ℤ
  pub selector : Dict String
  pub template_labels : Dict String
  pub pod : PodSpec
  pub when_deleted : Option String
  pub volume_claim_templates : List ClaimTemplate
  pub ready_replicas : ℤ

-- A Secret or a ConfigMap.
pub record DataObject : Type 0 where
  pub meta : Meta
  pub entries : Dict String

pub record Job : Type 0 where
  pub meta : Meta
  pub backoff_limit : ℤ
  pub pod : PodSpec
  pub conditions : List JobCondition

-- A Namespace or a PersistentVolumeClaim, of which the program uses the metadata only.
pub record MetaObject : Type 0 where
  pub meta : Meta

-- snapshot.storage.k8s.io VolumeSnapshot
pub record VolumeSnapshot : Type 0 where
  pub meta : Meta
  pub class_name : String
  pub source_claim : String
  pub source_content : String
  pub ready_to_use : Bool
  pub bound_content : String

-- snapshot.storage.k8s.io VolumeSnapshotContent
pub record SnapshotContent : Type 0 where
  pub meta : Meta
  pub deletion_policy : String
  pub driver : String
  pub class_name : String
  pub source_handle : String
  pub ref_name : String
  pub ref_namespace : String
  pub status_handle : String

-- A document of the tenant baseline.
pub record BaselineObject : Type 0 where
  pub meta : Meta
  pub kind : String
  pub body : String

pub data Kind : Type 0 where
  app release stack environment deployment service stateful_set : Kind
  secret config_map job namespace claim snapshot snapshot_content : Kind
  cnpg_cluster scheduled_backup bucket_claim snapshot_schedule : Kind

abbrev pub Obj : Kind → Type 0
Obj app = App
Obj release = Release
Obj stack = Stack
Obj environment = Environment
Obj deployment = Deployment
Obj service = Service
Obj stateful_set = StatefulSet
Obj secret = DataObject
Obj config_map = DataObject
Obj job = Job
Obj namespace = MetaObject
Obj claim = MetaObject
Obj snapshot = VolumeSnapshot
Obj snapshot_content = SnapshotContent
Obj cnpg_cluster = CnpgCluster
Obj scheduled_backup = ScheduledBackup
Obj bucket_claim = BucketClaim
Obj snapshot_schedule = SnapshotSchedule

abbrev pub meta_of : (k : Kind) → Obj k → Meta
meta_of app o = o.meta
meta_of release o = o.meta
meta_of stack o = o.meta
meta_of environment o = o.meta
meta_of deployment o = o.meta
meta_of service o = o.meta
meta_of stateful_set o = o.meta
meta_of secret o = o.meta
meta_of config_map o = o.meta
meta_of job o = o.meta
meta_of namespace o = o.meta
meta_of claim o = o.meta
meta_of snapshot o = o.meta
meta_of snapshot_content o = o.meta
meta_of cnpg_cluster o = o.meta
meta_of scheduled_backup o = o.meta
meta_of bucket_claim o = o.meta
meta_of snapshot_schedule o = o.meta

abbrev pub fresh_deployment : Meta → Deployment
fresh_deployment m = record {
  meta = m;
  replicas = none;
  selector = [];
  template_labels = [];
  pod = empty_pod;
  ready_replicas = pos 0;
}

abbrev pub fresh_service : Meta → Service
fresh_service m = record { meta = m; cluster_ip = ""; selector = []; ports = [] }

abbrev pub fresh_stack : Meta → Stack
fresh_stack m = record {
  meta = m;
  spec = record { services = []; backing = []; volumes = [] };
  status = record {
    phase = "";
    observed_generation = pos 0;
    services = pos 0;
    ready_services = pos 0;
    release_hook = "";
  };
}

abbrev pub fresh_stateful_set : Meta → StatefulSet
fresh_stateful_set m = record {
  meta = m;
  service_name = "";
  replicas = none;
  selector = [];
  template_labels = [];
  pod = empty_pod;
  when_deleted = none;
  volume_claim_templates = [];
  ready_replicas = pos 0;
}

abbrev pub fresh_data : Meta → DataObject
fresh_data m = record { meta = m; entries = [] }

abbrev pub fresh_snapshot : Meta → VolumeSnapshot
fresh_snapshot m = record {
  meta = m;
  class_name = "";
  source_claim = "";
  source_content = "";
  ready_to_use = false;
  bound_content = "";
}

abbrev pub fresh_content : Meta → SnapshotContent
fresh_content m = record {
  meta = m;
  deletion_policy = "";
  driver = "";
  class_name = "";
  source_handle = "";
  ref_name = "";
  ref_namespace = "";
  status_handle = "";
}
