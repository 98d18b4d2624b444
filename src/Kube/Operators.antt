-- ===== src/Kube/Operators.antt =====
-- The objects of the operators that the Stack controller drives as `unstructured`: each record has
-- the paths that the source sets or reads.
use paas_controlplane.Base.{String, List, [], Bool, false, Option, none, Dict, ℤ, pos}
use paas_controlplane.Api.{Meta}
use paas_controlplane.Kube.Workloads.{Toleration}

-- A map {"name": ..., "key": ...} that names a key of a Secret.
pub record SecretKey : Type 0 where
  pub name : String
  pub key : String

pub record S3Credentials : Type 0 where
  pub access_key_id : SecretKey
  pub secret_access_key : SecretKey

-- spec.externalClusters[0]
pub record ExternalCluster : Type 0 where
  pub name : String
  pub destination_path : String
  pub endpoint_url : String
  pub server_name : String
  pub s3_credentials : S3Credentials
  pub wal_compression : String

-- spec.backup.barmanObjectStore
pub record BarmanStore : Type 0 where
  pub destination_path : String
  pub endpoint_url : String
  pub s3_credentials : S3Credentials
  pub wal_compression : String
  pub data_compression : String
  pub immediate_checkpoint : Bool

-- spec.bootstrap.initdb
pub record InitDb : Type 0 where
  pub database : String
  pub owner : String

-- postgresql.cnpg.io Cluster
pub record CnpgCluster : Type 0 where
  pub meta : Meta
  pub instances : ℤ
  pub storage_size : String
  pub storage_class : String
  pub image_name : String
  pub recovery_source : Option String
  pub external_clusters : List ExternalCluster
  pub init_db : Option InitDb
  pub barman_object_store : Option BarmanStore
  pub retention_policy : String
  pub tolerations : List Toleration
  pub ready_instances : ℤ
  pub first_recoverability_point : String
  pub first_recoverability_point_by_method : Dict String

abbrev pub fresh_cnpg_cluster : Meta → CnpgCluster
fresh_cnpg_cluster m = record {
  meta = m;
  instances = pos 0;
  storage_size = "";
  storage_class = "";
  image_name = "";
  recovery_source = none;
  external_clusters = [];
  init_db = none;
  barman_object_store = none;
  retention_policy = "";
  tolerations = [];
  ready_instances = pos 0;
  first_recoverability_point = "";
  first_recoverability_point_by_method = [];
}

-- postgresql.cnpg.io ScheduledBackup
pub record ScheduledBackup : Type 0 where
  pub meta : Meta
  pub schedule : String
  pub immediate : Bool
  pub backup_owner_reference : String
  pub cluster_name : String

abbrev pub fresh_scheduled_backup : Meta → ScheduledBackup
fresh_scheduled_backup m = record {
  meta = m;
  schedule = "";
  immediate = false;
  backup_owner_reference = "";
  cluster_name = "";
}

-- objectbucket.io ObjectBucketClaim
pub record BucketClaim : Type 0 where
  pub meta : Meta
  pub generate_bucket_name : String
  pub storage_class_name : String
  pub phase : String

abbrev pub fresh_bucket_claim : Meta → BucketClaim
fresh_bucket_claim m = record {
  meta = m;
  generate_bucket_name = "";
  storage_class_name = "";
  phase = "";
}

-- snapscheduler.backube SnapshotSchedule
pub record SnapshotSchedule : Type 0 where
  pub meta : Meta
  pub match_labels : Dict String
  pub schedule : String
  pub max_count : ℤ
  pub snapshot_class_name : String

abbrev pub fresh_snapshot_schedule : Meta → SnapshotSchedule
fresh_snapshot_schedule m = record {
  meta = m;
  match_labels = [];
  schedule = "";
  max_count = pos 0;
  snapshot_class_name = "";
}
