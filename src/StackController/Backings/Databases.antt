-- ===== src/StackController/Backings/Databases.antt =====
-- What a postgres or an object backing writes, stack_controller.go.
use paas_controlplane.Base.{String, Bool, true, false, Option, none, some, Result, ok, err}
use paas_controlplane.Api.{Stack, BackingSpec}
use paas_controlplane.Kube.{Kube, Err, CnpgCluster, DataObject, BucketClaim}
use paas_controlplane.Kube.Writes.{Writes}
use paas_controlplane.StackController.Setup.{StackReconciler}
use paas_controlplane.StackController.Buckets.{
  Bucket, from_config_map, bucket_of, after_claim, ensure_bucket, reconcile_object,
}
use paas_controlplane.StackController.Postgres.{
  Seed, CloneSource, from_bucket_map, parent_bucket, from_parent, parent_recoverable,
  copy_backup_creds, ensure_scheduled_backup, backup_if, own_bucket, ensure_cluster, seed_clone,
  first_clone, by_source, reconcile_postgres,
}
use paas_controlplane.StackController.Backings.Isolation.{IsBackingWrite, backing_writes}

module _ (K : Kube) (r : StackReconciler) (st : Stack) where
  from_config_map-Writes :
      (got : Result (Err K.Error) DataObject) → Writes K (IsBackingWrite st) (from_config_map K got)
  from_config_map-Writes (ok cm) = search backing_writes
  from_config_map-Writes (err e) = search backing_writes

  bucket_of-Writes : (obc_name : String) → Writes K (IsBackingWrite st) (bucket_of K st obc_name)
  unfolding bucket_of
  bucket_of-Writes obc_name = search (backing_writes, from_config_map-Writes)

  after_claim-Writes :
      (obc_name : String) (obc : BucketClaim)
      → Writes K (IsBackingWrite st) (after_claim K st obc_name obc)
  after_claim-Writes obc_name obc = search (backing_writes, bucket_of-Writes)

  ensure_bucket-Writes :
      (obc_name : String) → Writes K (IsBackingWrite st) (ensure_bucket K r st obc_name)
  unfolding ensure_bucket
  ensure_bucket-Writes obc_name = search (backing_writes, after_claim-Writes)

  pub reconcile_object-Writes :
      (b : BackingSpec) → Writes K (IsBackingWrite st) (reconcile_object K r st b)
  unfolding reconcile_object
  reconcile_object-Writes b = search (backing_writes, ensure_bucket-Writes)

  from_bucket_map-Writes :
      (got : Result (Err K.Error) DataObject) → Writes K (IsBackingWrite st) (from_bucket_map K got)
  from_bucket_map-Writes (ok cm) = search backing_writes
  from_bucket_map-Writes (err e) = search backing_writes

  parent_bucket-Writes :
      (ns cluster : String) → Writes K (IsBackingWrite st) (parent_bucket K ns cluster)
  unfolding parent_bucket
  parent_bucket-Writes ns cluster = search (backing_writes, from_bucket_map-Writes)

  from_parent-Writes :
      (ns cluster : String) (got : Result (Err K.Error) CnpgCluster)
      → Writes K (IsBackingWrite st) (from_parent K ns cluster got)
  from_parent-Writes ns cluster (ok pc) = search (backing_writes, parent_bucket-Writes)
  from_parent-Writes ns cluster (err e) = search backing_writes

  parent_recoverable-Writes :
      (ns cluster : String) → Writes K (IsBackingWrite st) (parent_recoverable K ns cluster)
  unfolding parent_recoverable
  parent_recoverable-Writes ns cluster = search (backing_writes, from_parent-Writes)

  copy_backup_creds-Writes :
      (src_ns src_name dst_name : String)
      → Writes K (IsBackingWrite st) (copy_backup_creds K st src_ns src_name dst_name)
  unfolding copy_backup_creds
  copy_backup_creds-Writes src_ns src_name dst_name = search backing_writes

  ensure_scheduled_backup-Writes :
      (name : String) → Writes K (IsBackingWrite st) (ensure_scheduled_backup K st name)
  unfolding ensure_scheduled_backup
  ensure_scheduled_backup-Writes name = search backing_writes

  backup_if-Writes :
      (wired : Bool) (name : String) → Writes K (IsBackingWrite st) (backup_if K wired st name)
  backup_if-Writes true name = ensure_scheduled_backup-Writes name
  backup_if-Writes false name = search backing_writes

  own_bucket-Writes :
      (wanted : Bool) (name : String) → Writes K (IsBackingWrite st) (own_bucket K wanted r st name)
  own_bucket-Writes true name = search ensure_bucket-Writes
  own_bucket-Writes false name = search backing_writes

  ensure_cluster-Writes :
      (b : BackingSpec) (wanted : Bool) (seed : Option Seed)
      → Writes K (IsBackingWrite st) (ensure_cluster K r st b wanted seed)
  unfolding ensure_cluster
  ensure_cluster-Writes b wanted seed = search (backing_writes, own_bucket-Writes, backup_if-Writes)

  seed_clone-Writes :
      (b : BackingSpec) (source : CloneSource) (parent : Bucket)
      → Writes K (IsBackingWrite st) (seed_clone K r st b source parent)
  seed_clone-Writes b source parent =
      search (backing_writes, copy_backup_creds-Writes, ensure_cluster-Writes)

  first_clone-Writes :
      (b : BackingSpec) (source : CloneSource)
      → Writes K (IsBackingWrite st) (first_clone K r st b source)
  unfolding first_clone
  first_clone-Writes b source =
      search (backing_writes, parent_recoverable-Writes, seed_clone-Writes)

  by_source-Writes :
      (b : BackingSpec) (source : Option CloneSource) (exists : Bool)
      → Writes K (IsBackingWrite st) (by_source K r st b source exists)
  by_source-Writes b none exists = ensure_cluster-Writes b b.backup none
  by_source-Writes b (some source) true = ensure_cluster-Writes b false none
  by_source-Writes b (some source) false = first_clone-Writes b source

  pub reconcile_postgres-Writes :
      (b : BackingSpec) → Writes K (IsBackingWrite st) (reconcile_postgres K r st b)
  unfolding reconcile_postgres
  reconcile_postgres-Writes b = search (backing_writes, by_source-Writes)
