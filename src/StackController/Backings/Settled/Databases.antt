-- ===== src/StackController/Backings/Settled/Databases.antt =====
-- No error of a postgres or an object backing is lost, stack_controller.go.
use paas_controlplane.Base.{String, Bool, true, false, Option, none, some, Result, ok, err}
use paas_controlplane.Api.{Stack, BackingSpec}
use paas_controlplane.Kube.{Kube, Err, CnpgCluster, DataObject, BucketClaim}
use paas_controlplane.Kube.Strict.{Strict, IsSettled, strict_rules}
use paas_controlplane.StackController.Setup.{StackReconciler}
use paas_controlplane.StackController.Buckets.{
  Bucket, from_config_map, bucket_of, after_claim, ensure_bucket, reconcile_object,
}
use paas_controlplane.StackController.Postgres.{
  Seed, CloneSource, from_bucket_map, parent_bucket, from_parent, parent_recoverable,
  copy_backup_creds, ensure_scheduled_backup, backup_if, own_bucket, ensure_cluster, seed_clone,
  first_clone, by_source, reconcile_postgres,
}
use paas_controlplane.StackController.Backings.Settled.Clones.{IsBestEffort}

module _ (K : Kube) (r : StackReconciler) (st : Stack) where
  from_config_map-Strict :
      (got : Result (Err K.Error) DataObject)
      → Strict K (IsSettled IsBestEffort) (from_config_map K got)
  from_config_map-Strict (ok cm) = search strict_rules
  from_config_map-Strict (err e) = search strict_rules

  bucket_of-Strict :
      (obc_name : String) → Strict K (IsSettled IsBestEffort) (bucket_of K st obc_name)
  unfolding bucket_of
  bucket_of-Strict obc_name = search (strict_rules, from_config_map-Strict)

  after_claim-Strict :
      (obc_name : String) (obc : BucketClaim)
      → Strict K (IsSettled IsBestEffort) (after_claim K st obc_name obc)
  after_claim-Strict obc_name obc = search (strict_rules, bucket_of-Strict)

  ensure_bucket-Strict :
      (obc_name : String) → Strict K (IsSettled IsBestEffort) (ensure_bucket K r st obc_name)
  unfolding ensure_bucket
  ensure_bucket-Strict obc_name = search (strict_rules, after_claim-Strict)

  pub reconcile_object-Strict :
      (b : BackingSpec) → Strict K (IsSettled IsBestEffort) (reconcile_object K r st b)
  unfolding reconcile_object
  reconcile_object-Strict b = search (strict_rules, ensure_bucket-Strict)

  from_bucket_map-Strict :
      (got : Result (Err K.Error) DataObject)
      → Strict K (IsSettled IsBestEffort) (from_bucket_map K got)
  from_bucket_map-Strict (ok cm) = search strict_rules
  from_bucket_map-Strict (err e) = search strict_rules

  parent_bucket-Strict :
      (ns cluster : String) → Strict K (IsSettled IsBestEffort) (parent_bucket K ns cluster)
  unfolding parent_bucket
  parent_bucket-Strict ns cluster = search (strict_rules, from_bucket_map-Strict)

  from_parent-Strict :
      (ns cluster : String) (got : Result (Err K.Error) CnpgCluster)
      → Strict K (IsSettled IsBestEffort) (from_parent K ns cluster got)
  from_parent-Strict ns cluster (ok pc) = search (strict_rules, parent_bucket-Strict)
  from_parent-Strict ns cluster (err e) = search strict_rules

  parent_recoverable-Strict :
      (ns cluster : String) → Strict K (IsSettled IsBestEffort) (parent_recoverable K ns cluster)
  unfolding parent_recoverable
  parent_recoverable-Strict ns cluster = search (strict_rules, from_parent-Strict)

  copy_backup_creds-Strict :
      (src_ns src_name dst_name : String)
      → Strict K (IsSettled IsBestEffort) (copy_backup_creds K st src_ns src_name dst_name)
  unfolding copy_backup_creds
  copy_backup_creds-Strict src_ns src_name dst_name = search strict_rules

  ensure_scheduled_backup-Strict :
      (name : String) → Strict K (IsSettled IsBestEffort) (ensure_scheduled_backup K st name)
  unfolding ensure_scheduled_backup
  ensure_scheduled_backup-Strict name = search strict_rules

  backup_if-Strict :
      (wired : Bool) (name : String) → Strict K (IsSettled IsBestEffort) (backup_if K wired st name)
  backup_if-Strict true name = ensure_scheduled_backup-Strict name
  backup_if-Strict false name = search strict_rules

  own_bucket-Strict :
      (wanted : Bool) (name : String)
      → Strict K (IsSettled IsBestEffort) (own_bucket K wanted r st name)
  own_bucket-Strict true name = search ensure_bucket-Strict
  own_bucket-Strict false name = search strict_rules

  ensure_cluster-Strict :
      (b : BackingSpec) (wanted : Bool) (seed : Option Seed)
      → Strict K (IsSettled IsBestEffort) (ensure_cluster K r st b wanted seed)
  unfolding ensure_cluster
  ensure_cluster-Strict b wanted seed = search (strict_rules, own_bucket-Strict, backup_if-Strict)

  seed_clone-Strict :
      (b : BackingSpec) (source : CloneSource) (parent : Bucket)
      → Strict K (IsSettled IsBestEffort) (seed_clone K r st b source parent)
  seed_clone-Strict b source parent =
      search (strict_rules, copy_backup_creds-Strict, ensure_cluster-Strict)

  first_clone-Strict :
      (b : BackingSpec) (source : CloneSource)
      → Strict K (IsSettled IsBestEffort) (first_clone K r st b source)
  unfolding first_clone
  first_clone-Strict b source = search (strict_rules, parent_recoverable-Strict, seed_clone-Strict)

  by_source-Strict :
      (b : BackingSpec) (source : Option CloneSource) (exists : Bool)
      → Strict K (IsSettled IsBestEffort) (by_source K r st b source exists)
  by_source-Strict b none exists = ensure_cluster-Strict b b.backup none
  by_source-Strict b (some source) true = ensure_cluster-Strict b false none
  by_source-Strict b (some source) false = first_clone-Strict b source

  pub reconcile_postgres-Strict :
      (b : BackingSpec) → Strict K (IsSettled IsBestEffort) (reconcile_postgres K r st b)
  unfolding reconcile_postgres
  reconcile_postgres-Strict b = search (strict_rules, by_source-Strict)
