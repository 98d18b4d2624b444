-- ===== src/StackController/Backings/Settled/Clones.antt =====
-- Which errors of a backing are only logged, stack_controller.go, servicedef.go and snapshots.go.
use paas_controlplane.Base.{String, Bool, Result, ok, err}
use paas_controlplane.Api.{Stack, NamespacedName}
use paas_controlplane.Kube.{
  Kube, Call, Err, MetaObject, SnapshotContent, VolumeSnapshot, create_or_update, update, object,
  claim, snapshot_schedule,
}
use paas_controlplane.Kube.Writes.{Writes, writes_rules}
use paas_controlplane.Kube.Strict.{Strict, IsSettled, lost, strict_rules}
use paas_controlplane.Snapshots.Clones.{
  ensure_backup_schedule, label_found, label_backup_pvc, share_snapshot, from_content, restore_from,
  from_source, snapshot_parent, prepare_clone_restore,
}

-- The calls whose error is logged and not returned: the backup label of a claim and the schedule of
-- the backups.
pub data IsBestEffort : Call → Type 0 where
  claim_label :
      (key : NamespacedName) (b : Bool)
      → IsBestEffort (record { verb = update; target = object claim key; succeeded = b })
  backup_schedule :
      (key : NamespacedName) (b : Bool)
      → IsBestEffort
          (record { verb = create_or_update; target = object snapshot_schedule key; succeeded = b })

ruleset best_effort = (writes_rules, lost, claim_label, backup_schedule)

module _ (K : Kube) (st : Stack) where
  pub ensure_backup_schedule-Writes :
      Writes K (IsSettled IsBestEffort) (ensure_backup_schedule K st)
  unfolding ensure_backup_schedule
  ensure_backup_schedule-Writes = search best_effort

  label_found-Writes :
      (backing_name : String) (got : Result (Err K.Error) MetaObject)
      → Writes K (IsSettled IsBestEffort) (label_found K backing_name got)
  label_found-Writes backing_name (ok pvc) = search best_effort
  label_found-Writes backing_name (err e) = search best_effort

  pub label_backup_pvc-Writes :
      (backing_name : String)
      → Writes K (IsSettled IsBestEffort) (label_backup_pvc K st backing_name)
  unfolding label_backup_pvc
  label_backup_pvc-Writes backing_name = search (best_effort, label_found-Writes)

  share_snapshot-Strict :
      (backing_name driver handle : String)
      → Strict K (IsSettled IsBestEffort) (share_snapshot K st backing_name driver handle)
  unfolding share_snapshot
  share_snapshot-Strict backing_name driver handle = search strict_rules

  from_content-Strict :
      (backing_name : String) (got : Result (Err K.Error) SnapshotContent)
      → Strict K (IsSettled IsBestEffort) (from_content K st backing_name got)
  from_content-Strict backing_name (ok c) = search (strict_rules, share_snapshot-Strict)
  from_content-Strict backing_name (err e) = search strict_rules

  restore_from-Strict :
      (backing_name bound_content : String)
      → Strict K (IsSettled IsBestEffort) (restore_from K st backing_name bound_content)
  unfolding restore_from
  restore_from-Strict backing_name bound_content = search (strict_rules, from_content-Strict)

  from_source-Strict :
      (backing_name : String) (src : VolumeSnapshot)
      → Strict K (IsSettled IsBestEffort) (from_source K st backing_name src)
  from_source-Strict backing_name src = search (strict_rules, restore_from-Strict)

  snapshot_parent-Strict :
      (backing_name : String)
      → Strict K (IsSettled IsBestEffort) (snapshot_parent K st backing_name)
  unfolding snapshot_parent
  snapshot_parent-Strict backing_name = search (strict_rules, from_source-Strict)

  pub prepare_clone_restore-Strict :
      (backing_name : String)
      → Strict K (IsSettled IsBestEffort) (prepare_clone_restore K st backing_name)
  unfolding prepare_clone_restore
  prepare_clone_restore-Strict backing_name = search (strict_rules, snapshot_parent-Strict)
