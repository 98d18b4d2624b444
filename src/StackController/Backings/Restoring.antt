-- ===== src/StackController/Backings/Restoring.antt =====
-- What prepareCloneRestore of snapshots.go writes.
use paas_controlplane.Base.{String, Bool, Result, ok, err}
use paas_controlplane.Api.{Stack}
use paas_controlplane.Kube.{
  Kube, Call, Err, SnapshotContent, VolumeSnapshot, create_or_update, object, snapshot,
  snapshot_content,
}
use paas_controlplane.Kube.Writes.{Writes, writes_rules}
use paas_controlplane.Snapshots.Clones.{
  parent_namespace, clone_name, restore_name, share_snapshot, from_content, restore_from,
  from_source, snapshot_parent, prepare_clone_restore,
}

-- The calls for the clone of a volume: the restore snapshot in the Stack's namespace, the source snapshot in the
-- parent's, and the snapshot content, the last two with a name that starts with the Stack's namespace.
pub data IsCloneWrite (st : Stack) : Call → Type 0 where
  restore_write :
      (backing_name : String) (b : Bool)
      → IsCloneWrite st (record {
        verb = create_or_update;
        target =
            object snapshot
              (record { namespace = st.meta.namespace; name = restore_name backing_name });
        succeeded = b;
      })
  source_write :
      (backing_name : String) (b : Bool)
      → IsCloneWrite st (record {
        verb = create_or_update;
        target =
            object snapshot
              (record { namespace = parent_namespace st; name = clone_name st backing_name });
        succeeded = b;
      })
  content_write :
      (backing_name : String) (b : Bool)
      → IsCloneWrite st (record {
        verb = create_or_update;
        target =
            object snapshot_content (record { namespace = ""; name = clone_name st backing_name });
        succeeded = b;
      })

ruleset clone_writes = (writes_rules, restore_write, source_write, content_write)

module _ (K : Kube) (st : Stack) where
  share_snapshot-CloneWrites :
      (backing_name driver handle : String)
      → Writes K (IsCloneWrite st) (share_snapshot K st backing_name driver handle)
  unfolding share_snapshot
  share_snapshot-CloneWrites backing_name driver handle = search clone_writes

  from_content-CloneWrites :
      (backing_name : String) (got : Result (Err K.Error) SnapshotContent)
      → Writes K (IsCloneWrite st) (from_content K st backing_name got)
  from_content-CloneWrites backing_name (ok c) = search (clone_writes, share_snapshot-CloneWrites)
  from_content-CloneWrites backing_name (err e) = search clone_writes

  restore_from-CloneWrites :
      (backing_name bound_content : String)
      → Writes K (IsCloneWrite st) (restore_from K st backing_name bound_content)
  unfolding restore_from
  restore_from-CloneWrites backing_name bound_content =
      search (clone_writes, from_content-CloneWrites)

  from_source-CloneWrites :
      (backing_name : String) (src : VolumeSnapshot)
      → Writes K (IsCloneWrite st) (from_source K st backing_name src)
  from_source-CloneWrites backing_name src = search (clone_writes, restore_from-CloneWrites)

  snapshot_parent-CloneWrites :
      (backing_name : String) → Writes K (IsCloneWrite st) (snapshot_parent K st backing_name)
  unfolding snapshot_parent
  snapshot_parent-CloneWrites backing_name = search (clone_writes, from_source-CloneWrites)

  pub prepare_clone_restore-CloneWrites :
      (backing_name : String) → Writes K (IsCloneWrite st) (prepare_clone_restore K st backing_name)
  unfolding prepare_clone_restore
  prepare_clone_restore-CloneWrites backing_name =
      search (clone_writes, snapshot_parent-CloneWrites)
