-- ===== src/Snapshots/Clones.antt =====
-- The rest of internal/controller/snapshots.go: the schedule that snapshots the claims of a Stack, and
-- the restore of a claim of the parent for a preview.
pub mod Collected
use paas_controlplane.Base.{
  String, [], ◌∷◌, Bool, false, Dict, pos, insert, value_at, ◌⧺◌, ◌==◌, ◌||◌, if◌then◌else◌, Result,
  ok, err, and_then,
}
use paas_controlplane.Api.{Stack, Meta, named}
use paas_controlplane.Kube.{
  Kube, Io, Err, wrap, MetaObject, VolumeSnapshot, SnapshotContent, SnapshotSchedule, snapshot,
  snapshot_content, snapshot_schedule, claim, stack, set_owner, get, ensure, update_object, try,
  on_error, pure, returns, ignore_not_found, fresh_snapshot, fresh_content, fresh_snapshot_schedule,
  ◌>>=◌, ◌>>◌,
}
use paas_controlplane.Snapshots.{pvc_name_for, clone_owner_label}

abbrev pub snapshot_class : String
snapshot_class = "ceph-block-snap"

abbrev pub backup_label : String
backup_label = "paas.sh/backup"

-- What the mutate function of ensureBackupSchedule makes of the schedule.
abbrev pub written_schedule : Meta → SnapshotSchedule → SnapshotSchedule
written_schedule meta o = record o {
  meta = meta;
  match_labels = (backup_label, "true") ∷ [];
  schedule = "0 3 * * *";
  max_count = pos 7;
  snapshot_class_name = snapshot_class;
}

-- The names that prepareCloneRestore goes by.
abbrev pub parent_namespace : Stack → String
parent_namespace st = value_at "paas.sh/clone-from-namespace" st.meta.annotations

abbrev pub parent_stack : Stack → String
parent_stack st = value_at "paas.sh/clone-from-stack" st.meta.annotations

abbrev pub clone_name : Stack → String → String
clone_name st backing_name = "paas-clone-" ⧺ st.meta.namespace ⧺ "-" ⧺ backing_name

abbrev pub restore_name : String → String
restore_name backing_name = "clone-" ⧺ backing_name

abbrev pub clone_labels : Stack → Dict String
clone_labels st = (clone_owner_label, st.meta.namespace) ∷ []

-- The three mutate functions of prepareCloneRestore.
unfoldable pub written_source : Stack → String → VolumeSnapshot → VolumeSnapshot
written_source st parent_pvc o = record o {
  meta = record o.meta { labels = clone_labels st };
  class_name = snapshot_class;
  source_claim = parent_pvc;
}

unfoldable pub written_content :
    Stack → String → String → String → SnapshotContent → SnapshotContent
written_content st driver handle restore_vs o = record o {
  meta = record o.meta { labels = clone_labels st };
  deletion_policy = "Retain";
  driver = driver;
  class_name = snapshot_class;
  source_handle = handle;
  ref_name = restore_vs;
  ref_namespace = st.meta.namespace;
}

unfoldable pub written_restore : Stack → String → VolumeSnapshot → VolumeSnapshot
written_restore st content_name o = record o {
  meta = record o.meta { labels = clone_labels st };
  class_name = snapshot_class;
  source_content = content_name;
}

-- What prepareCloneRestore returns beside the error.
pub record Restore : Type 0 where
  pub restore_vs : String
  pub ready : Bool

abbrev pub no_restore : Restore
no_restore = record { restore_vs = ""; ready = false }

module _ (K : Kube) where
  unfoldable pub ensure_backup_schedule : Stack → Io K (Unit {0})
  unfolding ◌>>=◌
  ensure_backup_schedule st = do
    on_error (wrap ("snapshotschedule " ⧺ st.meta.name)) (
        ensure K snapshot_schedule
          (fresh_snapshot_schedule (named st.meta.namespace (st.meta.name ⧺ "-backup")))
          (λ o. and_then (set_owner K stack st.meta o.meta) λ meta. ok (written_schedule meta o)))
    pure tt

  abbrev pub label_claim : String → MetaObject → Io K (Unit {0})
  label_claim backing_name pvc =
      if value_at backup_label pvc.meta.labels == "true" then pure tt else do
        update_object K claim (record {
          meta = record pvc.meta {
            labels =
                insert "paas.sh/backing" backing_name (insert backup_label "true" pvc.meta.labels);
          };
        })
        pure tt

  abbrev pub label_found : String → Result (Err K.Error) MetaObject → Io K (Unit {0})
  label_found backing_name (ok pvc) = label_claim backing_name pvc
  label_found backing_name (err e) = returns K tt (ignore_not_found K e)

  unfoldable pub label_backup_pvc : Stack → String → Io K (Unit {0})
  unfolding ◌>>=◌ insert value_at
  label_backup_pvc st backing_name = do
    let pvc = pvc_name_for st.meta.name backing_name
    got ← try (get K claim (record { namespace = st.meta.namespace; name = pvc }))
    label_found backing_name got

  -- Steps 2 and 3 of prepareCloneRestore: the static content and the restore snapshot.
  unfoldable pub share_snapshot : Stack → String → String → String → Io K Restore
  unfolding ◌>>=◌ written_content written_restore
  share_snapshot st backing_name driver handle = do
    let restore_vs = restore_name backing_name
    let content_name = clone_name st backing_name
    on_error (wrap ("clone static content " ⧺ content_name)) (
        ensure K snapshot_content (fresh_content (named "" content_name))
          (λ o. ok (written_content st driver handle restore_vs o)))
    rvs ← on_error (wrap ("clone restore snapshot " ⧺ st.meta.namespace ⧺ "/" ⧺ restore_vs)) (
        ensure K snapshot (fresh_snapshot (named st.meta.namespace restore_vs))
          (λ o. ok (written_restore st content_name o)))
    pure (record { restore_vs = restore_vs; ready = rvs.ready_to_use })

  abbrev pub from_content : Stack → String → Result (Err K.Error) SnapshotContent → Io K Restore
  from_content st backing_name (ok c) =
      if (c.status_handle == "") || (c.driver == "")
      then pure no_restore
      else share_snapshot st backing_name c.driver c.status_handle
  from_content st backing_name (err e) = returns K no_restore (ignore_not_found K e)

  unfoldable pub restore_from : Stack → String → String → Io K Restore
  unfolding ◌>>=◌ share_snapshot
  restore_from st backing_name bound_content = do
    got ← try (get K snapshot_content (record { namespace = ""; name = bound_content }))
    from_content st backing_name got

  abbrev pub from_source : Stack → String → VolumeSnapshot → Io K Restore
  from_source st backing_name src =
      if src.ready_to_use
      then (if src.bound_content == ""
          then pure no_restore
          else restore_from st backing_name src.bound_content)
      else pure no_restore

  -- Step 1 of prepareCloneRestore and what follows.
  unfoldable pub snapshot_parent : Stack → String → Io K Restore
  unfolding ◌>>=◌ written_source restore_from
  snapshot_parent st backing_name = do
    let src_name = clone_name st backing_name
    src ← on_error (wrap ("clone source snapshot " ⧺ parent_namespace st ⧺ "/" ⧺ src_name)) (
        ensure K snapshot (fresh_snapshot (named (parent_namespace st) src_name))
          (λ o. ok (written_source st (pvc_name_for (parent_stack st) backing_name) o)))
    from_source st backing_name src

  unfoldable pub prepare_clone_restore : Stack → String → Io K Restore
  unfolding snapshot_parent value_at
  prepare_clone_restore st backing_name =
      if (parent_namespace st == "") || (parent_stack st == "")
      then pure no_restore
      else snapshot_parent st backing_name
