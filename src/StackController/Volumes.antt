-- ===== src/StackController/Volumes.antt =====
-- What reconcileTemplated and reconcileFallback have in common: names, labels, the data claim of a
-- StatefulSet, and where its contents come from.
pub mod Claims
use paas_controlplane.Base.{
  String, [], ◌∷◌, Bool, true, false, not, ◌&&◌, Option, some, Dict, ◌⧺◌, ◌==◌, if◌then◌else◌,
  Result, ok, and_then, ℤ,
}
use paas_controlplane.Api.{Stack, BackingSpec, Meta}
use paas_controlplane.Kube.{
  Kube, Io, Err, Quantity, DataSource, ClaimTemplate, StatefulSet, Service, ResourceRequirements,
  must_parse_quantity, pure, try, ◌>>=◌, ◌>>◌,
}
use paas_controlplane.Overcommit.{Overcommit, limited_resources}
use paas_controlplane.Snapshots.{is_preview_clone, snapshot_data_source, stateful_set_exists}
use paas_controlplane.Snapshots.Clones.{Restore, prepare_clone_restore, label_backup_pvc}
use paas_controlplane.StackController.Setup.{stack_label}
use paas_controlplane.StackController.Buckets.{backing_name_for}

abbrev pub backing_labels : Stack → BackingSpec → Dict String
backing_labels st b = stack_label st.meta.name ∷ ("paas.sh/backing", b.name) ∷ []

abbrev pub host_of : Stack → BackingSpec → String
host_of st b = backing_name_for st b ⧺ "." ⧺ st.meta.namespace ⧺ ".svc.cluster.local"

-- The headless Service of a backing.
unfoldable pub written_headless : Stack → BackingSpec → String → ℤ → Meta → Service → Service
written_headless st b port_name port meta o = record o {
  meta = meta;
  cluster_ip = "None";
  selector = backing_labels st b;
  ports = record { name = port_name; port = port; target_port = port } ∷ [];
}

abbrev pub data_claim : Option DataSource → Quantity → ClaimTemplate
data_claim source disk = record {
  name = "data";
  access_modes = "ReadWriteOnce" ∷ [];
  storage_class_name = "ceph-block";
  data_source = source;
  storage = disk;
}

-- The claim templates, which only a StatefulSet without a UID gets.
unfoldable pub claim_once : Bool → Option DataSource → Quantity → StatefulSet → StatefulSet
claim_once persistent source disk ss =
    if persistent && (ss.meta.uid == "")
    then record ss {
      when_deleted = some "Delete";
      volume_claim_templates = data_claim source disk ∷ [];
    }
    else ss

-- Where the data of a new StatefulSet come from: nowhere, a restore snapshot, or one that is awaited.
pub data Origin : Type 0 where
  empty : Origin
  restored : DataSource → Origin
  awaited : Origin

module _ (K : Kube) where
  -- fixedResources
  unfoldable pub fixed_resources :
      String → String → Overcommit → Result (Err K.Error) ResourceRequirements
  fixed_resources cpu_limit mem_limit t =
      and_then (must_parse_quantity K cpu_limit)
        λ cpu. and_then (must_parse_quantity K mem_limit) λ mem. ok (limited_resources K t cpu mem)

  abbrev pub origin_of : Restore → Origin
  origin_of restore =
      if restore.ready then restored (snapshot_data_source restore.restore_vs) else awaited

  abbrev pub restore_unless : Stack → BackingSpec → Bool → Io K Origin
  restore_unless st b true = pure empty
  restore_unless st b false = do
    restore ← prepare_clone_restore K st b.name
    pure (origin_of restore)

  unfoldable pub restore_new : Stack → BackingSpec → Io K Origin
  unfolding ◌>>=◌ stateful_set_exists prepare_clone_restore snapshot_data_source
  restore_new st b = do
    exists ← stateful_set_exists K st.meta.namespace (backing_name_for st b)
    restore_unless st b exists

  -- The clone part of both functions; `persistent` says whether the backing has a data claim.
  unfoldable pub clone_origin : Bool → Stack → BackingSpec → Io K Origin
  unfolding restore_new is_preview_clone
  clone_origin persistent st b =
      if persistent && is_preview_clone st then restore_new st b else pure empty

  -- The backup part of both functions: an error is logged, not returned.
  unfoldable pub mark_for_backup : Bool → Stack → BackingSpec → Io K (Unit {0})
  unfolding ◌>>=◌ label_backup_pvc is_preview_clone
  mark_for_backup persistent st b =
      if persistent && b.backup && not (is_preview_clone st)
      then (do try (label_backup_pvc K st b.name); pure tt)
      else pure tt
