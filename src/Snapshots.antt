-- ===== src/Snapshots.antt =====
-- internal/controller/snapshots.go: clones of a backing's volume from a parent environment, the
-- daily snapshot schedule, and the teardown of what a clone made outside its namespace.
pub mod Teardown
pub mod Clones
use paas_controlplane.Base.{
  String, List, [], ◌∷◌, Bool, not, ◌&&◌, ◌||◌, none, value_at, ◌⧺◌, ◌==◌, if◌then◌else◌, Result,
  ok, err,
}
use paas_controlplane.Api.{Stack, key_of}
use paas_controlplane.Kube.{
  Kube, Io, Err, ListOptions, Kind, Obj, meta_of, snapshot, snapshot_content, stateful_set,
  DataSource, get, list, delete_object, try, pure, raise, for_each, is_not_found, is_no_match,
  succeeds, ◌>>=◌, ◌>>◌,
}

abbrev pub clone_owner_label : String
clone_owner_label = "paas.sh/clone-owner"

-- pvcNameFor
unfoldable pub pvc_name_for : String → String → String
pvc_name_for stack_name backing_name = "data-" ⧺ stack_name ⧺ "-" ⧺ backing_name ⧺ "-0"

unfoldable pub is_preview_clone : Stack → Bool
unfolding value_at
is_preview_clone stack =
    not (value_at "paas.sh/clone-from-namespace" stack.meta.annotations == "")
    && not (value_at "paas.sh/clone-from-stack" stack.meta.annotations == "")

unfoldable pub snapshot_data_source : String → DataSource
snapshot_data_source vs_name = record {
  api_group = "snapshot.storage.k8s.io";
  kind = "VolumeSnapshot";
  name = vs_name;
}

-- client.MatchingLabels{cloneOwnerLabel: previewNs}, in all namespaces
abbrev pub owned_by : String → ListOptions
owned_by preview_ns = record {
  namespace = none;
  matching_labels = (clone_owner_label, preview_ns) ∷ [];
}

module _ (K : Kube) where
  unfoldable pub stateful_set_exists : String → String → Io K Bool
  unfolding ◌>>=◌
  stateful_set_exists ns name = do
    got ← try (get K stateful_set (record { namespace = ns; name = name }))
    pure (succeeds got)

  -- An error of a Delete: a missing object is as good as a deleted one.
  abbrev pub unless_missing : {A : Type 0} → Result (Err K.Error) A → Io K (Unit {0})
  unless_missing (ok a) = pure tt
  unless_missing (err e) = if is_not_found K e then pure tt else raise e

  -- The body of the inner loop of gcCloneArtifacts.
  unfoldable pub gc_item : (k : Kind) → Obj k → Io K (Unit {0})
  unfolding ◌>>=◌
  gc_item k o = do deleted ← try (delete_object K k (key_of (meta_of k o))); unless_missing deleted

  -- A cluster without the CSI snapshot kinds has nothing to collect.
  abbrev pub gc_items : (k : Kind) → Result (Err K.Error) (List (Obj k)) → Io K (Unit {0})
  gc_items k (ok items) = for_each (gc_item k) items
  gc_items k (err e) = if is_not_found K e || is_no_match K e then pure tt else raise e

  -- One round of the outer loop of gcCloneArtifacts.
  unfoldable pub gc_kind : String → Kind → Io K (Unit {0})
  unfolding ◌>>=◌ gc_item for_each
  gc_kind preview_ns k = do items ← try (list K k (owned_by preview_ns)); gc_items k items

  unfoldable pub gc_clone_artifacts : String → Io K (Unit {0})
  unfolding gc_kind
  gc_clone_artifacts preview_ns = for_each (gc_kind preview_ns) (snapshot ∷ snapshot_content ∷ [])
