-- ===== src/StackController/Backings/Awaited.antt =====
-- While the data of a clone are awaited, stack_controller.go and snapshots.go: what the calls return.
use paas_controlplane.Base.{String, Bool, true, false, Result, ok, err, ok-injective, sym, ◌≡◌}
use paas_controlplane.Api.{Stack, BackingSpec, named}
use paas_controlplane.Kube.{
  Kube, Err, VolumeSnapshot, SnapshotContent, stateful_set, snapshot, fresh_snapshot, pure, try,
  on_error, read_call, record_call, ensure, ◌>>=◌,
}
use paas_controlplane.Kube.Gives.{
  Gives, Gives-pure, Gives-bind, Gives-then, Gives-on_error, gives_rules,
}
use paas_controlplane.Snapshots.{is_preview_clone, stateful_set_exists}
use paas_controlplane.Snapshots.Clones.{
  Restore, restore_name, share_snapshot, from_content, restore_from, from_source, snapshot_parent,
  prepare_clone_restore,
}
use paas_controlplane.StackController.Buckets.{backing_name_for}
use paas_controlplane.StackController.Volumes.{awaited, restore_unless, restore_new, clone_origin}

-- The time in which the data of a clone are awaited: a Get finds no StatefulSet of the backing, and a
-- CreateOrUpdate of the restore snapshot returns one that is not ready to use.
pub record Awaits (K : Kube) (st : Stack) (b : BackingSpec) : Type 0 where
  pub no_set :
      (w : K.World)
      → (e : K.Error) × ((K.get stateful_set
            (record { namespace = st.meta.namespace; name = backing_name_for st b })
            w).0
          ≡ err e)
  pub not_ready :
      (w : K.World) (mutate : VolumeSnapshot → Result (Err K.Error) VolumeSnapshot)
      (made : VolumeSnapshot)
      → (K.create_or_update snapshot
          (fresh_snapshot (named st.meta.namespace (restore_name b.name)))
          mutate
          w).0
        ≡ ok made
      → made.ready_to_use ≡ false

abbrev NotReady : Restore → Type 0
NotReady restore = restore.ready ≡ false

module _ (K : Kube) (st : Stack) (b : BackingSpec) (awaits : Awaits K st b) where
  made-Gives :
      (f : Err K.Error → Err K.Error)
      (mutate : VolumeSnapshot → Result (Err K.Error) VolumeSnapshot)
      → Gives K
          (λ made. made.ready_to_use ≡ false)
          (on_error f (
            ensure K snapshot
              (fresh_snapshot (named st.meta.namespace (restore_name b.name)))
              mutate))
  unfolding record_call
  made-Gives f mutate =
      Gives-on_error f
        (ensure K snapshot (fresh_snapshot (named st.meta.namespace (restore_name b.name))) mutate)
        (record { at = λ s made e. awaits.not_ready s.world mutate made e })

  share_snapshot-Gives :
      (driver handle : String) → Gives K NotReady (share_snapshot K st b.name driver handle)
  unfolding share_snapshot
  share_snapshot-Gives driver handle =
      Gives-then _ _ λ content. Gives-bind _ _ (made-Gives _ _) (λ made waits. Gives-pure _ waits)

  from_content-Gives :
      (got : Result (Err K.Error) SnapshotContent) → Gives K NotReady (from_content K st b.name got)
  from_content-Gives (ok c) = search (gives_rules, share_snapshot-Gives)
  from_content-Gives (err e) = search gives_rules

  restore_from-Gives :
      (bound_content : String) → Gives K NotReady (restore_from K st b.name bound_content)
  unfolding restore_from
  restore_from-Gives bound_content = search (gives_rules, from_content-Gives)

  from_source-Gives : (src : VolumeSnapshot) → Gives K NotReady (from_source K st b.name src)
  from_source-Gives src = search (gives_rules, restore_from-Gives)

  prepare_clone_restore-Gives : Gives K NotReady (prepare_clone_restore K st b.name)
  unfolding prepare_clone_restore snapshot_parent
  prepare_clone_restore-Gives = search (gives_rules, from_source-Gives)

  stateful_set_exists-Gives :
      Gives K
        (λ exists. exists ≡ false)
        (stateful_set_exists K st.meta.namespace (backing_name_for st b))
  unfolding stateful_set_exists ◌>>=◌ try read_call pure
  stateful_set_exists-Gives = record {
    at = λ s exists e.
        let (x, missing) = awaits.no_set s.world in
        sym (ok-injective false exists (rw missing at e));
  }

  restore_unless-Gives :
      (exists : Bool) → exists ≡ false → Gives K (λ o. o ≡ awaited) (restore_unless K st b exists)
  restore_unless-Gives true e = absurd (cc)
  restore_unless-Gives false e =
      Gives-bind _ _ prepare_clone_restore-Gives (λ restore waits. Gives-pure _ (rw waits))

  pub clone_origin-Gives :
      is_preview_clone st ≡ true → Gives K (λ o. o ≡ awaited) (clone_origin K true st b)
  unfolding clone_origin restore_new
  clone_origin-Gives preview =
      rw preview (Gives-bind _ _ stateful_set_exists-Gives restore_unless-Gives)
