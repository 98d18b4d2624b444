-- ===== src/Snapshots/Teardown.antt =====
-- What gcCloneArtifacts of snapshots.go deletes.
use paas_controlplane.Base.{
  String, List, [], ◌∷◌, ◌≡◌, refl, Bool, some, Result, ok, err, All, lookup, arith, eq_refl,
}
use mathlib.Core.List.{Memᴰ}
use paas_controlplane.Api.{key_of}
use paas_controlplane.Kube.{
  Kube, Answers, Call, ListOptions, Kind, Obj, meta_of, snapshot, snapshot_content, delete, object,
  Err, api_error, read_call, for_each,
}
use paas_controlplane.Kube.Writes.{Writes, Writes-pure, Writes-bind, writes_rules}
use paas_controlplane.Kube.Owners.{api_error-ok}
use paas_controlplane.Snapshots.{
  clone_owner_label, owned_by, unless_missing, gc_item, gc_items, gc_kind, gc_clone_artifacts,
}

-- The kinds of clone artifacts.
pub data IsArtifact : Kind → Type 0 where
  source_snapshot : IsArtifact snapshot
  static_content : IsArtifact snapshot_content

-- A Delete of a clone artifact that the cluster has, since a List returned it, and that carries the owner
-- label with this preview namespace.
pub data IsGcDelete (K : Kube) (preview_ns : String) : Call → Type 0 where
  gc_delete :
      (k : Kind) (o : Obj k) (b : Bool) (w : K.World) (options : ListOptions) (os : List (Obj k))
      → IsArtifact k
      → (K.list k options w).0 ≡ ok os
      → Memᴰ o os
      → lookup clone_owner_label (meta_of k o).labels ≡ some preview_ns
      → IsGcDelete K preview_ns
          (record { verb = delete; target = object k (key_of (meta_of k o)); succeeded = b })

module _ (K : Kube) (answers : Answers K) (preview_ns : String) where
  unless_missing-Writes :
      (r : Result (Err K.Error) (Unit {0}))
      → Writes K (IsGcDelete K preview_ns) (unless_missing K r)
  unless_missing-Writes (ok a) = Writes-pure tt
  unless_missing-Writes (err e) = search writes_rules

  -- What is known of an object that a List returned.
  abbrev Listed : (k : Kind) → Obj k → Type 0
  Listed k o =
      (w : K.World) × (options : ListOptions) × (os : List (Obj k)) × ((K.list k options w).0
        ≡ ok os)
      × Memᴰ o os
      × (lookup clone_owner_label (meta_of k o).labels ≡ some preview_ns)

  gc_item-Writes :
      (k : Kind) (o : Obj k)
      → IsArtifact k
      → Listed k o
      → Writes K (IsGcDelete K preview_ns) (gc_item K k o)
  unfolding gc_item
  gc_item-Writes k o kind (w, options, os, listed, member, owned) =
      let delete_it : (b : Bool)
          → IsGcDelete K preview_ns
              (record { verb = delete; target = object k (key_of (meta_of k o)); succeeded = b }) =
        λ b. gc_delete k o b w options os kind listed member owned in
      search (writes_rules, unless_missing-Writes, delete_it)

  gc_list-Writes :
      (k : Kind) (os : List (Obj k))
      → IsArtifact k
      → All (Listed k) os
      → Writes K (IsGcDelete K preview_ns) (for_each (gc_item K k) os)
  unfolding for_each
  gc_list-Writes k [] kind all = Writes-pure tt
  gc_list-Writes k (o ∷ os) kind (here, rest) =
      Writes-bind (gc_item K k o) _ (gc_item-Writes k o kind here)
        (λ _. gc_list-Writes k os kind rest)

  gc_items-Writes :
      (k : Kind) (r : Result (Err K.Error) (List (Obj k)))
      → IsArtifact k
      → ((os : List (Obj k)) → r ≡ ok os → All (Listed k) os)
      → Writes K (IsGcDelete K preview_ns) (gc_items K k r)
  gc_items-Writes k (ok os) kind listed = gc_list-Writes k os kind (listed os refl)
  gc_items-Writes k (err e) kind listed = search writes_rules

  -- Every object of the list is one that the List returned, with the label.
  All-Listed :
      (k : Kind) (w : K.World) (os some_of : List (Obj k))
      → (K.list k (owned_by preview_ns) w).0 ≡ ok os
      → ((o : Obj k) → Memᴰ o some_of → Memᴰ o os)
      → All (λ o. lookup clone_owner_label (meta_of k o).labels ≡ some preview_ns) some_of
      → All (Listed k) some_of
  All-Listed k w os [] listed sub all = tt
  All-Listed k w os (o ∷ rest) listed sub (here, later) = (
    (w, owned_by preview_ns, os, listed, sub o (Memᴰ.head refl), here),
    All-Listed k w os rest listed (λ x m. sub x (Memᴰ.tail m)) later,
  )

  gc_kind-Writes :
      (k : Kind) → IsArtifact k → Writes K (IsGcDelete K preview_ns) (gc_kind K preview_ns k)
  unfolding gc_kind read_call lookup
  gc_kind-Writes k kind = record {
    at = λ s.
        (gc_items-Writes k (api_error (K.list k (owned_by preview_ns) s.world).0) kind (λ os e.
            let listed = api_error-ok _ os e in
            All-Listed k s.world os os listed (λ o m. m)
              (answers.list_label k (owned_by preview_ns) s.world os clone_owner_label preview_ns
                listed (ground (arith, eq_refl clone_owner_label))))).at
          (record s { world = (K.list k (owned_by preview_ns) s.world).1 });
  }

  -- Whatever the cluster holds, gcCloneArtifacts makes no writing call but deletions of snapshots and
  -- snapshot contents that a List has returned and that carry the owner label with the given namespace, where the client's List
  -- returns objects with the labels that it is asked for.
  pub gc_clone_artifacts-Writes :
      Writes K (IsGcDelete K preview_ns) (gc_clone_artifacts K preview_ns)
  unfolding gc_clone_artifacts for_each
  gc_clone_artifacts-Writes = search (
    writes_rules,
    gc_kind-Writes snapshot source_snapshot,
    gc_kind-Writes snapshot_content static_content,
  )
