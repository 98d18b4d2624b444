-- ===== src/EnvironmentController/Settled.antt =====
-- What a reconcile of environment_controller.go that returns no error has done.
use paas_controlplane.Base.{
  ℕ, String, List, [], ◌∷◌, Bool, true, false, Option, none, some, Result, ok, err, ◌≡◌, split,
  replace_all,
}
use paas_controlplane.Api.{Environment, StackSpec, NamespacedName, Meta}
use paas_controlplane.Kube.{
  Kube, Cluster, ReconcileResult, Kind, Obj, Err, Call, Target, delete, snapshot, snapshot_content,
  BaselineObject, done, ignore_not_found,
}
use paas_controlplane.Kube.Writes.{Made, Writes-record_call}
use paas_controlplane.Kube.Strict.{
  Strict, IsSettled, Strict-returns, Strict-for_each, strict_rules, lost,
}
use paas_controlplane.Snapshots.{unless_missing, gc_item, gc_items, gc_kind, gc_clone_artifacts}
use paas_controlplane.EnvironmentController.{
  ensure_namespace, stamp_document, stamp_baseline, apply_baseline, parsed, ensure_stack,
  deploy_graph, update_env_status, provision, with_finalizer, save_added, reconcile_live, teardown,
  delete_namespace, reconcile_environment, found, reconcile,
}

-- The errors of a Delete are looked at: a missing object counts as deleted.
pub data IsDelete : Call → Type 0 where
  deletion :
      (t : Target) (b : Bool) → IsDelete (record { verb = delete; target = t; succeeded = b })

ruleset env_settled = (strict_rules, Writes-record_call, lost, deletion)

module _ (K : Kube) where
  unless_missing-Strict :
      (r : Result (Err K.Error) (Unit {0})) → Strict K (IsSettled IsDelete) (unless_missing K r)
  unless_missing-Strict (ok a) = search env_settled
  unless_missing-Strict (err e) = search env_settled

  gc_item-Strict : (k : Kind) (o : Obj k) → Strict K (IsSettled IsDelete) (gc_item K k o)
  unfolding gc_item
  gc_item-Strict k o = search (env_settled, unless_missing-Strict)

  gc_items-Strict :
      (k : Kind) (r : Result (Err K.Error) (List (Obj k)))
      → Strict K (IsSettled IsDelete) (gc_items K k r)
  gc_items-Strict k (ok os) = Strict-for_each (gc_item K k) os (gc_item-Strict k)
  gc_items-Strict k (err e) = search env_settled

  gc_kind-Strict : (ns : String) (k : Kind) → Strict K (IsSettled IsDelete) (gc_kind K ns k)
  unfolding gc_kind
  gc_kind-Strict ns k = search (env_settled, gc_items-Strict)

  gc_clone_artifacts-Strict :
      (ns : String) → Strict K (IsSettled IsDelete) (gc_clone_artifacts K ns)
  unfolding gc_clone_artifacts
  gc_clone_artifacts-Strict ns =
      Strict-for_each (gc_kind K ns) (snapshot ∷ snapshot_content ∷ []) (gc_kind-Strict ns)

  delete_namespace-Strict : (ns : String) → Strict K (IsSettled IsDelete) (delete_namespace K ns)
  unfolding delete_namespace
  delete_namespace-Strict ns = search (env_settled, unless_missing-Strict)

  teardown-Strict :
      (env : Environment) (ns : String) → Strict K (IsSettled IsDelete) (teardown K env ns)
  unfolding teardown
  teardown-Strict env ns = search (env_settled, gc_clone_artifacts-Strict, delete_namespace-Strict)

  apply_baseline-Strict :
      (ns : String) (o : Option BaselineObject)
      → Strict K (IsSettled IsDelete) (apply_baseline K ns o)
  apply_baseline-Strict ns none = search env_settled
  apply_baseline-Strict ns (some u) = search env_settled

  parsed-Strict :
      (r : Result String (Option BaselineObject)) → Strict K (IsSettled IsDelete) (parsed K r)
  parsed-Strict (ok o) = search env_settled
  parsed-Strict (err e) = search env_settled

  stamp_document-Strict :
      (ns doc : String) → Strict K (IsSettled IsDelete) (stamp_document K ns doc)
  unfolding stamp_document
  stamp_document-Strict ns doc = search (env_settled, apply_baseline-Strict, parsed-Strict)

  deploy_graph-Strict :
      (env : Environment) (ns : String) (o : Option StackSpec)
      → Strict K (IsSettled IsDelete) (deploy_graph K env ns o)
  unfolding ensure_stack
  deploy_graph-Strict env ns none = search env_settled
  deploy_graph-Strict env ns (some spec) = search env_settled

  stamp_baseline-Strict :
      (template ns : String) → Strict K (IsSettled IsDelete) (stamp_baseline K template ns)
  unfolding stamp_baseline
  stamp_baseline-Strict template ns =
      Strict-for_each (stamp_document K ns) (split "\n---" (replace_all "${NAMESPACE}" ns template))
        (stamp_document-Strict ns)

  ensure_namespace-Strict :
      (env : Environment) (ns : String) → Strict K (IsSettled IsDelete) (ensure_namespace K env ns)
  unfolding ensure_namespace
  ensure_namespace-Strict env ns = search env_settled

  update_env_status-Strict :
      (env : Environment) (ns : String) → Strict K (IsSettled IsDelete) (update_env_status K env ns)
  unfolding update_env_status
  update_env_status-Strict env ns = search env_settled

  provision-Strict :
      (template : String) (env : Environment) (ns : String)
      → Strict K (IsSettled IsDelete) (provision K template env ns)
  unfolding provision
  provision-Strict template env ns = search (
    env_settled, ensure_namespace-Strict, stamp_baseline-Strict, deploy_graph-Strict,
    update_env_status-Strict,
  )

  save_added-Strict :
      (env : Environment) (added : Bool) (meta : Meta)
      → Strict K (IsSettled IsDelete) (save_added K env added meta)
  save_added-Strict env true meta = search env_settled
  save_added-Strict env false meta = search env_settled

  reconcile_environment-Strict :
      (template : String) (env : Environment) (deleted : Option ℕ)
      → Strict K (IsSettled IsDelete) (reconcile_environment K template env deleted)
  unfolding reconcile_live with_finalizer
  reconcile_environment-Strict template env none =
      search (env_settled, save_added-Strict, provision-Strict)
  reconcile_environment-Strict template env (some t) = search (env_settled, teardown-Strict)

  found-Strict :
      (template : String) (got : Result (Err K.Error) Environment)
      → Strict K (IsSettled IsDelete) (found K template got)
  found-Strict template (ok env) = reconcile_environment-Strict template env _
  found-Strict template (err e) = Strict-returns done (ignore_not_found K e)

  reconcile-Strict :
      (template : String) (req : NamespacedName)
      → Strict K (IsSettled IsDelete) (reconcile K template req)
  unfolding reconcile
  reconcile-Strict template req = search (env_settled, found-Strict)

  -- Where a reconcile of an Environment returns no error, each writing call that it made has
  -- succeeded or is a deletion, both in a teardown and in the provisioning: no other error of a write
  -- is lost.
  pub environment-IsSettled :
      (template : String) (req : NamespacedName) (s : Cluster K) (res : ReconcileResult)
      → (reconcile K template req s).0 ≡ ok res
      → Made (IsSettled IsDelete) s.calls (reconcile K template req s).1.calls
  environment-IsSettled template req s res e = (reconcile-Strict template req).at s res e
