-- ===== src/EnvironmentController.antt =====
-- internal/controller/environment_controller.go: an Environment becomes a namespace with the tenant
-- baseline and, if it has one, its Stack; on deletion the namespace goes first and the finalizer last.
pub mod Mutate
pub mod Isolation
pub mod Teardown
pub mod Settled
pub mod Namespaces
use paas_controlplane.Base.{
  ℕ, String, List, [], ◌∷◌, Bool, true, false, not, ◌&&◌, Option, none, some, Dict, insert, ◌⧺◌,
  ◌==◌, if◌then◌else◌, replace_all, split, trim_left, Result, ok, err,
}
use text.Mathlib.Text.{starts_with}
use paas_controlplane.Api.{
  Environment, EnvironmentStatus, Stack, StackSpec, Meta, NamespacedName, named,
}
use paas_controlplane.Kube.{
  Kube, Io, Err, msg, wrapped, wrap, ReconcileResult, done, MetaObject, BaselineObject, environment,
  namespace, stack, get, update_object, update_object_status, ensure, fresh_stack, apply_document,
  delete_object, ignore_not_found, returns, try, pure, raise, on_error, for_each, succeeds, ◌>>=◌,
  ◌>>◌,
}
use paas_controlplane.Snapshots.{gc_clone_artifacts, unless_missing}

abbrev pub env_finalizer : String
env_finalizer = "paas.sh/environment-teardown"

unfoldable pub namespace_for : Environment → String
namespace_for env = "proj-" ⧺ env.spec.project ⧺ "-" ⧺ env.meta.name

-- orDefault of servicedef.go
unfoldable pub or_default : String → String → String
or_default v d = if v == "" then d else v

abbrev is_comment : String → Bool
is_comment line = starts_with (trim_left line) "#"

abbrev without_comments : List String → String
without_comments [] = ""
without_comments (line ∷ lines) =
    let rest = without_comments lines in if is_comment line then rest else line ⧺ "\n" ⧺ rest

unfoldable pub strip_comments : String → String
unfolding split trim_left
strip_comments doc = without_comments (split "\n" doc)

-- The labels that ensureNamespace sets, one assignment after the other.
unfoldable pub namespace_labels : Environment → Dict String → Dict String
unfolding or_default insert
namespace_labels env labels = insert "pod-security.kubernetes.io/warn" "restricted" (
    insert "pod-security.kubernetes.io/enforce" "baseline" (
      insert "paas.sh/env-type" (or_default env.spec.env_type "persistent") (
        insert "paas.sh/environment" env.meta.name
          (insert "paas.sh/project" env.spec.project labels))))

-- The mutate function of ensureNamespace.
unfoldable pub label_namespace : Environment → MetaObject → MetaObject
unfolding namespace_labels
label_namespace env n = record {
  meta = record n.meta { labels = namespace_labels env n.meta.labels };
}

abbrev pub clones : Environment → Bool
clones env = env.spec.env_type == "preview" && not (env.spec.clone_from == "")

unfoldable pub stack_labels : Environment → Dict String → Dict String
unfolding insert
stack_labels env labels =
    insert "paas.sh/environment" env.meta.name (insert "paas.sh/project" env.spec.project labels)

-- The coordinates of the parent that a clone seeds from.
unfoldable pub clone_coordinates : Environment → Dict String → Dict String
unfolding insert
clone_coordinates env annotations =
    insert "paas.sh/clone-from-namespace" ("proj-" ⧺ env.spec.project ⧺ "-" ⧺ env.spec.clone_from)
      (insert "paas.sh/clone-from-stack" env.spec.clone_from annotations)

abbrev pub clone_annotations : Environment → Dict String → Dict String
clone_annotations env annotations =
    if clones env then clone_coordinates env annotations else annotations

-- The mutate function of ensureStack for the spec that the Environment holds.
unfoldable pub write_stack : Environment → StackSpec → Stack → Stack
unfolding stack_labels clone_coordinates
write_stack env spec st = record st {
  meta = record st.meta {
    labels = stack_labels env st.meta.labels;
    annotations = clone_annotations env st.meta.annotations;
  };
  spec = spec;
}

abbrev env_phase : Bool → String
env_phase true = "Ready"
env_phase false = "Provisioning"

-- The status that updateEnvStatus writes.
abbrev pub env_status : Environment → String → Bool → EnvironmentStatus
env_status env ns ready = record {
  namespace = ns;
  phase = env_phase ready;
  baseline_stamped = ready;
  observed_generation = env.meta.generation;
}

module _ (K : Kube) where
  unfoldable pub ensure_namespace : Environment → String → Io K (Unit {0})
  unfolding ◌>>=◌
  ensure_namespace env ns = do
    ensure K namespace (record { meta = named "" ns }) (λ n. ok (label_namespace env n))
    pure tt

  -- An object of a baseline document, moved to the namespace and applied.
  abbrev pub apply_baseline : String → Option BaselineObject → Io K (Unit {0})
  apply_baseline ns none = pure tt
  apply_baseline ns (some u) =
      on_error (wrap ("apply " ⧺ u.kind ⧺ "/" ⧺ u.meta.name))
        (apply_document K (record u { meta = record u.meta { namespace = ns } }))

  abbrev pub parsed : Result String (Option BaselineObject) → Io K (Option BaselineObject)
  parsed (ok o) = pure o
  parsed (err e) = raise (wrapped "parse baseline doc" (msg e))

  -- The body of the loop of stampBaseline.
  unfoldable pub stamp_document : String → String → Io K (Unit {0})
  unfolding ◌>>=◌ strip_comments
  stamp_document ns doc =
      if trim_left (strip_comments doc) == ""
      then pure tt
      else (do u ← parsed (K.unmarshal_baseline doc); apply_baseline ns u)

  -- The template is the embedded file baseline/tenant-baseline.yaml.
  unfoldable pub stamp_baseline : String → String → Io K (Unit {0})
  unfolding stamp_document for_each replace_all split
  stamp_baseline template ns =
      for_each (stamp_document ns) (split "\n---" (replace_all "${NAMESPACE}" ns template))

  unfoldable pub ensure_stack : Environment → StackSpec → String → Io K (Unit {0})
  unfolding ◌>>=◌
  ensure_stack env spec ns = do
    ensure K stack (fresh_stack (named ns env.meta.name)) (λ st. ok (write_stack env spec st))
    pure tt

  unfoldable pub delete_namespace : String → Io K (Unit {0})
  unfolding ◌>>=◌
  delete_namespace ns = do
    deleted ← try (delete_object K namespace (record { namespace = ""; name = ns }))
    unless_missing K deleted

  unfoldable pub update_env_status : Environment → String → Io K ReconcileResult
  unfolding ◌>>=◌
  update_env_status env ns = do
    got ← try (get K namespace (record { namespace = ""; name = ns }))
    update_object_status K environment (record env { status = env_status env ns (succeeds got) })
    pure done

  -- Step 3 of Reconcile: the app graph, if any.
  abbrev pub deploy_graph : Environment → String → Option StackSpec → Io K (Unit {0})
  deploy_graph env ns none = pure tt
  deploy_graph env ns (some spec) = on_error (wrap "stack") (ensure_stack env spec ns)

  -- Steps 1 to 3 of Reconcile, and the status.
  unfoldable pub provision : String → Environment → String → Io K ReconcileResult
  unfolding ◌>>=◌ ensure_namespace stamp_baseline ensure_stack update_env_status
  provision template env ns = do
    ensure_namespace env ns
    on_error (wrap "baseline") (stamp_baseline template ns)
    deploy_graph env ns env.spec.stack
    update_env_status env ns

  -- The branch of Reconcile for an Environment that is being deleted and has the finalizer.
  unfoldable pub teardown : Environment → String → Io K ReconcileResult
  unfolding ◌>>=◌ delete_namespace gc_clone_artifacts
  teardown env ns = do
    on_error (wrap "gc clone artifacts") (gc_clone_artifacts K ns)
    delete_namespace ns
    update_object K environment (record env { meta = K.remove_finalizer env.meta env_finalizer })
    pure done

  -- The Environment with the finalizer; Update reads the server's answer back into it.
  abbrev pub save_added : Environment → Bool → Meta → Io K Environment
  save_added env true meta = update_object K environment (record env { meta = meta })
  save_added env false meta = pure env

  unfoldable pub with_finalizer : Environment → Io K Environment
  with_finalizer env =
      let (added, meta) = K.add_finalizer env.meta env_finalizer in save_added env added meta

  unfoldable pub reconcile_live : String → Environment → Io K ReconcileResult
  unfolding ◌>>=◌ with_finalizer provision namespace_for
  reconcile_live template env = do
    env' ← with_finalizer env
    provision template env' (namespace_for env)

  -- Reconcile after its Get; a deletion timestamp that is not zero marks a deletion.
  abbrev pub reconcile_environment : String → Environment → Option ℕ → Io K ReconcileResult
  reconcile_environment template env none = reconcile_live template env
  reconcile_environment template env (some t) =
      if K.contains_finalizer env.meta env_finalizer
      then teardown env (namespace_for env)
      else pure done

  abbrev pub found : String → Result (Err K.Error) Environment → Io K ReconcileResult
  found template (ok env) = reconcile_environment template env env.meta.deletion_timestamp
  found template (err e) = returns K done (ignore_not_found K e)

  unfoldable pub reconcile : String → NamespacedName → Io K ReconcileResult
  unfolding ◌>>=◌ reconcile_live teardown
  reconcile template req = do got ← try (get K environment req); found template got
