-- ===== src/EnvironmentController/Isolation.antt =====
-- What a reconcile of a live Environment writes, environment_controller.go.
use paas_controlplane.Base.{
  String, ◌≡◌, subst, Bool, true, false, Option, none, some, Result, ok, err, ok-injective, split,
  replace_all, sym, ◌∙◌, ap,
}
use paas_controlplane.Api.{Environment, StackSpec, NamespacedName, Meta, key_of}
use paas_controlplane.Kube.{
  Kube, Answers, Call, Cluster, BaselineObject, create_or_update, update, update_status, apply,
  object, document, namespace, stack, environment, record_call, pure,
}
use paas_controlplane.Kube.Writes.{Writes, Writes-bind_ok, Writes-for_each, writes_rules}
use paas_controlplane.Kube.Owners.{api_error-ok}
use paas_controlplane.EnvironmentController.{
  ensure_namespace, stamp_document, stamp_baseline, apply_baseline, parsed, ensure_stack,
  deploy_graph, update_env_status, provision, with_finalizer, save_added, reconcile_live,
  namespace_for, env_finalizer,
}

-- The calls that a reconcile of the Environment with this key may make, for its namespace: the
-- Environment itself and its status, the namespace, documents in the namespace, and the Stack in it
-- with the Environment's name.
pub data IsEnvWrite (key : NamespacedName) (ns : String) : Call → Type 0 where
  env_write :
      (b : Bool)
      → IsEnvWrite key ns (record { verb = update; target = object environment key; succeeded = b })
  status_write :
      (b : Bool)
      → IsEnvWrite key ns
          (record { verb = update_status; target = object environment key; succeeded = b })
  namespace_write :
      (b : Bool)
      → IsEnvWrite key ns (record {
        verb = create_or_update;
        target = object namespace (record { namespace = ""; name = ns });
        succeeded = b;
      })
  baseline_write :
      (name : String) (b : Bool)
      → IsEnvWrite key ns (record {
        verb = apply;
        target = document (record { namespace = ns; name = name });
        succeeded = b;
      })
  stack_write :
      (b : Bool)
      → IsEnvWrite key ns (record {
        verb = create_or_update;
        target = object stack (record { namespace = ns; name = key.name });
        succeeded = b;
      })

ruleset env_writes =
    (writes_rules, env_write, status_write, namespace_write, baseline_write, stack_write)

module _ (K : Kube) (key : NamespacedName) (ns : String) where
  apply_baseline-Writes :
      (o : Option BaselineObject) → Writes K (IsEnvWrite key ns) (apply_baseline K ns o)
  apply_baseline-Writes none = search env_writes
  apply_baseline-Writes (some u) = search env_writes

  parsed-Writes :
      (r : Result String (Option BaselineObject)) → Writes K (IsEnvWrite key ns) (parsed K r)
  parsed-Writes (ok o) = search env_writes
  parsed-Writes (err e) = search env_writes

  stamp_document-Writes : (doc : String) → Writes K (IsEnvWrite key ns) (stamp_document K ns doc)
  unfolding stamp_document
  stamp_document-Writes doc = search (env_writes, apply_baseline-Writes, parsed-Writes)

  stamp_baseline-Writes :
      (template : String) → Writes K (IsEnvWrite key ns) (stamp_baseline K template ns)
  unfolding stamp_baseline
  stamp_baseline-Writes template =
      Writes-for_each (stamp_document K ns) (split "\n---" (replace_all "${NAMESPACE}" ns template))
        stamp_document-Writes

module _ (K : Kube) (env : Environment) (ns : String) where
  deploy_graph-Writes :
      (o : Option StackSpec) → Writes K (IsEnvWrite (key_of env.meta) ns) (deploy_graph K env ns o)
  unfolding ensure_stack
  deploy_graph-Writes none = search env_writes
  deploy_graph-Writes (some spec) = search env_writes

  ensure_namespace-Writes : Writes K (IsEnvWrite (key_of env.meta) ns) (ensure_namespace K env ns)
  unfolding ensure_namespace
  ensure_namespace-Writes = search env_writes

  update_env_status-Writes : Writes K (IsEnvWrite (key_of env.meta) ns) (update_env_status K env ns)
  unfolding update_env_status
  update_env_status-Writes = search env_writes

  provision-Writes :
      (template : String) → Writes K (IsEnvWrite (key_of env.meta) ns) (provision K template env ns)
  unfolding provision
  provision-Writes template = search (
    writes_rules, ensure_namespace-Writes, deploy_graph-Writes, stamp_baseline-Writes,
    update_env_status-Writes,
  )

module _ (K : Kube) (answers : Answers K) (env : Environment) where
  save_added-Writes :
      (added : Bool) (meta : Meta)
      → key_of meta ≡ key_of env.meta
      → Writes K (IsEnvWrite (key_of env.meta) (namespace_for env)) (save_added K env added meta)
  save_added-Writes true meta same =
      subst (λ key. Writes K (IsEnvWrite key (namespace_for env)) (save_added K env true meta)) same
        (search env_writes)
  save_added-Writes false meta same = search env_writes

  save_added-key :
      (added : Bool) (meta : Meta) (s : Cluster K) (env' : Environment)
      → key_of meta ≡ key_of env.meta
      → (save_added K env added meta s).0 ≡ ok env'
      → key_of env'.meta ≡ key_of env.meta
  unfolding record_call pure
  save_added-key true meta s env' same e =
      answers.update_key environment (record env { meta = meta }) s.world env'
        (api_error-ok _ env' e)
      ∙ same
  save_added-key false meta s env' same e =
      ap (λ (x : Environment). key_of x.meta) (sym (ok-injective env env' e))

  -- Whatever the cluster holds and answers, a reconcile of an Environment that is not being deleted
  -- writes nothing outside the Environment, its namespace proj-<project>-<name>, and that namespace's
  -- baseline documents and Stack, where the client's Update returns the object that it is given and
  -- adding a finalizer leaves the name and the namespace.
  pub reconcile_live-Writes :
      (template : String)
      → Writes K (IsEnvWrite (key_of env.meta) (namespace_for env)) (reconcile_live K template env)
  unfolding reconcile_live with_finalizer
  reconcile_live-Writes template =
      let kept = answers.finalizer_key env.meta env_finalizer in
      Writes-bind_ok (with_finalizer K env) _ (save_added-Writes _ _ kept) λ s env' e.
        subst
          (λ key.
            Writes K (IsEnvWrite key (namespace_for env))
              (provision K template env' (namespace_for env)))
          (save_added-key _ _ s env' kept e) (provision-Writes K env' (namespace_for env) template)
