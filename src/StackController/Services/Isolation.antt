-- ===== src/StackController/Services/Isolation.antt =====
-- What the loop of Reconcile over the services writes, stack_controller.go.
use paas_controlplane.Base.{
  String, List, [], ◌∷◌, Bool, Option, none, some, Dict, Result, ok, err, ◌≡◌, ap, ◌∙◌,
}
use paas_controlplane.Api.{Stack, ServiceSpec, ProcessSpec, NamespacedName, key_of}
use paas_controlplane.Kube.{
  Kube, Call, ContainerEnv, Err, Job, create, create_or_update, object, deployment, service, job,
  set_owner, stack,
}
use paas_controlplane.Kube.Writes.{
  Writes, Writes-pure, Writes-for_each, writes_rules, Writes-bind_lift, Writes-bind,
}
use paas_controlplane.Kube.Owners.{SetsOwner, set_owner-keeps}
use paas_controlplane.StackController.Setup.{StackReconciler, Backing, process_name}
use paas_controlplane.StackController.Releases.{
  ReleaseState, complete, failed, unfinished, release_job_name, build_release_job, create_release,
  start_release, after_get, reconcile_release_job,
}
use paas_controlplane.StackController.Processes.{expose, reconcile_process}
use paas_controlplane.StackController.Services.{
  Flags, run_process, roll_out, after_release, release, reconcile_service, reconcile_services,
}

-- The calls that the loop may make: the release Job of a service is created, the Deployment and the
-- Service of a process are created or updated, all three in the namespace of the Stack.
pub data IsServiceWrite (st : Stack) : Call → Type 0 where
  deployment_write :
      (svc : ServiceSpec) (p : ProcessSpec) (b : Bool)
      → IsServiceWrite st (record {
        verb = create_or_update;
        target =
            object deployment
              (record { namespace = st.meta.namespace; name = process_name st svc p });
        succeeded = b;
      })
  service_write :
      (svc : ServiceSpec) (p : ProcessSpec) (b : Bool)
      → IsServiceWrite st (record {
        verb = create_or_update;
        target =
            object service (record { namespace = st.meta.namespace; name = process_name st svc p });
        succeeded = b;
      })
  job_write :
      (svc : ServiceSpec) (key : NamespacedName) (b : Bool)
      → key ≡ record { namespace = st.meta.namespace; name = release_job_name st svc }
      → IsServiceWrite st (record { verb = create; target = object job key; succeeded = b })

module _ (K : Kube) (r : StackReconciler) (st : Stack) where
  expose-Writes :
      (svc : ServiceSpec) (p : ProcessSpec) → Writes K (IsServiceWrite st) (expose K st svc p)
  expose-Writes svc p = search (writes_rules, service_write)

  reconcile_process-Writes :
      (svc : ServiceSpec) (image : String) (env : List ContainerEnv) (p : ProcessSpec)
      → Writes K (IsServiceWrite st) (reconcile_process K r st svc image env p)
  unfolding reconcile_process
  reconcile_process-Writes svc image env p = search (writes_rules, expose-Writes, deployment_write)

  run_process-Writes :
      (svc : ServiceSpec) (image : String) (env : List ContainerEnv) (p : ProcessSpec)
      → Writes K (IsServiceWrite st) (run_process K r st svc image env p)
  run_process-Writes svc image env p = search (writes_rules, reconcile_process-Writes)

  roll_out-Writes :
      (svc : ServiceSpec) (image : String) (env : List ContainerEnv) (flags : Flags)
      → Writes K (IsServiceWrite st) (roll_out K r st svc image env flags)
  unfolding roll_out
  roll_out-Writes svc image env flags = search (writes_rules, Writes-for_each, run_process-Writes)

  start_release-Writes :
      SetsOwner K
      → (svc : ServiceSpec) (command image name : String) (env : List ContainerEnv)
      → name ≡ release_job_name st svc
      → Writes K
          (IsServiceWrite st)
          (start_release K st (build_release_job r st svc command image name env))
  unfolding start_release build_release_job
  start_release-Writes owners svc command image name env e =
      let built = build_release_job r st svc command image name env in
      Writes-bind_lift (set_owner K stack st.meta built.meta) (create_release K built) λ meta set.
        let kept = set_owner-keeps K owners stack st.meta built.meta meta set in
        let key : key_of meta
            ≡ record { namespace = st.meta.namespace; name = release_job_name st svc } =
          ap key_of kept ∙ ap (λ n. record { namespace = st.meta.namespace; name = n }) e in
        search (writes_rules, job_write, key)

  after_get-Writes :
      SetsOwner K
      → (svc : ServiceSpec) (command image name : String) (env : List ContainerEnv)
      → name ≡ release_job_name st svc
      → (got : Result (Err K.Error) Job)
      → Writes K
          (IsServiceWrite st)
          (after_get K st (build_release_job r st svc command image name env) got)
  after_get-Writes owners svc command image name env e (ok j) = search writes_rules
  after_get-Writes owners svc command image name env e (err x) =
      search (writes_rules, start_release-Writes)

  reconcile_release_job-Writes :
      SetsOwner K
      → (svc : ServiceSpec) (command image : String) (env : List ContainerEnv)
      → Writes K (IsServiceWrite st) (reconcile_release_job K r st svc command image env)
  unfolding reconcile_release_job
  reconcile_release_job-Writes owners svc command image env =
      search (writes_rules, after_get-Writes)

  after_release-Writes :
      (svc : ServiceSpec) (image : String) (env : List ContainerEnv) (flags : Flags)
      (state : ReleaseState)
      → Writes K (IsServiceWrite st) (after_release K r st svc image env flags state)
  after_release-Writes svc image env flags complete = roll_out-Writes svc image env flags
  after_release-Writes svc image env flags failed = search writes_rules
  after_release-Writes svc image env flags unfinished = search writes_rules

  release-Writes :
      SetsOwner K
      → (svc : ServiceSpec) (image : String) (env : List ContainerEnv) (flags : Flags)
        (hook : Option String)
      → Writes K (IsServiceWrite st) (release K r st svc image env flags hook)
  unfolding release
  release-Writes owners svc image env flags none = roll_out-Writes svc image env flags
  release-Writes owners svc image env flags (some command) =
      search (writes_rules, reconcile_release_job-Writes, after_release-Writes)

  reconcile_service-Writes :
      SetsOwner K
      → (urls : Dict String) (backings : Dict Backing) (flags : Flags) (svc : ServiceSpec)
      → Writes K (IsServiceWrite st) (reconcile_service K r st urls backings flags svc)
  unfolding reconcile_service
  reconcile_service-Writes owners urls backings flags svc = search (writes_rules, release-Writes)

  -- Whatever the cluster holds and answers, each writing call of the loop over the services creates a
  -- release Job with the name of the Stack, the service and the Stack's generation, or creates or
  -- updates the Deployment or the Service with the name of the Stack, a service and a process; each in the namespace of
  -- the Stack, where SetControllerReference touches only the owner references.
  pub reconcile_services-Writes :
      SetsOwner K
      → (urls : Dict String) (backings : Dict Backing) (flags : Flags) (svcs : List ServiceSpec)
      → Writes K (IsServiceWrite st) (reconcile_services K r st urls backings flags svcs)
  unfolding reconcile_services
  reconcile_services-Writes owners urls backings flags [] = Writes-pure flags
  reconcile_services-Writes owners urls backings flags (svc ∷ svcs) =
      Writes-bind _ _ (reconcile_service-Writes owners urls backings flags svc)
        (λ flags'. reconcile_services-Writes owners urls backings flags' svcs)
