-- ===== src/StackController/Services/Settled.antt =====
-- No error of the loop of Reconcile over the services is lost, stack_controller.go.
use paas_controlplane.Base.{String, List, [], ◌∷◌, Option, none, some, Dict, Result, ok, err}
use paas_controlplane.Api.{Stack, ServiceSpec, ProcessSpec}
use paas_controlplane.Kube.{Kube, Call, ContainerEnv, Err, Job}
use paas_controlplane.Kube.Strict.{
  Strict, IsSettled, Strict-pure, Strict-for_each, Strict-bind, strict_rules,
}
use paas_controlplane.StackController.Setup.{StackReconciler, Backing}
use paas_controlplane.StackController.Releases.{
  ReleaseState, complete, failed, unfinished, start_release, after_get, reconcile_release_job,
}
use paas_controlplane.StackController.Processes.{expose, reconcile_process}
use paas_controlplane.StackController.Services.{
  Flags, run_process, roll_out, after_release, release, reconcile_service, reconcile_services,
}

module _ (Lost : Call → Type 0) (K : Kube) (r : StackReconciler) (st : Stack) where
  expose-Strict :
      (svc : ServiceSpec) (p : ProcessSpec) → Strict K (IsSettled Lost) (expose K st svc p)
  expose-Strict svc p = search strict_rules

  reconcile_process-Strict :
      (svc : ServiceSpec) (image : String) (env : List ContainerEnv) (p : ProcessSpec)
      → Strict K (IsSettled Lost) (reconcile_process K r st svc image env p)
  unfolding reconcile_process
  reconcile_process-Strict svc image env p = search (strict_rules, expose-Strict)

  run_process-Strict :
      (svc : ServiceSpec) (image : String) (env : List ContainerEnv) (p : ProcessSpec)
      → Strict K (IsSettled Lost) (run_process K r st svc image env p)
  run_process-Strict svc image env p = search (strict_rules, reconcile_process-Strict)

  roll_out-Strict :
      (svc : ServiceSpec) (image : String) (env : List ContainerEnv) (flags : Flags)
      → Strict K (IsSettled Lost) (roll_out K r st svc image env flags)
  unfolding roll_out
  roll_out-Strict svc image env flags = search (strict_rules, Strict-for_each, run_process-Strict)

  start_release-Strict : (built : Job) → Strict K (IsSettled Lost) (start_release K st built)
  unfolding start_release
  start_release-Strict built = search strict_rules

  after_get-Strict :
      (built : Job) (got : Result (Err K.Error) Job)
      → Strict K (IsSettled Lost) (after_get K st built got)
  after_get-Strict built (ok j) = search strict_rules
  after_get-Strict built (err x) = search (strict_rules, start_release-Strict)

  reconcile_release_job-Strict :
      (svc : ServiceSpec) (command image : String) (env : List ContainerEnv)
      → Strict K (IsSettled Lost) (reconcile_release_job K r st svc command image env)
  unfolding reconcile_release_job
  reconcile_release_job-Strict svc command image env = search (strict_rules, after_get-Strict)

  after_release-Strict :
      (svc : ServiceSpec) (image : String) (env : List ContainerEnv) (flags : Flags)
      (state : ReleaseState)
      → Strict K (IsSettled Lost) (after_release K r st svc image env flags state)
  after_release-Strict svc image env flags complete = roll_out-Strict svc image env flags
  after_release-Strict svc image env flags failed = search strict_rules
  after_release-Strict svc image env flags unfinished = search strict_rules

  release-Strict :
      (svc : ServiceSpec) (image : String) (env : List ContainerEnv) (flags : Flags)
      (hook : Option String)
      → Strict K (IsSettled Lost) (release K r st svc image env flags hook)
  unfolding release
  release-Strict svc image env flags none = roll_out-Strict svc image env flags
  release-Strict svc image env flags (some command) =
      search (strict_rules, reconcile_release_job-Strict, after_release-Strict)

  reconcile_service-Strict :
      (urls : Dict String) (backings : Dict Backing) (flags : Flags) (svc : ServiceSpec)
      → Strict K (IsSettled Lost) (reconcile_service K r st urls backings flags svc)
  unfolding reconcile_service
  reconcile_service-Strict urls backings flags svc = search (strict_rules, release-Strict)

  pub reconcile_services-Strict :
      (urls : Dict String) (backings : Dict Backing) (flags : Flags) (svcs : List ServiceSpec)
      → Strict K (IsSettled Lost) (reconcile_services K r st urls backings flags svcs)
  unfolding reconcile_services
  reconcile_services-Strict urls backings flags [] = Strict-pure flags
  reconcile_services-Strict urls backings flags (svc ∷ svcs) =
      Strict-bind _ _ (reconcile_service-Strict urls backings flags svc)
        (λ flags'. reconcile_services-Strict urls backings flags' svcs)
