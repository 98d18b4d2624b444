-- ===== src/StackController/Services.antt =====
-- The loop of Reconcile over the services, stack_controller.go.
pub mod Isolation
pub mod Settled
pub mod Gates
pub mod Waiting
use paas_controlplane.Base.{
  String, List, [], ◌∷◌, Bool, true, false, Option, none, some, Dict, ◌⧺◌, ◌==◌, if◌then◌else◌,
}
use paas_controlplane.Api.{Stack, ServiceSpec, ProcessSpec, Hooks}
use paas_controlplane.Kube.{Kube, Io, wrap, ContainerEnv, on_error, pure, for_each, ◌>>=◌, ◌>>◌}
use paas_controlplane.AppController.{normalize_image}
use paas_controlplane.StackController.Setup.{StackReconciler, Backing}
use paas_controlplane.StackController.Connections.{Resolved, resolve}
use paas_controlplane.StackController.Releases.{
  ReleaseState, complete, failed, unfinished, reconcile_release_job,
}
use paas_controlplane.StackController.Processes.{reconcile_process}

-- The variables releasePending, releaseFailed and backingPending.
pub record Flags : Type 0 where
  pub release_pending : Bool
  pub release_failed : Bool
  pub backing_pending : Bool

abbrev pub no_flags : Flags
no_flags = record { release_pending = false; release_failed = false; backing_pending = false }

-- The release hook of a service that has one.
abbrev pub hook_of : Option Hooks → Option String
hook_of none = none
hook_of (some h) = if h.release == "" then none else some h.release

module _ (K : Kube) where
  abbrev pub run_process :
      StackReconciler
      → Stack
      → ServiceSpec
      → String
      → List ContainerEnv
      → ProcessSpec
      → Io K (Unit {0})
  run_process r st svc image env p =
      on_error (wrap ("service " ⧺ svc.name ⧺ " process " ⧺ p.name))
        (reconcile_process K r st svc image env p)

  unfoldable pub roll_out :
      StackReconciler → Stack → ServiceSpec → String → List ContainerEnv → Flags → Io K Flags
  unfolding ◌>>=◌ for_each
  roll_out r st svc image env flags = do
    for_each (run_process r st svc image env) svc.processes
    pure flags

  abbrev pub after_release :
      StackReconciler
      → Stack
      → ServiceSpec
      → String
      → List ContainerEnv
      → Flags
      → ReleaseState
      → Io K Flags
  after_release r st svc image env flags complete = roll_out r st svc image env flags
  after_release r st svc image env flags failed = pure (record flags { release_failed = true })
  after_release r st svc image env flags unfinished = pure (record flags { release_pending = true })

  unfoldable pub release :
      StackReconciler
      → Stack
      → ServiceSpec
      → String
      → List ContainerEnv
      → Flags
      → Option String
      → Io K Flags
  unfolding ◌>>=◌ roll_out
  release r st svc image env flags none = roll_out r st svc image env flags
  release r st svc image env flags (some command) = do
    state ← reconcile_release_job K r st svc command image env
    after_release r st svc image env flags state

  abbrev pub hold_or_release : StackReconciler → Stack → ServiceSpec → Flags → Resolved → Io K Flags
  hold_or_release r st svc flags found =
      if found.wait_backing
      then pure (record flags { backing_pending = true })
      else release r st svc (normalize_image svc.image) found.env flags (hook_of svc.hooks)

  -- The body of the loop: the flags after the service.
  unfoldable pub reconcile_service :
      StackReconciler → Stack → Dict String → Dict Backing → Flags → ServiceSpec → Io K Flags
  unfolding resolve
  reconcile_service r st urls backings flags svc =
      if svc.image == ""
      then pure flags
      else hold_or_release r st svc flags (resolve urls backings svc)

  unfoldable pub reconcile_services :
      StackReconciler → Stack → Dict String → Dict Backing → Flags → List ServiceSpec → Io K Flags
  unfolding ◌>>=◌ reconcile_service
  reconcile_services r st urls backings flags [] = pure flags
  reconcile_services r st urls backings flags (svc ∷ svcs) = do
    flags' ← reconcile_service r st urls backings flags svc
    reconcile_services r st urls backings flags' svcs
