-- ===== src/StackController/Releases.antt =====
-- The release Job of a service, stack_controller.go: one for each generation of the Stack.
use paas_controlplane.Base.{
  String, List, [], ◌∷◌, false, none, some, pos, itoa, ◌⧺◌, ◌==◌, if◌then◌else◌, Result, ok, err,
}
use paas_controlplane.Api.{Stack, ServiceSpec, Meta, named}
use paas_controlplane.Kube.{
  Kube, Io, Err, Job, job, stack, ContainerEnv, JobCondition, set_owner, get, create_object, try,
  pure, raise, lift, is_not_found, ◌>>=◌, ◌>>◌,
}
use paas_controlplane.AppController.{hardened}
use paas_controlplane.StackController.Setup.{StackReconciler, stack_label, sh_command, tolerations}

-- The pair (done, failed) that reconcileReleaseJob returns: never both.
pub data ReleaseState : Type 0 where
  complete failed unfinished : ReleaseState

abbrev pub release_job_name : Stack → ServiceSpec → String
release_job_name st svc = st.meta.name ⧺ "-" ⧺ svc.name ⧺ "-release-g" ⧺ itoa st.meta.generation

-- The loop over the conditions of the Job: the first one that holds and is an end decides.
unfoldable pub job_state : List JobCondition → ReleaseState
job_state [] = unfinished
job_state (c ∷ cs) =
    let rest = job_state cs in
    if c.status == "True"
    then (if c.condition_type == "Complete"
        then complete
        else if c.condition_type == "Failed"
        then failed
        else rest)
    else rest

unfoldable pub build_release_job :
    StackReconciler → Stack → ServiceSpec → String → String → String → List ContainerEnv → Job
unfolding tolerations
build_release_job r st svc command image name env = record {
  meta = record (named st.meta.namespace name) {
    labels =
        stack_label st.meta.name ∷ ("paas.sh/service", svc.name) ∷ ("paas.sh/hook", "release") ∷ [];
  };
  backoff_limit = pos 2;
  pod = record {
    restart_policy = "Never";
    automount_service_account_token = some false;
    tolerations = tolerations r;
    scheduler_name = r.scheduler_name;
    security_context = none;
    containers =
        record {
          name = "release";
          image = image;
          image_pull_policy = "IfNotPresent";
          command = sh_command command;
          args = [];
          env = env;
          ports = [];
          resources = none;
          volume_mounts = [];
          security_context = hardened;
        }
        ∷ [];
  };
  conditions = [];
}

module _ (K : Kube) where
  abbrev pub create_release : Job → Meta → Io K ReleaseState
  create_release built meta = do create_object K job (record built { meta = meta }); pure unfinished

  -- A Job that does not exist yet: it is made, and its end is awaited.
  unfoldable pub start_release : Stack → Job → Io K ReleaseState
  unfolding ◌>>=◌
  start_release st built = do
    meta ← lift (set_owner K stack st.meta built.meta)
    create_release built meta

  abbrev pub after_get : Stack → Job → Result (Err K.Error) Job → Io K ReleaseState
  after_get st built (ok j) = pure (job_state j.conditions)
  after_get st built (err e) = if is_not_found K e then start_release st built else raise e

  -- `command` is the release hook of the service.
  unfoldable pub reconcile_release_job :
      StackReconciler
      → Stack
      → ServiceSpec
      → String
      → String
      → List ContainerEnv
      → Io K ReleaseState
  unfolding ◌>>=◌ build_release_job job_state start_release
  reconcile_release_job r st svc command image env = do
    let name = release_job_name st svc
    got ← try (get K job (record { namespace = st.meta.namespace; name = name }))
    after_get st (build_release_job r st svc command image name env) got
