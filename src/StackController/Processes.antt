-- ===== src/StackController/Processes.antt =====
-- reconcileProcess of stack_controller.go: the Deployment of a process, and its Service if it has a
-- port.
pub mod Mutate
pub mod Names
use paas_controlplane.Base.{
  String, List, [], ◌∷◌, false, some, Dict, pos, is_pos, ◌==◌, if◌then◌else◌, Result, ok, and_then,
}
use paas_controlplane.Api.{Stack, ServiceSpec, ProcessSpec, Meta, named}
use paas_controlplane.Kube.{
  Kube, Io, Err, wrap, Deployment, Service, Container, ContainerEnv, ResourceRequirements,
  deployment, service, stack, set_owner, ensure, on_error, pure, fresh_deployment, fresh_service,
  ◌>>=◌, ◌>>◌,
}
use paas_controlplane.Overcommit.{apply_scheduler}
use paas_controlplane.AppController.{resources, hardened, replicas_or_one}
use paas_controlplane.StackController.Setup.{
  StackReconciler, stack_label, sh_command, tolerations, process_name, process_env,
}

abbrev pub process_labels : Stack → ServiceSpec → ProcessSpec → Dict String
process_labels st svc p =
    stack_label st.meta.name ∷ ("paas.sh/service", svc.name) ∷ ("paas.sh/process", p.name) ∷ []

unfoldable pub process_container :
    ProcessSpec → String → List ContainerEnv → ResourceRequirements → Container
unfolding process_env
process_container p image svc_env limits = record {
  name = p.name;
  image = image;
  image_pull_policy = "IfNotPresent";
  command = if p.command == "" then [] else sh_command p.command;
  args = [];
  env = process_env svc_env p.port;
  ports = if is_pos p.port then record { container_port = p.port; name = "http" } ∷ [] else [];
  resources = some limits;
  volume_mounts = [];
  security_context = hardened;
}

-- What the mutate function makes of the Deployment.
unfoldable pub written_deployment :
    StackReconciler → Stack → ServiceSpec → ProcessSpec → Container → Meta → Deployment → Deployment
unfolding tolerations apply_scheduler
written_deployment r st svc p container meta dep =
    let labels = process_labels st svc p in
    let pod =
      apply_scheduler
        (record dep.pod {
          automount_service_account_token = some false;
          tolerations = tolerations r;
        })
        r.scheduler_name in
    record dep {
      meta = meta;
      replicas = some (replicas_or_one p.replicas);
      selector = labels;
      template_labels = labels;
      pod = record pod { containers = container ∷ [] };
    }

unfoldable pub written_service : Stack → ServiceSpec → ProcessSpec → Meta → Service → Service
written_service st svc p meta o = record o {
  meta = meta;
  selector = process_labels st svc p;
  ports = record { name = "http"; port = pos 80; target_port = p.port } ∷ [];
}

module _ (K : Kube) where
  unfoldable pub mutate_deployment :
      StackReconciler
      → Stack
      → ServiceSpec
      → ProcessSpec
      → String
      → List ContainerEnv
      → Deployment
      → Result (Err K.Error) Deployment
  unfolding resources
  mutate_deployment r st svc p image svc_env dep =
      and_then (resources K p.resources r.tier) λ limits.
        and_then (set_owner K stack st.meta (record dep.meta { labels = process_labels st svc p }))
          λ meta.
            ok (written_deployment r st svc p (process_container p image svc_env limits) meta dep)

  unfoldable pub mutate_service :
      Stack → ServiceSpec → ProcessSpec → Service → Result (Err K.Error) Service
  mutate_service st svc p o =
      and_then (set_owner K stack st.meta (record o.meta { labels = process_labels st svc p }))
        λ meta. ok (written_service st svc p meta o)

  abbrev pub expose : Stack → ServiceSpec → ProcessSpec → Io K (Unit {0})
  expose st svc p =
      if is_pos p.port
      then (do
        on_error (wrap "service") (
            ensure K service (fresh_service (named st.meta.namespace (process_name st svc p)))
              (mutate_service st svc p))
        pure tt)
      else pure tt

  unfoldable pub reconcile_process :
      StackReconciler
      → Stack
      → ServiceSpec
      → String
      → List ContainerEnv
      → ProcessSpec
      → Io K (Unit {0})
  unfolding ◌>>=◌
  reconcile_process r st svc image svc_env p = do
    on_error (wrap "deployment") (
        ensure K deployment (fresh_deployment (named st.meta.namespace (process_name st svc p)))
          (mutate_deployment r st svc p image svc_env))
    expose st svc p
