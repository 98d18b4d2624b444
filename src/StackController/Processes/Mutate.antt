-- ===== src/StackController/Processes/Mutate.antt =====
-- The mutate functions that reconcileProcess hands to CreateOrUpdate, stack_controller.go.
use paas_controlplane.Base.{String, List, ◌≡◌, refl, arith}
use paas_controlplane.Api.{App, Stack, ServiceSpec, ProcessSpec, Meta}
use paas_controlplane.Kube.{Kube, Deployment, Container, ContainerEnv, stack}
use paas_controlplane.Kube.Owners.{SetsOwner, IsStable, IsStable-and_then, IsStable-labelled}
use paas_controlplane.AppController.{AppReconciler, resources}
use paas_controlplane.AppController as Apps
use paas_controlplane.AppController.Mutate.{mutate_deployment-IsStable}
use paas_controlplane.StackController.Setup.{StackReconciler}
use paas_controlplane.StackController.Processes.{
  process_labels, process_container, written_deployment, written_service, mutate_deployment,
  mutate_service,
}

written_deployment_again :
    (r : StackReconciler) (st : Stack) (svc : ServiceSpec) (p : ProcessSpec) (c : Container)
    (m n : Meta) (dep : Deployment)
    → written_deployment r st svc p c m (written_deployment r st svc p c n dep)
      ≡ written_deployment r st svc p c m dep
unfolding written_deployment
written_deployment_again r st svc p c m n dep = ground arith

written_deployment-meta :
    (r : StackReconciler) (st : Stack) (svc : ServiceSpec) (p : ProcessSpec) (c : Container)
    (m : Meta) (dep : Deployment)
    → (written_deployment r st svc p c m dep).meta ≡ m
unfolding written_deployment
written_deployment-meta r st svc p c m dep = refl

module _ (K : Kube) (owners : SetsOwner K) where
  -- Writing the Service of a process over its own result changes nothing.
  pub process_service-IsStable :
      (st : Stack) (svc : ServiceSpec) (p : ProcessSpec) → IsStable (mutate_service K st svc p)
  unfolding mutate_service written_service
  process_service-IsStable st svc p =
      IsStable-labelled K owners stack st.meta (λ o. o.meta) (written_service st svc p)
        (λ m o. refl) (λ m n o. refl) (process_labels st svc p)

  process_deployment-IsStable :
      (r : StackReconciler) (st : Stack) (svc : ServiceSpec) (p : ProcessSpec) (image : String)
      (env : List ContainerEnv)
      → IsStable (mutate_deployment K r st svc p image env)
  unfolding mutate_deployment
  process_deployment-IsStable r st svc p image env =
      IsStable-and_then (resources K p.resources r.tier) _ λ limits.
        let c = process_container p image env limits in
        IsStable-labelled K owners stack st.meta (λ dep. dep.meta) (written_deployment r st svc p c)
          (written_deployment-meta r st svc p c) (written_deployment_again r st svc p c)
          (process_labels st svc p)

  -- The Deployment of an App and the Deployment of a process are written to a fixed point: where the
  -- mutate function succeeds, it succeeds again on its own result and changes nothing, where
  -- SetControllerReference touches only the owner references and is idempotent.
  pub deployments_IsStable :
      (apps : AppReconciler) (a : App) (r : StackReconciler) (st : Stack) (svc : ServiceSpec)
      (p : ProcessSpec) (image : String) (env : List ContainerEnv)
      → IsStable (Apps.mutate_deployment K apps a image)
        × IsStable (mutate_deployment K r st svc p image env)
  deployments_IsStable apps a r st svc p image env = (
    mutate_deployment-IsStable K owners apps a image,
    process_deployment-IsStable r st svc p image env,
  )
