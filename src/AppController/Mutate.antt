-- ===== src/AppController/Mutate.antt =====
-- The mutate functions that app_controller.go hands to CreateOrUpdate.
use paas_controlplane.Base.{String, ◌≡◌, refl, arith}
use paas_controlplane.Api.{App, Meta}
use paas_controlplane.Kube.{Kube, Deployment, ResourceRequirements, app}
use paas_controlplane.Kube.Owners.{SetsOwner, IsStable, IsStable-and_then, IsStable-labelled}
use paas_controlplane.AppController.{
  AppReconciler, app_labels, written_deployment, written_service, mutate_deployment, mutate_service,
  resources,
}

written_deployment_again :
    (r : AppReconciler) (a : App) (image : String) (limits : ResourceRequirements) (m n : Meta)
    (dep : Deployment)
    → written_deployment r a image limits m (written_deployment r a image limits n dep)
      ≡ written_deployment r a image limits m dep
unfolding written_deployment
written_deployment_again r a image limits m n dep = ground arith

written_deployment-meta :
    (r : AppReconciler) (a : App) (image : String) (limits : ResourceRequirements) (m : Meta)
    (dep : Deployment)
    → (written_deployment r a image limits m dep).meta ≡ m
unfolding written_deployment
written_deployment-meta r a image limits m dep = refl

module _ (K : Kube) (owners : SetsOwner K) where
  pub mutate_service-IsStable : (a : App) → IsStable (mutate_service K a)
  unfolding mutate_service written_service
  mutate_service-IsStable a =
      IsStable-labelled K owners app a.meta (λ svc. svc.meta) (written_service a) (λ m o. refl)
        (λ m n o. refl) (app_labels a.meta.name)

  pub mutate_deployment-IsStable :
      (r : AppReconciler) (a : App) (image : String) → IsStable (mutate_deployment K r a image)
  unfolding mutate_deployment
  mutate_deployment-IsStable r a image =
      IsStable-and_then (resources K a.spec.resources r.tier) _ λ limits.
        IsStable-labelled K owners app a.meta (λ dep. dep.meta)
          (written_deployment r a image limits) (written_deployment-meta r a image limits)
          (written_deployment_again r a image limits) (app_labels a.meta.name)
