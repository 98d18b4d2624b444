-- ===== src/StackController/Backings/Claims.antt =====
-- The volumes of a backing are asked for once: the StatefulSets of stack_controller.go and servicedef.go.
use paas_controlplane.Base.{Option, false, ◌==◌, ◌≡◌, ok}
use paas_controlplane.Api.{Stack, BackingSpec}
use paas_controlplane.Kube.{Kube, Container, DataSource, StatefulSet}
use paas_controlplane.ServiceDefs.{ServiceDefinition}
use paas_controlplane.StackController.Setup.{StackReconciler}
use paas_controlplane.StackController.Templated.{Outside}
use paas_controlplane.StackController.Fallback
use paas_controlplane.StackController.Templated
use paas_controlplane.StackController.Fallback.Writing.{fallback_claims_once}
use paas_controlplane.StackController.Templated.Writing.{templated_claims_once}

-- The functions that mutate the StatefulSet of a fallback and of a template-backed service leave the
-- claim templates of one that exists, which has a UID, as they are, whatever the disk, the
-- descriptor and the restore snapshot are by now.
pub claims_once :
    (K : Kube) (out : Outside) (r : StackReconciler) (st : Stack) (b : BackingSpec)
    (def : ServiceDefinition) (c : Container) (source : Option DataSource)
    (ss fallen made : StatefulSet)
    → (ss.meta.uid == "") ≡ false
    → Fallback.mutate_set K r st b source ss ≡ ok fallen
    → Templated.mutate_set K out r st b def c source ss ≡ ok made
    → (fallen.volume_claim_templates ≡ ss.volume_claim_templates)
      × (made.volume_claim_templates ≡ ss.volume_claim_templates)
claims_once K out r st b def c source ss fallen made e f t = (
  fallback_claims_once K r st b source ss fallen e f,
  templated_claims_once K out r st b def c source ss made e t,
)
