-- ===== src/StackController/Volumes/Claims.antt =====
-- The claim templates of a StatefulSet that exists, stack_controller.go and servicedef.go.
use paas_controlplane.Base.{Bool, true, false, Option, ◌==◌, ◌≡◌, refl}
use paas_controlplane.Kube.{DataSource, StatefulSet, Quantity}
use paas_controlplane.StackController.Volumes.{claim_once}

-- A StatefulSet with a UID keeps its claim templates.
pub claim_once_kept :
    (persistent : Bool) (source : Option DataSource) (disk : Quantity) (ss : StatefulSet)
    → (ss.meta.uid == "") ≡ false
    → claim_once persistent source disk ss ≡ ss
unfolding claim_once
claim_once_kept true source disk ss e = rw e
claim_once_kept false source disk ss e = refl
