-- ===== src/StackController/Fallback/Writing.antt =====
-- The claim templates of a fallback's StatefulSet are set once, stack_controller.go.
use paas_controlplane.Base.{true, false, Option, ◌==◌, ◌≡◌, refl, ok, ap, sym, ◌∙◌, ok-injective}
use paas_controlplane.Api.{Stack, BackingSpec, Meta}
use paas_controlplane.Kube.{
  Kube, DataSource, StatefulSet, Quantity, ResourceRequirements, set_owner, stack,
}
use paas_controlplane.Kube.Owners.{and_then-ok}
use paas_controlplane.StackController.Setup.{StackReconciler}
use paas_controlplane.StackController.Volumes.{claim_once, fixed_resources, backing_labels}
use paas_controlplane.StackController.Volumes.Claims.{claim_once_kept}
use paas_controlplane.StackController.Fallback.{written_set, mutate_set, disk_for}

written_set_claims :
    (r : StackReconciler) (st : Stack) (b : BackingSpec) (limits : ResourceRequirements)
    (source : Option DataSource) (disk : Quantity) (meta : Meta) (ss : StatefulSet)
    → (written_set r st b limits source disk meta ss).volume_claim_templates
      ≡ (claim_once true source disk ss).volume_claim_templates
unfolding written_set
written_set_claims r st b limits source disk meta ss = refl

-- The mutate function of a fallback's StatefulSet leaves the claim templates of one that exists, which
-- has a UID, as they are, whatever the disk and the restore snapshot are by now.
pub fallback_claims_once :
    (K : Kube) (r : StackReconciler) (st : Stack) (b : BackingSpec) (source : Option DataSource)
    (ss ss' : StatefulSet)
    → (ss.meta.uid == "") ≡ false
    → mutate_set K r st b source ss ≡ ok ss'
    → ss'.volume_claim_templates ≡ ss.volume_claim_templates
unfolding mutate_set
fallback_claims_once K r st b source ss ss' e m =
    let (limits, _, m1) = and_then-ok (fixed_resources K "500m" "512Mi" r.tier) _ ss' m in
    let (disk, _, m2) = and_then-ok (disk_for K b ss) _ ss' m1 in
    let (meta, _, same) =
      and_then-ok (set_owner K stack st.meta (record ss.meta { labels = backing_labels st b })) _
        ss' m2 in
    ap (λ (x : StatefulSet). x.volume_claim_templates) (sym (ok-injective _ ss' same))
    ∙ written_set_claims r st b limits source disk meta ss
    ∙ ap (λ (x : StatefulSet). x.volume_claim_templates) (claim_once_kept true source disk ss e)
