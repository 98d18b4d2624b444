-- ===== src/StackController/Templated/Writing.antt =====
-- What reconcileTemplated of servicedef.go writes once: the claim templates and the password.
use paas_controlplane.Base.{
  String, Bool, false, not, Option, Dict, any, ◌==◌, ◌≡◌, refl, ok, ap, sym, ◌∙◌, ok-injective,
}
use paas_controlplane.Api.{Stack, BackingSpec, Meta}
use paas_controlplane.Kube.{Kube, Container, DataSource, StatefulSet, Quantity, set_owner, stack}
use paas_controlplane.Kube.Owners.{and_then-ok}
use paas_controlplane.ServiceDefs.{ServiceDefinition}
use paas_controlplane.StackController.Setup.{StackReconciler}
use paas_controlplane.StackController.Volumes.{claim_once, backing_labels}
use paas_controlplane.StackController.Volumes.Claims.{claim_once_kept}
use paas_controlplane.StackController.Templated.{
  Outside, is_persistent, written_set, disk_for, mutate_set,
}

written_set_claims :
    (r : StackReconciler) (st : Stack) (b : BackingSpec) (def : ServiceDefinition) (c : Container)
    (source : Option DataSource) (disk : Quantity) (meta : Meta) (ss : StatefulSet)
    → (written_set r st b def c source disk meta ss).volume_claim_templates
      ≡ (claim_once (is_persistent def.persistence) source disk ss).volume_claim_templates
unfolding written_set
written_set_claims r st b def c source disk meta ss = refl

-- The mutate function of a template-backed service's StatefulSet leaves the claim templates of one
-- that exists, which has a UID, as they are.
pub templated_claims_once :
    (K : Kube) (out : Outside) (r : StackReconciler) (st : Stack) (b : BackingSpec)
    (def : ServiceDefinition) (c : Container) (source : Option DataSource) (ss ss' : StatefulSet)
    → (ss.meta.uid == "") ≡ false
    → mutate_set K out r st b def c source ss ≡ ok ss'
    → ss'.volume_claim_templates ≡ ss.volume_claim_templates
unfolding mutate_set
templated_claims_once K out r st b def c source ss ss' e m =
    let (disk, _, m2) = and_then-ok (disk_for K out b def ss) _ ss' m in
    let (meta, _, same) =
      and_then-ok (set_owner K stack st.meta (record ss.meta { labels = backing_labels st b })) _
        ss' m2 in
    ap (λ (x : StatefulSet). x.volume_claim_templates) (sym (ok-injective _ ss' same))
    ∙ written_set_claims r st b def c source disk meta ss
    ∙ ap (λ (x : StatefulSet). x.volume_claim_templates)
        (claim_once_kept (is_persistent def.persistence) source disk ss e)

-- No entry of the templates is for the key "password".
abbrev spares_password : Dict String → Bool
spares_password tmpls = not (any (λ e. e.0 == "password") tmpls)
