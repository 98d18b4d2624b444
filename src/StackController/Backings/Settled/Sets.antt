-- ===== src/StackController/Backings/Settled/Sets.antt =====
-- No error of a fallback or a template-backed service is lost, stack_controller.go and servicedef.go.
use paas_controlplane.Base.{String, Bool, true, false, Option, Result, ok, err}
use paas_controlplane.Api.{Stack, BackingSpec}
use paas_controlplane.Kube.{Kube, Container, DataSource}
use paas_controlplane.Kube.Strict.{Strict, IsSettled, strict_rules}
use paas_controlplane.ServiceDefs.{ServiceDefinition}
use paas_controlplane.StackController.Setup.{StackReconciler}
use paas_controlplane.Snapshots.{stateful_set_exists}
use paas_controlplane.StackController.Volumes.{
  Origin, empty, restored, awaited, restore_unless, restore_new, clone_origin, mark_for_backup,
}
use paas_controlplane.StackController.Fallback as Fallback
use paas_controlplane.StackController.Templated as Templated
use paas_controlplane.StackController.Backings.Settled.Clones.{
  IsBestEffort, label_backup_pvc-Writes, prepare_clone_restore-Strict,
}

module _ (K : Kube) (r : StackReconciler) (st : Stack) where
  stateful_set_exists-Strict :
      (ns name : String) → Strict K (IsSettled IsBestEffort) (stateful_set_exists K ns name)
  unfolding stateful_set_exists
  stateful_set_exists-Strict ns name = search strict_rules

  restore_unless-Strict :
      (b : BackingSpec) (exists : Bool)
      → Strict K (IsSettled IsBestEffort) (restore_unless K st b exists)
  restore_unless-Strict b true = search strict_rules
  restore_unless-Strict b false = search (strict_rules, prepare_clone_restore-Strict)

  restore_new-Strict : (b : BackingSpec) → Strict K (IsSettled IsBestEffort) (restore_new K st b)
  unfolding restore_new
  restore_new-Strict b = search (strict_rules, stateful_set_exists-Strict, restore_unless-Strict)

  clone_origin-Strict :
      (persistent : Bool) (b : BackingSpec)
      → Strict K (IsSettled IsBestEffort) (clone_origin K persistent st b)
  unfolding clone_origin
  clone_origin-Strict persistent b = search (strict_rules, restore_new-Strict)

  mark_for_backup-Strict :
      (persistent : Bool) (b : BackingSpec)
      → Strict K (IsSettled IsBestEffort) (mark_for_backup K persistent st b)
  unfolding mark_for_backup
  mark_for_backup-Strict persistent b = search (strict_rules, label_backup_pvc-Writes)

  fallback_set-Strict :
      (b : BackingSpec) (source : Option DataSource)
      → Strict K (IsSettled IsBestEffort) (Fallback.run_set K r st b source)
  unfolding Fallback.run_set
  fallback_set-Strict b source = search (strict_rules, mark_for_backup-Strict)

  fallback_from-Strict :
      (b : BackingSpec) (origin : Origin)
      → Strict K (IsSettled IsBestEffort) (Fallback.run_from K r st b origin)
  fallback_from-Strict b empty = search fallback_set-Strict
  fallback_from-Strict b (restored source) = search fallback_set-Strict
  fallback_from-Strict b awaited = search strict_rules

  run_fallback-Strict :
      (b : BackingSpec) → Strict K (IsSettled IsBestEffort) (Fallback.run_fallback K r st b)
  unfolding Fallback.run_fallback
  run_fallback-Strict b = search (strict_rules, clone_origin-Strict, fallback_from-Strict)

  pub reconcile_fallback-Strict :
      (b : BackingSpec) → Strict K (IsSettled IsBestEffort) (Fallback.reconcile_fallback K r st b)
  unfolding Fallback.reconcile_fallback
  reconcile_fallback-Strict b = search (strict_rules, run_fallback-Strict)

  module _ (out : Templated.Outside) where
    templated_set-Strict :
        (b : BackingSpec) (def : ServiceDefinition) (c : Container) (source : Option DataSource)
        → Strict K (IsSettled IsBestEffort) (Templated.run_set K out r st b def c source)
    unfolding Templated.run_set
    templated_set-Strict b def c source = search (strict_rules, mark_for_backup-Strict)

    templated_from-Strict :
        (b : BackingSpec) (def : ServiceDefinition) (c : Container) (origin : Origin)
        → Strict K (IsSettled IsBestEffort) (Templated.run_from K out r st b def c origin)
    templated_from-Strict b def c empty = search templated_set-Strict
    templated_from-Strict b def c (restored source) = search templated_set-Strict
    templated_from-Strict b def c awaited = search strict_rules

    run_templated-Strict :
        (b : BackingSpec) (def : ServiceDefinition) (image : String)
        → Strict K (IsSettled IsBestEffort) (Templated.run_templated K out r st b def image)
    unfolding Templated.run_templated
    run_templated-Strict b def image =
        search (strict_rules, clone_origin-Strict, templated_from-Strict)

    with_image-Strict :
        (b : BackingSpec) (def : ServiceDefinition) (image : Result String String)
        → Strict K (IsSettled IsBestEffort) (Templated.with_image K out r st b def image)
    with_image-Strict b def (ok image) = run_templated-Strict b def image
    with_image-Strict b def (err e) = search strict_rules

    pub reconcile_templated-Strict :
        (b : BackingSpec) (def : ServiceDefinition)
        → Strict K (IsSettled IsBestEffort) (Templated.reconcile_templated K out r st b def)
    unfolding Templated.reconcile_templated
    reconcile_templated-Strict b def = with_image-Strict b def _
