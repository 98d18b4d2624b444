-- ===== src/StackController/Backings/Sets.antt =====
-- What a fallback or a template-backed service writes, stack_controller.go and servicedef.go.
use paas_controlplane.Base.{String, Bool, ◌&&◌, ◌≡◌, and-true, true, false, Option, Result, ok, err}
use paas_controlplane.Api.{Stack, BackingSpec}
use paas_controlplane.Kube.{Kube, Answers, Container, DataSource, pure}
use paas_controlplane.Kube.Writes.{Writes, Writes-if}
use paas_controlplane.ServiceDefs.{ServiceDefinition}
use paas_controlplane.StackController.Setup.{StackReconciler}
use paas_controlplane.Snapshots.{is_preview_clone, stateful_set_exists}
use paas_controlplane.StackController.Volumes.{
  Origin, empty, restored, awaited, restore_unless, restore_new, clone_origin, mark_for_backup,
}
use paas_controlplane.StackController.Fallback as Fallback
use paas_controlplane.StackController.Templated as Templated
use paas_controlplane.StackController.Backings.Isolation.{
  IsBackingWrite, backing_writes, label_backup_pvc-Writes, prepare_clone_restore-Writes,
}

module _ (K : Kube) (r : StackReconciler) (st : Stack) where
  stateful_set_exists-Writes :
      (ns name : String) → Writes K (IsBackingWrite st) (stateful_set_exists K ns name)
  unfolding stateful_set_exists
  stateful_set_exists-Writes ns name = search backing_writes

  restore_unless-Writes :
      is_preview_clone st ≡ true
      → (b : BackingSpec) (exists : Bool)
      → Writes K (IsBackingWrite st) (restore_unless K st b exists)
  restore_unless-Writes preview b true = search backing_writes
  restore_unless-Writes preview b false =
      search (backing_writes, prepare_clone_restore-Writes K st preview)

  restore_new-Writes :
      is_preview_clone st ≡ true
      → (b : BackingSpec) → Writes K (IsBackingWrite st) (restore_new K st b)
  unfolding restore_new
  restore_new-Writes preview b =
      search (backing_writes, stateful_set_exists-Writes, restore_unless-Writes)

  clone_origin-Writes :
      (persistent : Bool) (b : BackingSpec)
      → Writes K (IsBackingWrite st) (clone_origin K persistent st b)
  unfolding clone_origin
  clone_origin-Writes persistent b =
      Writes-if (persistent && is_preview_clone st) (restore_new K st b) (pure empty)
        (λ e. restore_new-Writes (and-true persistent (is_preview_clone st) e).1 b)
        (λ _. search backing_writes)

  mark_for_backup-Writes :
      Answers K
      → (persistent : Bool) (b : BackingSpec)
      → Writes K (IsBackingWrite st) (mark_for_backup K persistent st b)
  unfolding mark_for_backup
  mark_for_backup-Writes answers persistent b = search (backing_writes, label_backup_pvc-Writes)

  fallback_set-Writes :
      Answers K
      → (b : BackingSpec) (source : Option DataSource)
      → Writes K (IsBackingWrite st) (Fallback.run_set K r st b source)
  unfolding Fallback.run_set
  fallback_set-Writes answers b source = search (backing_writes, mark_for_backup-Writes)

  fallback_from-Writes :
      Answers K
      → (b : BackingSpec) (origin : Origin)
      → Writes K (IsBackingWrite st) (Fallback.run_from K r st b origin)
  fallback_from-Writes answers b empty = search fallback_set-Writes
  fallback_from-Writes answers b (restored source) = search fallback_set-Writes
  fallback_from-Writes answers b awaited = search backing_writes

  run_fallback-Writes :
      Answers K → (b : BackingSpec) → Writes K (IsBackingWrite st) (Fallback.run_fallback K r st b)
  unfolding Fallback.run_fallback
  run_fallback-Writes answers b = search (backing_writes, clone_origin-Writes, fallback_from-Writes)

  pub reconcile_fallback-Writes :
      Answers K
      → (b : BackingSpec) → Writes K (IsBackingWrite st) (Fallback.reconcile_fallback K r st b)
  unfolding Fallback.reconcile_fallback
  reconcile_fallback-Writes answers b = search (backing_writes, run_fallback-Writes)

  module _ (out : Templated.Outside) where
    templated_set-Writes :
        Answers K
        → (b : BackingSpec) (def : ServiceDefinition) (c : Container) (source : Option DataSource)
        → Writes K (IsBackingWrite st) (Templated.run_set K out r st b def c source)
    unfolding Templated.run_set
    templated_set-Writes answers b def c source = search (backing_writes, mark_for_backup-Writes)

    templated_from-Writes :
        Answers K
        → (b : BackingSpec) (def : ServiceDefinition) (c : Container) (origin : Origin)
        → Writes K (IsBackingWrite st) (Templated.run_from K out r st b def c origin)
    templated_from-Writes answers b def c empty = search templated_set-Writes
    templated_from-Writes answers b def c (restored source) = search templated_set-Writes
    templated_from-Writes answers b def c awaited = search backing_writes

    run_templated-Writes :
        Answers K
        → (b : BackingSpec) (def : ServiceDefinition) (image : String)
        → Writes K (IsBackingWrite st) (Templated.run_templated K out r st b def image)
    unfolding Templated.run_templated
    run_templated-Writes answers b def image =
        search (backing_writes, clone_origin-Writes, templated_from-Writes)

    with_image-Writes :
        Answers K
        → (b : BackingSpec) (def : ServiceDefinition) (image : Result String String)
        → Writes K (IsBackingWrite st) (Templated.with_image K out r st b def image)
    with_image-Writes answers b def (ok image) = run_templated-Writes answers b def image
    with_image-Writes answers b def (err e) = search backing_writes

    pub reconcile_templated-Writes :
        Answers K
        → (b : BackingSpec) (def : ServiceDefinition)
        → Writes K (IsBackingWrite st) (Templated.reconcile_templated K out r st b def)
    unfolding Templated.reconcile_templated
    reconcile_templated-Writes answers b def = with_image-Writes answers b def _
