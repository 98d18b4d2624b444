-- ===== src/StackController/Backings/Requeue.antt =====
-- When Reconcile of stack_controller.go asks to be called again.
use paas_controlplane.Base.{
  String, [], ◌∷◌, Bool, true, false, ◌||◌, Dict, Result, some, ok, ◌≡◌, refl, sym, ap, ◌∙◌, any,
  if◌then◌else◌, ok-injective,
}
use paas_controlplane.Api.{Stack, BackingSpec}
use paas_controlplane.Kube.{
  Kube, Cluster, ReconcileResult, ListOptions, list, deployment, stack, update_object_status,
  bind-ok, pure,
}
use paas_controlplane.ServiceDefs.{ServiceDefinition, ServiceCatalog}
use paas_controlplane.StackController.Setup.{StackReconciler, service_urls, stack_label}
use paas_controlplane.StackController.Templated.{Outside}
use paas_controlplane.StackController.Services.{Flags, no_flags, reconcile_services}
use paas_controlplane.StackController.Services.Waiting.{waits, services-pending}
use paas_controlplane.StackController.Status.{update_status, status_of, requeue_in}
use paas_controlplane.StackController.Backings.{Backed, reconcile_backing, reconcile_stack}

seconds : (again : Bool) → (requeue_in again).requeue_after ≡ (if again then 10 else 0)
seconds true = refl
seconds false = refl

module _ (K : Kube) where
  update_status-ok :
      (st : Stack) (flags : Flags) (backup_pending : Bool) (s : Cluster K) (res : ReconcileResult)
      → (update_status K st flags backup_pending s).0 ≡ ok res
      → res ≡ requeue_in (flags.backing_pending || backup_pending)
  unfolding update_status pure
  update_status-ok st flags backup_pending s res e =
      let options : ListOptions = record {
        namespace = some st.meta.namespace;
        matching_labels = stack_label st.meta.name ∷ [];
      } in
      let (deps, listed, rest) = bind-ok (list K deployment options) _ s res e in
      let (stored, wrote, returned) =
        bind-ok (update_object_status K stack (record st { status = status_of st flags deps })) _ _
          res rest in
      sym (ok-injective (requeue_in (flags.backing_pending || backup_pending)) res returned)

  module _ (unmarshal : String → Result String ServiceDefinition)
      (iterate : Dict String → Dict String) (outside : BackingSpec → Outside) (r : StackReconciler)
      (builtins : ServiceCatalog) where
    -- Where the reconcile of a Stack returns no error, it asks to be called again, after ten
    -- seconds, exactly if some service with an image has a connection to a backing that is not
    -- ready, or its backings report that a backup bucket or a restore snapshot is awaited.
    pub requeue_lem :
        (st : Stack) (s : Cluster K) (backed : Backed) (res : ReconcileResult)
        → (reconcile_backing K unmarshal iterate outside r builtins st s).0 ≡ ok backed
        → (reconcile_stack K unmarshal iterate outside r builtins st s).0 ≡ ok res
        → res.requeue_after ≡ (
            if any (waits (service_urls st) backed.backings) st.spec.services
              || backed.backup_pending
            then 10
            else 0)
    unfolding reconcile_stack
    requeue_lem st s backed res provided e =
        let (given, same, rest) =
          bind-ok (reconcile_backing K unmarshal iterate outside r builtins st) _ s res e in
        let (flags, looped, last) =
          bind-ok
            (reconcile_services K r st (service_urls st) given.backings no_flags st.spec.services) _
            _ res rest in
        let is_given = ok-injective backed given (sym provided ∙ same) in
        ap (λ (x : ReconcileResult). x.requeue_after)
          (update_status-ok st flags given.backup_pending _ res last)
        ∙ ap (λ b. (requeue_in (b || given.backup_pending)).requeue_after)
            (services-pending K r st (service_urls st) given.backings st.spec.services no_flags
              flags _ looped)
        ∙ ap
            (λ (x : Backed).
              (requeue_in (
                any (waits (service_urls st) x.backings) st.spec.services
                || x.backup_pending)).requeue_after)
            (sym is_given)
        ∙ seconds (
            any (waits (service_urls st) backed.backings) st.spec.services || backed.backup_pending)
