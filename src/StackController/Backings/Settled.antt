-- ===== src/StackController/Backings/Settled.antt =====
-- What a whole reconcile of a Stack that returns no error has done, stack_controller.go.
pub mod Clones
pub mod Databases
pub mod Sets
use paas_controlplane.Base.{String, List, [], ◌∷◌, Bool, Dict, Result, ok, err, ◌≡◌}
use paas_controlplane.Api.{Stack, BackingSpec, NamespacedName}
use paas_controlplane.Kube.{Kube, Cluster, ReconcileResult, Err, done, ignore_not_found}
use paas_controlplane.Kube.Writes.{Made}
use paas_controlplane.Kube.Strict.{
  Strict, IsSettled, Strict-pure, Strict-bind, Strict-returns, strict_rules,
}
use paas_controlplane.ServiceDefs.{ServiceDefinition, ServiceCatalog, catalog}
use paas_controlplane.StackController.Setup.{StackReconciler}
use paas_controlplane.StackController.Status as Status
use paas_controlplane.StackController.Services.{Flags}
use paas_controlplane.StackController.Services.Settled.{reconcile_services-Strict}
use paas_controlplane.StackController.Templated.{Outside}
use paas_controlplane.StackController.Backings.{
  Tier, postgres_tier, object_tier, template_tier, fallback_tier, uncataloged, Backed, tier_of,
  provision, provision_all, schedule_backups, reconcile_backing, reconcile_stack, found, reconcile,
}
use Clones.{IsBestEffort, ensure_backup_schedule-Writes}
use Databases.{reconcile_object-Strict, reconcile_postgres-Strict}
use Sets.{reconcile_fallback-Strict, reconcile_templated-Strict}

module _ (K : Kube) (unmarshal : String → Result String ServiceDefinition)
    (iterate : Dict String → Dict String) (outside : BackingSpec → Outside)
    (r : StackReconciler) where
  provision-Strict :
      (st : Stack) (acc : Backed) (b : BackingSpec) (tier : Tier)
      → Strict K (IsSettled IsBestEffort) (provision K unmarshal iterate outside r st acc b tier)
  unfolding provision
  provision-Strict st acc b postgres_tier = search (strict_rules, reconcile_postgres-Strict)
  provision-Strict st acc b object_tier = search (strict_rules, reconcile_object-Strict)
  provision-Strict st acc b (template_tier def) = search (strict_rules, reconcile_templated-Strict)
  provision-Strict st acc b fallback_tier = search (strict_rules, reconcile_fallback-Strict)
  provision-Strict st acc b uncataloged = search strict_rules

  provision_all-Strict :
      (st : Stack) (cat : ServiceCatalog) (acc : Backed) (bs : List BackingSpec)
      → Strict K
          (IsSettled IsBestEffort)
          (provision_all K unmarshal iterate outside r st cat acc bs)
  unfolding provision_all
  provision_all-Strict st cat acc [] = Strict-pure acc
  provision_all-Strict st cat acc (b ∷ bs) =
      Strict-bind _ _ (provision-Strict st acc b (tier_of cat b))
        (λ acc'. provision_all-Strict st cat acc' bs)

  schedule_backups-Strict :
      (st : Stack)
      → Strict K (IsSettled IsBestEffort) (schedule_backups K unmarshal iterate outside st)
  unfolding schedule_backups
  schedule_backups-Strict st = search (strict_rules, ensure_backup_schedule-Writes)

  catalog-Strict :
      (builtins : ServiceCatalog)
      → Strict K (IsSettled IsBestEffort) (catalog unmarshal K iterate builtins r.system_namespace)
  unfolding catalog
  catalog-Strict builtins = search strict_rules

  reconcile_backing-Strict :
      (st : Stack) (builtins : ServiceCatalog)
      → Strict K
          (IsSettled IsBestEffort)
          (reconcile_backing K unmarshal iterate outside r builtins st)
  unfolding reconcile_backing
  reconcile_backing-Strict st builtins =
      search (strict_rules, catalog-Strict, provision_all-Strict, schedule_backups-Strict)

  update_status-Strict :
      (st : Stack) (flags : Flags) (pending : Bool)
      → Strict K (IsSettled IsBestEffort) (Status.update_status K st flags pending)
  unfolding Status.update_status
  update_status-Strict st flags pending = search strict_rules

  found-Strict :
      (builtins : ServiceCatalog) (got : Result (Err K.Error) Stack)
      → Strict K (IsSettled IsBestEffort) (found K unmarshal iterate outside r builtins got)
  unfolding reconcile_stack
  found-Strict builtins (ok st) =
      search
        (strict_rules, reconcile_backing-Strict, reconcile_services-Strict, update_status-Strict)
  found-Strict builtins (err e) = Strict-returns done (ignore_not_found K e)

  reconcile-Strict :
      (builtins : ServiceCatalog) (req : NamespacedName)
      → Strict K (IsSettled IsBestEffort) (reconcile K unmarshal iterate outside r builtins req)
  unfolding reconcile
  reconcile-Strict builtins req = search (strict_rules, found-Strict)

  -- Where a reconcile of a Stack returns no error, each writing call that it made has succeeded, or
  -- is the update of a claim or the write of a snapshot schedule, which are best effort: no other
  -- error of a write is lost, in whatever backing, service or clone it happens.
  pub stack-IsSettled :
      (builtins : ServiceCatalog) (req : NamespacedName) (s : Cluster K) (res : ReconcileResult)
      → (reconcile K unmarshal iterate outside r builtins req s).0 ≡ ok res
      → Made
          (IsSettled IsBestEffort)
          s.calls
          (reconcile K unmarshal iterate outside r builtins req s).1.calls
  stack-IsSettled builtins req s res e = (reconcile-Strict builtins req).at s res e
