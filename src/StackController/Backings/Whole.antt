-- ===== src/StackController/Backings/Whole.antt =====
-- What a whole reconcile of a Stack writes, stack_controller.go.
use paas_controlplane.Base.{String, List, [], ◌∷◌, Bool, Dict, Result, ok, ◌≡◌}
use paas_controlplane.Api.{Stack, BackingSpec, NamespacedName, key_of}
use paas_controlplane.Kube.{
  Kube, Answers, Call, Cluster, object, stack, read_call, ◌>>=◌, try, update_status,
}
use paas_controlplane.Kube.Writes.{
  Made, Writes, Writes-pure, Writes-bind, Writes-mono, writes_rules,
}
use paas_controlplane.Kube.Owners.{SetsOwner}
use paas_controlplane.ServiceDefs.{ServiceDefinition, ServiceCatalog, catalog}
use paas_controlplane.StackController.Setup.{StackReconciler, service_urls}
use paas_controlplane.StackController.Status as Status
use paas_controlplane.StackController.Services.{Flags, no_flags}
use paas_controlplane.StackController.Services.Isolation.{IsServiceWrite, reconcile_services-Writes}
use paas_controlplane.StackController.Templated.{Outside}
use paas_controlplane.StackController.Backings.{
  Tier, postgres_tier, object_tier, template_tier, fallback_tier, uncataloged, Backed, tier_of,
  provision, provision_all, schedule_backups, reconcile_backing, reconcile_stack, reconcile,
}
use paas_controlplane.StackController.Backings.Isolation.{
  IsBackingWrite, backing_writes, ensure_backup_schedule-Writes,
}
use paas_controlplane.StackController.Backings.Databases.{
  reconcile_object-Writes, reconcile_postgres-Writes,
}
use paas_controlplane.StackController.Backings.Sets.{
  reconcile_fallback-Writes, reconcile_templated-Writes,
}

-- The calls that a reconcile of a Stack may make: those for its backings, those for its services, and its status.
pub data IsStackWrite (st : Stack) : Call → Type 0 where
  for_backing : {c : Call} → IsBackingWrite st c → IsStackWrite st c
  for_service : {c : Call} → IsServiceWrite st c → IsStackWrite st c
  for_status :
      (b : Bool)
      → IsStackWrite st
          (record { verb = update_status; target = object stack (key_of st.meta); succeeded = b })

module _ (K : Kube) (unmarshal : String → Result String ServiceDefinition)
    (iterate : Dict String → Dict String) (outside : BackingSpec → Outside) (answers : Answers K)
    (owners : SetsOwner K) (r : StackReconciler) where
  provision-Writes :
      (st : Stack) (acc : Backed) (b : BackingSpec) (tier : Tier)
      → Writes K (IsBackingWrite st) (provision K unmarshal iterate outside r st acc b tier)
  unfolding provision
  provision-Writes st acc b postgres_tier = search (backing_writes, reconcile_postgres-Writes)
  provision-Writes st acc b object_tier = search (backing_writes, reconcile_object-Writes)
  provision-Writes st acc b (template_tier def) =
      search (backing_writes, reconcile_templated-Writes)
  provision-Writes st acc b fallback_tier = search (backing_writes, reconcile_fallback-Writes)
  provision-Writes st acc b uncataloged = search backing_writes

  provision_all-Writes :
      (st : Stack) (cat : ServiceCatalog) (acc : Backed) (bs : List BackingSpec)
      → Writes K (IsBackingWrite st) (provision_all K unmarshal iterate outside r st cat acc bs)
  unfolding provision_all
  provision_all-Writes st cat acc [] = Writes-pure acc
  provision_all-Writes st cat acc (b ∷ bs) =
      Writes-bind _ _ (provision-Writes st acc b (tier_of cat b))
        (λ acc'. provision_all-Writes st cat acc' bs)

  schedule_backups-Writes :
      (st : Stack) → Writes K (IsBackingWrite st) (schedule_backups K unmarshal iterate outside st)
  unfolding schedule_backups
  schedule_backups-Writes st = search (backing_writes, ensure_backup_schedule-Writes)

  catalog-Writes :
      (st : Stack) (builtins : ServiceCatalog)
      → Writes K (IsBackingWrite st) (catalog unmarshal K iterate builtins r.system_namespace)
  unfolding catalog
  catalog-Writes st builtins = search backing_writes

  reconcile_backing-Writes :
      (st : Stack) (builtins : ServiceCatalog)
      → Writes K (IsBackingWrite st) (reconcile_backing K unmarshal iterate outside r builtins st)
  unfolding reconcile_backing
  reconcile_backing-Writes st builtins =
      search (backing_writes, catalog-Writes, provision_all-Writes, schedule_backups-Writes)

  update_status-Writes :
      (st : Stack) (flags : Flags) (pending : Bool)
      → Writes K (IsStackWrite st) (Status.update_status K st flags pending)
  unfolding Status.update_status
  update_status-Writes st flags pending = search (writes_rules, for_status)

  reconcile_stack-Writes :
      (st : Stack) (builtins : ServiceCatalog)
      → Writes K (IsStackWrite st) (reconcile_stack K unmarshal iterate outside r builtins st)
  unfolding reconcile_stack
  reconcile_stack-Writes st builtins =
      Writes-bind _ _ (Writes-mono (λ c. for_backing) (reconcile_backing-Writes st builtins))
        λ backed.
          Writes-bind _ _
            (Writes-mono (λ c. for_service)
              (reconcile_services-Writes K r st owners (service_urls st) backed.backings no_flags
                st.spec.services))
            (λ flags. update_status-Writes st flags backed.backup_pending)

  -- Whatever the cluster holds and answers, each writing call of a reconcile of the Stack that Get finds is one
  -- for its backings, one for its services, or the update of its status: outside the Stack's
  -- namespace it writes nothing but, for a clone, snapshots in the parent's namespace and snapshot
  -- contents that are named after the Stack's namespace. Get returns the object with the key that it
  -- is given, and SetControllerReference touches only the owner references.
  pub reconcile_writes :
      (builtins : ServiceCatalog) (req : NamespacedName) (s : Cluster K) (st : Stack)
      → (K.get stack req s.world).0 ≡ ok st
      → Made
          (IsStackWrite st)
          s.calls
          (reconcile K unmarshal iterate outside r builtins req s).1.calls
  unfolding reconcile ◌>>=◌ try read_call
  reconcile_writes builtins req s st e =
      rw e
        ((reconcile_stack-Writes st builtins).at (record s { world = (K.get stack req s.world).1 }))
