-- ===== src/StackController/Backings.antt =====
-- reconcileBacking of stack_controller.go, which takes each backing to its tier, and Reconcile as a
-- whole.
pub mod Restoring
pub mod Isolation
pub mod Databases
pub mod Sets
pub mod Whole
pub mod Settled
pub mod Awaited
pub mod Waiting
pub mod Claims
pub mod Requeue
use paas_controlplane.Base.{
  String, List, [], ◌∷◌, Bool, false, not, ◌&&◌, ◌||◌, Option, none, some, Dict, insert, any,
  to_lower, ◌==◌, if◌then◌else◌, Result, ok, err,
}
use paas_controlplane.Api.{Stack, BackingSpec, NamespacedName}
use paas_controlplane.Kube.{
  Kube, Io, Err, ContainerEnv, ReconcileResult, done, stack, get, try, pure, returns,
  ignore_not_found, ◌>>=◌, ◌>>◌,
}
use paas_controlplane.Snapshots.{is_preview_clone}
use paas_controlplane.Snapshots.Clones.{ensure_backup_schedule}
use paas_controlplane.ServiceDefs.{
  ServiceDefinition, ServiceCatalog, Pointer, catalog, lookup_type, templated_env,
}
use paas_controlplane.StackController.Setup.{StackReconciler, Backing, service_urls}
use paas_controlplane.StackController.Bindings.{postgres_env, object_env, fallback_env}
use paas_controlplane.StackController.Buckets.{Provisioned, reconcile_object}
use paas_controlplane.StackController.Postgres.{reconcile_postgres}
use paas_controlplane.StackController.Fallback.{reconcile_fallback}
use paas_controlplane.StackController.Templated.{Outside, reconcile_templated}
use paas_controlplane.StackController.Services.{no_flags, reconcile_services}
use paas_controlplane.StackController.Status.{update_status}

-- strings.EqualFold on texts of ASCII letters
abbrev pub equal_fold : String → String → Bool
equal_fold s t = to_lower s == to_lower t

-- The map `out` and the variable backupPending.
pub record Backed : Type 0 where
  pub backings : Dict Backing
  pub backup_pending : Bool

abbrev pub nothing_backed : Backed
nothing_backed = record { backings = []; backup_pending = false }

abbrev pub bound_to :
    (String → String → List ContainerEnv) → BackingSpec → Backed → Provisioned → Backed
bound_to env b acc p = record {
  backings =
      insert b.name (record { ready = p.ready; env = λ as_name. env p.secret_name as_name })
        acc.backings;
  backup_pending = acc.backup_pending || p.pending;
}

-- The tiers, in the order of the switch.
pub data Tier : Type 0 where
  postgres_tier object_tier fallback_tier uncataloged : Tier
  template_tier : ServiceDefinition → Tier

abbrev other_tier : BackingSpec → Option Pointer → Tier
other_tier b (some p) = template_tier p.definition
other_tier b none = if b.image == "" then uncataloged else fallback_tier

unfoldable pub tier_of : ServiceCatalog → BackingSpec → Tier
unfolding lookup_type
tier_of cat b =
    if equal_fold b.engine "postgres" || equal_fold b.engine "postgresql"
    then postgres_tier
    else if equal_fold b.engine "object" || equal_fold b.engine "s3"
    then object_tier
    else other_tier b (lookup_type (some cat) b.engine)

-- `unmarshal_strict` is the YAML library, `outside` what a templated backing takes from outside.
module _ (K : Kube) (unmarshal_strict : String → Result String ServiceDefinition)
    (iterate : Dict String → Dict String) (outside : BackingSpec → Outside) where
  unfoldable pub provision : StackReconciler → Stack → Backed → BackingSpec → Tier → Io K Backed
  unfolding ◌>>=◌ reconcile_postgres reconcile_object reconcile_templated reconcile_fallback insert
  provision r st acc b postgres_tier = do
    p ← reconcile_postgres K r st b
    pure (bound_to postgres_env b acc p)
  provision r st acc b object_tier = do
    p ← reconcile_object K r st b
    pure (bound_to (object_env r) b acc p)
  provision r st acc b (template_tier def) = do
    p ← reconcile_templated K (outside b) r st b def
    pure (bound_to (templated_env def) b acc p)
  provision r st acc b fallback_tier = do
    p ← reconcile_fallback K r st b
    pure (bound_to fallback_env b acc p)
  provision r st acc b uncataloged = pure acc

  -- The loop of reconcileBacking.
  unfoldable pub provision_all :
      StackReconciler → Stack → ServiceCatalog → Backed → List BackingSpec → Io K Backed
  unfolding ◌>>=◌ provision tier_of
  provision_all r st cat acc [] = pure acc
  provision_all r st cat acc (b ∷ bs) = do
    acc' ← provision r st acc b (tier_of cat b)
    provision_all r st cat acc' bs

  -- The backup schedule: an error is logged, not returned.
  unfoldable pub schedule_backups : Stack → Io K (Unit {0})
  unfolding ◌>>=◌ ensure_backup_schedule is_preview_clone
  schedule_backups st =
      if not (is_preview_clone st) && any (λ b. b.backup) st.spec.backing
      then (do try (ensure_backup_schedule K st); pure tt)
      else pure tt

  -- `builtins` is the field Builtins of the reconciler.
  unfoldable pub reconcile_backing : StackReconciler → ServiceCatalog → Stack → Io K Backed
  unfolding ◌>>=◌ catalog provision_all schedule_backups
  reconcile_backing r builtins st = do
    cat ← catalog unmarshal_strict K iterate builtins r.system_namespace
    acc ← provision_all r st cat nothing_backed st.spec.backing
    schedule_backups st
    pure acc

  -- Reconcile after its Get.
  unfoldable pub reconcile_stack : StackReconciler → ServiceCatalog → Stack → Io K ReconcileResult
  unfolding ◌>>=◌ reconcile_backing reconcile_services update_status service_urls
  reconcile_stack r builtins st = do
    backed ← reconcile_backing r builtins st
    flags ← reconcile_services K r st (service_urls st) backed.backings no_flags st.spec.services
    update_status K st flags backed.backup_pending

  abbrev pub found :
      StackReconciler → ServiceCatalog → Result (Err K.Error) Stack → Io K ReconcileResult
  found r builtins (ok st) = reconcile_stack r builtins st
  found r builtins (err e) = returns K done (ignore_not_found K e)

  unfoldable pub reconcile :
      StackReconciler → ServiceCatalog → NamespacedName → Io K ReconcileResult
  unfolding ◌>>=◌ reconcile_stack
  reconcile r builtins req = do got ← try (get K stack req); found r builtins got
