-- ===== src/Entry.antt =====
-- main.go: what main makes of its environment, and the order in which it starts the parts. The calls of the
-- manager of controller-runtime come as their outcomes.
pub mod Settings
use paas_controlplane.Base.{
  String, List, Bool, true, false, not, Dict, ◌==◌, if◌then◌else◌, Result, ok, err, and_then,
}
use paas_controlplane.Overcommit.{resolve_tier}
use paas_controlplane.AppController.{AppReconciler}
use paas_controlplane.ServiceDefs.{Pointer, ServiceCatalog}
use paas_controlplane.CatalogApi.{CatalogEntry, entries}
use paas_controlplane.StackController.Setup.{StackReconciler}

-- Whether each call of main succeeds: NewManager, the three SetupWithManager, Add of the API, Start.
pub record Outcomes : Type 0 where
  pub new_manager : Bool
  pub app_controller : Bool
  pub stack_controller : Bool
  pub environment_controller : Bool
  pub api_server : Bool
  pub start : Bool

-- What main starts: the reconcilers, the field Builtins of the second, and the address and the catalog of the API.
pub record Running : Type 0 where
  pub app : AppReconciler
  pub stack : StackReconciler
  pub builtins : ServiceCatalog
  pub api_addr : String
  pub catalog : List CatalogEntry

-- os.Getenv with a default for a variable that is unset or empty.
abbrev pub setting : (String → String) → String → String → String
setting getenv name default = if getenv name == "" then default else getenv name

-- The variables, read one after the other. `iterate` is the order in which Entries ranges over the catalog.
unfoldable pub configure :
    (String → String) → (Dict Pointer → Dict Pointer) → ServiceCatalog → Running
unfolding resolve_tier entries
configure getenv iterate builtins =
    let tolerate = not (getenv "TENANT_SCHEDULE_ON_CONTROL_PLANE" == "false") in
    let tier = resolve_tier (getenv "PAAS_OVERCOMMIT_TIER") in
    let scheduler_name = getenv "PAAS_SCHEDULER_NAME" in
    record {
      app = record {
        tolerate_control_plane = tolerate;
        tier = tier;
        scheduler_name = scheduler_name;
      };
      stack = record {
        tolerate_control_plane = tolerate;
        system_namespace = setting getenv "PAAS_SYSTEM_NAMESPACE" "paas-system";
        tier = tier;
        scheduler_name = scheduler_name;
        object_storage_class = setting getenv "PAAS_OBJECT_STORAGECLASS" "ceph-bucket";
        object_endpoint =
            setting getenv "PAAS_OBJECT_ENDPOINT" "http://rook-ceph-rgw-paas-s3.rook-ceph.svc";
      };
      builtins = builtins;
      api_addr = setting getenv "PAAS_API_ADDR" ":8082";
      catalog = entries iterate builtins;
    }

-- A failure is logged with the message, and main exits with 1.
abbrev pub must : Bool → String → Result String (Unit {0})
must true message = ok tt
must false message = err message

abbrev pub loaded : Result String ServiceCatalog → Result String ServiceCatalog
loaded (ok c) = ok c
loaded (err e) = err "unable to load builtin service catalog"

-- main, with what LoadBuiltinCatalog returns.
unfoldable pub main :
    (String → String)
    → (Dict Pointer → Dict Pointer)
    → Result String ServiceCatalog
    → Outcomes
    → Result String Running
main getenv iterate catalog o = and_then (must o.new_manager "unable to start manager") λ _.
    and_then (loaded catalog) λ builtins.
      and_then (must o.app_controller "unable to set up App controller") λ _.
        and_then (must o.stack_controller "unable to set up Stack controller") λ _.
          and_then (must o.environment_controller "unable to set up Environment controller") λ _.
            and_then (must o.api_server "unable to set up canvas API") λ _.
              and_then (must o.start "manager exited") λ _. ok (configure getenv iterate builtins)
