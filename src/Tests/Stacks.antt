-- ===== src/Tests/Stacks.antt =====
-- The Stack controller on a cluster in memory.
use paas_controlplane.Base.{
  subst, ok-injective, String, ◌↔◌, is_free, List, [], ◌∷◌, ◌++◌, ◌≡◌, refl, none, some, true,
  false, pos, ok, any, Dict, lookup, ◌==◌, ◌&&◌, itoa,
}
use paas_controlplane.Api.{Stack, ServiceSpec, ProcessSpec, named}
use paas_controlplane.Kube.{
  Cluster, Deployment, Job, job, deployment, service, create, create_or_update, object,
  fresh_deployment, record_call, read_call,
}
use paas_controlplane.Kube.Writes.{Made, Writes}
use paas_controlplane.Kube.Owners.{IsStable}
use paas_controlplane.Overcommit.{dev}
use paas_controlplane.AppController as Apps
use paas_controlplane.StackController.Setup.{
  StackReconciler, Backing, process_name, env_from_spec, service_urls,
}
use paas_controlplane.StackController.Setup.Urls.{url_of, service_urls_lem}
use paas_controlplane.StackController.Bindings.{postgres_env}
use paas_controlplane.StackController.Connections.{resolve}
use paas_controlplane.StackController.Connections.Holding.{is_holding, edges_env, resolve_lem}
use paas_controlplane.StackController.Releases.{reconcile_release_job}
use paas_controlplane.StackController.Processes.{
  mutate_deployment, mutate_service, reconcile_process,
}
use paas_controlplane.StackController.Processes.Names.{process_name_lem}
use paas_controlplane.StackController.Processes.Mutate.{deployments_IsStable}
use paas_controlplane.StackController.Services.{
  no_flags, release, reconcile_service, reconcile_services,
}
use paas_controlplane.StackController.Services.Gates.{
  service_held, release_gates, gated, ends, IsJobCreate, release_job_key,
}
use paas_controlplane.StackController.Services.Isolation.{IsServiceWrite, reconcile_services-Writes}
use paas_controlplane.StackController.Status.{status_of}
use paas_controlplane.StackController.Status.Phase.{runs, phase, status_of_lem}
use paas_controlplane.Tests.Apps.{blog, server}
use paas_controlplane.Tests.Memory.{nothing, put, memory, memory-SetsOwner, cluster}

abbrev web : ProcessSpec
web = record {
  name = "web";
  command = "serve";
  port = pos 3000;
  replicas = pos 0;
  kind = "";
  resources = record { cpu = ""; memory = "" };
}

abbrev pub api : ServiceSpec
api = record {
  name = "api";
  image = "registry.local:5000/api:1";
  build = none;
  processes = web ∷ [];
  env = record { name = "MODE"; value = "live" } ∷ [];
  hooks = some (record { release = "migrate" });
  connections = record { to = "db"; as_name = "DATABASE_URL" } ∷ [];
}

abbrev pub shop : Stack
shop = record {
  meta = named "proj-shop-main" "main";
  spec = record { services = api ∷ []; backing = []; volumes = [] };
  status = record {
    phase = "";
    observed_generation = pos 0;
    services = pos 0;
    ready_services = pos 0;
    release_hook = "";
  };
}

abbrev pub controller : StackReconciler
controller = record {
  tolerate_control_plane = false;
  system_namespace = "paas-system";
  tier = dev;
  scheduler_name = "";
  object_storage_class = "bucket";
  object_endpoint = "http://rgw";
}

abbrev starting : Dict Backing
starting =
    ("db", record { ready = false; env = λ as_name. postgres_env "main-db-app" as_name }) ∷ []

abbrev ready : Dict Backing
ready = ("db", record { ready = true; env = λ as_name. postgres_env "main-db-app" as_name }) ∷ []

its_url : service_urls shop ≡ ("api", "http://main-api-web.proj-shop-main.svc.cluster.local") ∷ []
unfolding service_urls
its_url = refl

service_urls_lem_example : lookup "api" (service_urls shop) ≡ url_of shop "api" (api ∷ [])
service_urls_lem_example = service_urls_lem shop "api"

resolve_lem_example : resolve [] ready api ≡ record {
  env = env_from_spec api.env ++ edges_env [] ready api.connections;
  wait_backing = any (is_holding [] ready) api.connections;
}
resolve_lem_example = resolve_lem [] ready api

service_held_example :
    reconcile_service memory controller shop [] starting no_flags api (cluster nothing)
    ≡ (ok (record no_flags { backing_pending = true }), cluster nothing)
unfolding is_holding lookup
service_held_example =
    service_held memory controller shop [] starting no_flags api (cluster nothing) refl refl

abbrev migration : Job
migration = record {
  meta = named "proj-shop-main" "main-api-release-g0";
  backoff_limit = pos 2;
  pod = (fresh_deployment (named "" "")).pod;
  conditions =
      record { condition_type = "Complete"; status = "False" }
      ∷ record { condition_type = "Failed"; status = "True" }
      ∷ [];
}

abbrev migrating : Cluster memory
migrating = cluster (put job migration nothing)

release_gates_example :
    Made IsJobCreate []
      (reconcile_service memory controller shop [] ready no_flags api migrating).1.calls
    × ((j : Job)
        → (api.image == "") ≡ false
        → any (is_holding [] ready) api.connections ≡ false
        → (memory.get job (release_job_key shop api) migrating.world).0 ≡ ok j
        → reconcile_service memory controller shop [] ready no_flags api migrating
          ≡ (ok (gated no_flags j.conditions), migrating))
unfolding itoa
release_gates_example =
    release_gates memory controller shop [] ready no_flags api migrating "migrate" refl λ j e.
      subst (λ (x : Job). any (ends "Complete") x.conditions ≡ false) (ok-injective migration j e)
        refl

reconcile_services-Writes_example :
    Writes memory
      (IsServiceWrite shop)
      (reconcile_services memory controller shop [] ready no_flags (api ∷ []))
reconcile_services-Writes_example =
    reconcile_services-Writes memory controller shop memory-SetsOwner [] ready no_flags (api ∷ [])

-- The first pass makes the release Job and nothing else; a pass after it has completed rolls out.
abbrev first_pass : Cluster memory
first_pass = (reconcile_service memory controller shop [] ready no_flags api (cluster nothing)).1

job_first :
    first_pass.calls
    ≡ record {
      verb = create;
      target = object job (record { namespace = "proj-shop-main"; name = "main-api-release-g0" });
      succeeded = true;
    }
      ∷ []
unfolding reconcile_service record_call read_call release reconcile_release_job itoa
job_first = refl

abbrev migrated : Cluster memory
migrated = cluster (
    put job
      (record migration {
        conditions = record { condition_type = "Complete"; status = "True" } ∷ [];
      })
      nothing)

then_process :
    (reconcile_service memory controller shop [] ready no_flags api migrated).1.calls
    ≡ record {
      verb = create_or_update;
      target = object service (record { namespace = "proj-shop-main"; name = "main-api-web" });
      succeeded = true;
    }
      ∷ record {
        verb = create_or_update;
        target = object deployment (record { namespace = "proj-shop-main"; name = "main-api-web" });
        succeeded = true;
      }
      ∷ []
unfolding reconcile_service record_call read_call release reconcile_release_job itoa
    reconcile_process mutate_deployment mutate_service
then_process = refl

abbrev worker : ProcessSpec
worker = record web { name = "worker" }

process_name_lem_example :
    (process_name shop api web ≡ process_name shop api worker)
    ↔ ((◌≡◌ {A = String} "api" "api") × (◌≡◌ {A = String} "web" "worker"))
unfolding is_free
process_name_lem_example = process_name_lem shop api api web worker refl refl

-- A test of what the condition excludes: a dash in the name of a service.
shared_name :
    process_name shop (record api { name = "api-v2" }) web
    ≡ process_name shop api (record web { name = "v2-web" })
shared_name = refl

deployments_IsStable_example :
    IsStable (Apps.mutate_deployment memory server blog "registry.local/api:1")
    × IsStable (mutate_deployment memory controller shop api web "registry.local/api:1" [])
deployments_IsStable_example =
    deployments_IsStable memory memory-SetsOwner server blog controller shop api web
      "registry.local/api:1" []

abbrev running : List Deployment
running =
    record (fresh_deployment (named "proj-shop-main" "main-api-web")) { ready_replicas = pos 1 }
    ∷ []

status_of_lem_example :
    (((status_of shop no_flags running).phase == "Running")
      ≡ (true && true && true && runs running))
    × ((status_of shop no_flags running).phase ≡ phase false false false (runs running))
status_of_lem_example = status_of_lem shop no_flags running
