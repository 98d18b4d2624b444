-- ===== src/Tests/Waiting.antt =====
-- When Reconcile of a Stack asks to be called again, in memory.
use paas_controlplane.Base.{[], ◌∷◌, ◌≡◌, refl, false, ok, ◌||◌, any, if◌then◌else◌}
use paas_controlplane.Api.{Stack, BackingSpec, ServiceSpec}
use paas_controlplane.Kube.{Cluster, ReconcileResult, record_call, read_call, stack}
use paas_controlplane.StackController.Setup.{service_urls}
use paas_controlplane.StackController.Buckets.{written_claim}
use paas_controlplane.StackController.Bindings.{object_env}
use paas_controlplane.StackController.Services.Waiting.{waits}
use paas_controlplane.StackController.Backings.{Backed, reconcile_backing, reconcile_stack}
use paas_controlplane.StackController.Backings.Requeue.{requeue_lem}
use paas_controlplane.Tests.Memory.{nothing, put, memory, cluster}
use paas_controlplane.Tests.Stacks.{controller, shop, api}
use paas_controlplane.Tests.Catalogs.{unmarshal, builtins}
use paas_controlplane.Tests.Backings.{db, out, preview, search_engine}

abbrev files : BackingSpec
files = record db { name = "files"; engine = "object"; backup = false }

abbrev reader : ServiceSpec
reader = record api { connections = record { to = "files"; as_name = "S3_URL" } ∷ [] }

abbrev holding : Stack
holding = record shop {
  spec = record { services = reader ∷ []; backing = files ∷ []; volumes = [] };
}

abbrev state : Cluster memory
state = cluster (put stack holding nothing)

-- The claim was just made and is not bound.
abbrev unbound : Backed
unbound = record {
  backings = ("files", record { ready = false; env = object_env controller "main-files" }) ∷ [];
  backup_pending = false;
}

abbrev again : ReconcileResult
again = record { requeue_after = 10 }

requeue_lem_example : again.requeue_after ≡ (
    if any (waits (service_urls holding) unbound.backings) holding.spec.services || false
    then 10
    else 0)
unfolding reconcile_backing record_call written_claim read_call reconcile_stack
requeue_lem_example =
    requeue_lem memory unmarshal (λ m. m) (λ b. out) controller builtins holding state unbound again
      refl refl

-- A clone with a backing that no service connects to: the restore snapshot is
-- not ready, so its StatefulSet is not made, and Reconcile asks to be called again.
abbrev lonely : Stack
lonely = record preview {
  spec = record { services = []; backing = search_engine ∷ []; volumes = [] };
}

asks_again :
    (reconcile_stack memory unmarshal
      (λ m. m)
      (λ b. out)
      controller
      builtins
      lonely
      (cluster (put stack lonely nothing))).0
    ≡ ok again
unfolding reconcile_stack read_call record_call
asks_again = refl

not_made :
    (reconcile_stack memory unmarshal
      (λ m. m)
      (λ b. out)
      controller
      builtins
      lonely
      (cluster (put stack lonely nothing))).1.world.stateful_sets
    ≡ []
unfolding reconcile_stack read_call record_call
not_made = refl
