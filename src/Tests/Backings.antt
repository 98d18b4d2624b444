-- ===== src/Tests/Backings.antt =====
-- The backings of a Stack on a cluster in memory.
use paas_controlplane.Base.{
  String, [], ◌∷◌, Result, err, sym, ap, ok-injective, ◌≡◌, refl, none, some, true, pos, ok, Dict,
  true, false,
}
use paas_controlplane.Api.{Stack, BackingSpec, NamespacedName, Meta, named}
use paas_controlplane.Kube.{
  VolumeSnapshot, Cluster, Container, CnpgCluster, StatefulSet, ResourceRequirements, stack,
  fresh_cnpg_cluster, fresh_stateful_set, record_call, read_call, Quantity,
}
use paas_controlplane.Kube.Writes.{Made}
use paas_controlplane.Kube.Strict.{IsSettled}
use paas_controlplane.Overcommit.{limited_resources}
use paas_controlplane.Snapshots.{is_preview_clone}
use paas_controlplane.ServiceDefs.{ServiceDefinition}
use paas_controlplane.StackController.Buckets.{no_bucket, written_claim}
use paas_controlplane.StackController.Postgres.{written_cluster, mutate_cluster}
use paas_controlplane.StackController.Postgres.Bootstrap.{origin, bootstrap_once}
use paas_controlplane.StackController.Fallback as Fallback
use paas_controlplane.StackController.Backings.Claims.{claims_once}
use paas_controlplane.StackController.Templated.{Outside, with_address, with_password}
use paas_controlplane.StackController.Templated as Templated
use paas_controlplane.StackController.Backings.{reconcile}
use paas_controlplane.StackController.Backings.Whole.{IsStackWrite, reconcile_writes}
use paas_controlplane.StackController.Backings.Settled.{stack-IsSettled}
use paas_controlplane.StackController.Backings.Settled.Clones.{IsBestEffort}
use paas_controlplane.StackController.Backings.Awaited.{Awaits}
use paas_controlplane.StackController.Backings.Waiting.{IsWaiting, clone_waits}
use paas_controlplane.Kube as K8s
use paas_controlplane.Tests.Memory.{
  Memory, Refusal, missing, nothing, put, memory, memory-SetsOwner, memory-Answers, cluster,
}
use paas_controlplane.Tests.Stacks.{controller, shop, api}
use paas_controlplane.Tests.Catalogs.{valkey, unmarshal, builtins}

abbrev pub db : BackingSpec
db = record {
  name = "db";
  engine = "Postgres";
  version = "";
  disk = "";
  plan = "";
  image = "";
  port = pos 0;
  backup = true;
}

abbrev pub search_engine : BackingSpec
search_engine = record db { name = "search"; engine = "meili"; image = "meili:1"; port = pos 7700 }

abbrev backed : Stack
backed = record shop { spec = record { services = api ∷ []; backing = db ∷ []; volumes = [] } }

abbrev pub out : Outside
out = record { render = λ tmpl values. ok tmpl; random_bytes = 7 ∷ 255 ∷ []; iterate = λ m. m }

abbrev main_key : NamespacedName
main_key = record { namespace = "proj-shop-main"; name = "main" }

abbrev begun : Cluster memory
begun = cluster (put stack backed nothing)

reconcile_writes_example :
    Made
      (IsStackWrite backed)
      []
      (reconcile memory unmarshal (λ m. m) (λ b. out) controller builtins main_key begun).1.calls
reconcile_writes_example =
    reconcile_writes memory unmarshal (λ m. m) (λ b. out) memory-Answers memory-SetsOwner controller
      builtins main_key begun backed refl

stack-IsSettled_example :
    Made
      (IsSettled IsBestEffort)
      []
      (reconcile memory unmarshal (λ m. m) (λ b. out) controller builtins main_key begun).1.calls
unfolding reconcile record_call read_call written_claim
stack-IsSettled_example =
    stack-IsSettled memory unmarshal (λ m. m) (λ b. out) controller builtins main_key begun _ refl

abbrev of_main : Meta → Meta
of_main m = record m { owner_references = record { kind = "Stack"; name = "main" } ∷ [] }

abbrev existing : CnpgCluster
existing = fresh_cnpg_cluster (record (named "proj-shop-main" "main-db") { uid = "u1" })

bootstrap_once_example :
    origin (record (written_cluster controller db "main-db" none no_bucket existing) {
      meta = of_main existing.meta;
    })
    ≡ origin existing
unfolding mutate_cluster
bootstrap_once_example =
    bootstrap_once memory controller backed db "main-db" none no_bucket existing _ refl refl

abbrev old_set : StatefulSet
old_set = fresh_stateful_set (record (named "proj-shop-main" "main-search") { uid = "u2" })

abbrev set_meta : Meta
set_meta = of_main (record old_set.meta {
  labels = ("paas.sh/stack", "main") ∷ ("paas.sh/backing", "search") ∷ [];
})

abbrev limits : ResourceRequirements
limits =
    limited_resources memory controller.tier (Quantity.must_parse "500m")
      (Quantity.must_parse "512Mi")

abbrev box : Container
box = Templated.templated_container valkey "main-search" "valkey:8" "redis" limits

abbrev fallen_set : StatefulSet
fallen_set =
    Fallback.written_set controller backed search_engine limits none (Quantity.must_parse "")
      set_meta old_set

abbrev made_set : StatefulSet
made_set =
    Templated.written_set controller backed search_engine valkey box none (Quantity.must_parse "")
      set_meta old_set

claims_once_example :
    (fallen_set.volume_claim_templates ≡ old_set.volume_claim_templates)
    × (made_set.volume_claim_templates ≡ old_set.volume_claim_templates)
unfolding Fallback.mutate_set Templated.mutate_set
claims_once_example =
    claims_once memory out controller backed search_engine valkey box none old_set fallen_set
      made_set refl refl refl

abbrev new_entries : Dict String
new_entries = with_address backed search_engine valkey (with_password out valkey [])

-- A preview that clones the Stack.
abbrev pub preview : Stack
preview = record backed {
  meta = record (named "proj-shop-pr7" "pr7") {
    annotations =
        ("paas.sh/clone-from-namespace", "proj-shop-main")
        ∷ ("paas.sh/clone-from-stack", "main")
        ∷ [];
  };
}

-- The cluster while the snapshots are being taken: no StatefulSet, and no snapshot that is ready.
abbrev got_waiting : (k : K8s.Kind) → NamespacedName → Memory → Result Refusal (K8s.Obj k) × Memory
got_waiting K8s.stateful_set key m = (err missing, m)
got_waiting k key m = memory.get k key m

abbrev unready :
    Result (K8s.Err Refusal) VolumeSnapshot × Memory
    → Result (K8s.Err Refusal) VolumeSnapshot × Memory
unready (ok o, m) = (ok (record o { ready_to_use = false }), m)
unready (err e, m) = (err e, m)

abbrev ensured_waiting :
    (k : K8s.Kind)
    → K8s.Obj k
    → (K8s.Obj k → Result (K8s.Err Refusal) (K8s.Obj k))
    → Memory
    → Result (K8s.Err Refusal) (K8s.Obj k) × Memory
ensured_waiting K8s.snapshot o f m = unready (memory.create_or_update K8s.snapshot o f m)
ensured_waiting k o f m = memory.create_or_update k o f m

abbrev waiting : K8s.Kube
waiting = record memory { get = got_waiting; create_or_update = ensured_waiting }

unready-ready :
    (p : Result (K8s.Err Refusal) VolumeSnapshot × Memory) (made : VolumeSnapshot)
    → (unready p).0 ≡ ok made
    → made.ready_to_use ≡ false
unready-ready (ok o, m) made e =
    ap (λ x. x.ready_to_use) (sym (ok-injective (record o { ready_to_use = false }) made e))
unready-ready (err x, m) made e = absurd (cc)

abbrev waiting-Awaits : Awaits waiting preview search_engine
waiting-Awaits = record {
  no_set = λ w. (missing, refl);
  not_ready = λ w mutate made e. unready-ready _ made e;
}

-- A catalog service that keeps its data.
abbrev kept : ServiceDefinition
kept = record valkey { persistence = some (record { default_disk = "1Gi"; mount_path = "/data" }) }

clone_waits_example :
    IsWaiting waiting preview search_engine
      (Fallback.reconcile_fallback waiting controller preview search_engine)
    × IsWaiting waiting preview search_engine
        (Templated.reconcile_templated waiting out controller preview search_engine kept)
unfolding is_preview_clone
clone_waits_example =
    clone_waits waiting controller preview search_engine waiting-Awaits refl out kept refl
