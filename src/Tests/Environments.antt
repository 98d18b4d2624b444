-- ===== src/Tests/Environments.antt =====
-- The Environment controller on a cluster in memory.
use paas_controlplane.Base.{
  String, [], ◌∷◌, ◌≡◌, ◌↔◌, is_free, refl, Bool, true, false, ◌||◌, some, pos, ok, err, lookup,
}
use paas_controlplane.Api.{Environment, Stack, StackSpec, BackingSpec, NamespacedName, named}
use paas_controlplane.Kube.{
  Cluster, Err, wrap, VolumeSnapshot, snapshot, namespace, environment, update, delete, object,
  create_or_update, update_status, apply, document, stack, fresh_stack, done, record_call,
  read_call,
}
use paas_controlplane.Kube.Writes.{Made, Writes}
use paas_controlplane.Kube.Strict.{IsSettled}
use paas_controlplane.Snapshots.{
  pvc_name_for, is_preview_clone, gc_clone_artifacts, clone_owner_label,
}
use paas_controlplane.Snapshots.Teardown.{IsGcDelete, gc_clone_artifacts-Writes}
use paas_controlplane.Snapshots.Clones.{parent_namespace, parent_stack}
use paas_controlplane.StackController.Buckets.{backing_name_for}
use paas_controlplane.StackController.Postgres.{clone_source}
use paas_controlplane.EnvironmentController.{
  namespace_for, write_stack, clones, strip_comments, reconcile, reconcile_live, teardown,
  delete_namespace,
}
use paas_controlplane.EnvironmentController.Mutate.{is_preview_clone-write_stack}
use paas_controlplane.EnvironmentController.Isolation.{IsEnvWrite, reconcile_live-Writes}
use paas_controlplane.EnvironmentController.Namespaces.{namespace_for_lem, stack_of, parent_lem}
use paas_controlplane.EnvironmentController.Settled.{IsDelete, environment-IsSettled}
use paas_controlplane.EnvironmentController.Teardown.{teardown_order}
use paas_controlplane.Tests.Memory.{Refusal, nothing, put, memory, memory-Answers, cluster}

abbrev empty_graph : StackSpec
empty_graph = record { services = []; backing = []; volumes = [] }

-- The preview pr7 of the project shop, seeded from its environment main.
abbrev pr7 : Environment
pr7 = record {
  meta = named "paas-system" "pr7";
  spec = record {
    project = "shop";
    env_type = "preview";
    clone_from = "main";
    stack = some empty_graph;
  };
  status = record {
    namespace = "";
    phase = "";
    baseline_stamped = false;
    observed_generation = pos 0;
  };
}

abbrev pr7_key : NamespacedName
pr7_key = record { namespace = "paas-system"; name = "pr7" }

abbrev template : String
template = "# header\n---\nkind: NetworkPolicy in ${NAMESPACE}\n"

its_namespace : namespace_for pr7 ≡ "proj-shop-pr7"
unfolding namespace_for
its_namespace = refl

comments : strip_comments "# a\nb\n  # c" ≡ "b\n"
unfolding strip_comments
comments = refl

-- A new Environment: the finalizer, the namespace, one baseline document, the Stack and the status.
abbrev provisioned : Cluster memory
provisioned = (reconcile memory template pr7_key (cluster (put environment pr7 nothing))).1

provisioned_calls :
    provisioned.calls
    ≡ record { verb = update_status; target = object environment pr7_key; succeeded = true }
      ∷ record {
        verb = create_or_update;
        target = object stack (record { namespace = "proj-shop-pr7"; name = "pr7" });
        succeeded = true;
      }
      ∷ record {
        verb = apply;
        target = document (record { namespace = "proj-shop-pr7"; name = "doc" });
        succeeded = true;
      }
      ∷ record {
        verb = create_or_update;
        target = object namespace (record { namespace = ""; name = "proj-shop-pr7" });
        succeeded = true;
      }
      ∷ record { verb = update; target = object environment pr7_key; succeeded = true }
      ∷ []
unfolding reconcile record_call read_call
provisioned_calls = refl

environment-IsSettled_example : Made (IsSettled IsDelete) [] provisioned.calls
unfolding reconcile record_call read_call
environment-IsSettled_example =
    environment-IsSettled memory template pr7_key (cluster (put environment pr7 nothing)) done refl

reconcile_live-Writes_example :
    Writes memory (IsEnvWrite pr7_key (namespace_for pr7)) (reconcile_live memory template pr7)
reconcile_live-Writes_example = reconcile_live-Writes memory memory-Answers pr7 template

abbrev bare : Stack
bare = fresh_stack (named "proj-shop-pr7" "pr7")

is_preview_clone-write_stack_example :
    is_preview_clone (write_stack pr7 empty_graph bare) ≡ (clones pr7 || is_preview_clone bare)
is_preview_clone-write_stack_example = is_preview_clone-write_stack pr7 empty_graph bare

-- The parent of pr7, and an Environment of another project.
abbrev main : Environment
main = record pr7 {
  meta = named "paas-system" "main";
  spec = record pr7.spec { env_type = "persistent"; clone_from = "" };
}

abbrev blog : Environment
blog = record main { spec = record main.spec { project = "blog" } }

namespace_for_lem_example :
    (namespace_for main ≡ namespace_for blog)
    ↔ ((◌≡◌ {A = String} "shop" "blog") × (◌≡◌ {A = String} "main" "main"))
unfolding is_free
namespace_for_lem_example = namespace_for_lem main blog refl refl

-- A test of what the condition excludes: with a dash in a project, two projects share a namespace.
shared_namespace :
    namespace_for (record main { spec = record main.spec { project = "shop-eu" } })
    ≡ namespace_for (record main { meta = named "paas-system" "eu-main" })
unfolding namespace_for
shared_namespace = refl

abbrev database : BackingSpec
database = record {
  name = "db";
  engine = "postgres";
  version = "";
  disk = "";
  plan = "";
  image = "";
  port = pos 0;
  backup = true;
}

parent_lem_example :
    (parent_namespace (write_stack pr7 empty_graph bare)
      ≡ (stack_of main empty_graph).meta.namespace)
    × (pvc_name_for (parent_stack (write_stack pr7 empty_graph bare)) "db"
        ≡ pvc_name_for (stack_of main empty_graph).meta.name "db")
    × (◌≡◌ {A = Bool} true true
        → clone_source (write_stack pr7 empty_graph bare) database
          ≡ some (record {
            parent_ns = (stack_of main empty_graph).meta.namespace;
            parent_cluster = backing_name_for (stack_of main empty_graph) database;
          }))
parent_lem_example = parent_lem pr7 main empty_graph empty_graph bare database refl refl refl

-- A snapshot of the preview and one of another preview.
abbrev snapshot_of : String → String → VolumeSnapshot
snapshot_of name owner = record {
  meta = record (named "proj-shop-main" name) { labels = (clone_owner_label, owner) ∷ [] };
  class_name = "";
  source_claim = "";
  source_content = "";
  ready_to_use = true;
  bound_content = "";
}

abbrev leftovers : Cluster memory
leftovers = cluster (
    put snapshot (snapshot_of "a" "proj-shop-pr7")
      (put snapshot (snapshot_of "b" "proj-shop-pr8") nothing))

collected :
    (gc_clone_artifacts memory "proj-shop-pr7" leftovers).1.calls
    ≡ record {
      verb = delete;
      target = object snapshot (record { namespace = "proj-shop-main"; name = "a" });
      succeeded = true;
    }
      ∷ []
unfolding gc_clone_artifacts record_call read_call lookup
collected = refl

gc_clone_artifacts-Writes_example :
    Writes memory (IsGcDelete memory "proj-shop-pr7") (gc_clone_artifacts memory "proj-shop-pr7")
gc_clone_artifacts-Writes_example = gc_clone_artifacts-Writes memory memory-Answers "proj-shop-pr7"

teardown_order_example :
    ((e : Err Refusal)
      → (gc_clone_artifacts memory "proj-shop-pr7" leftovers).0 ≡ err e
      → teardown memory pr7 "proj-shop-pr7" leftovers ≡ (
        err (wrap "gc clone artifacts" e),
        (gc_clone_artifacts memory "proj-shop-pr7" leftovers).1,
      ))
    × ((e : Err Refusal)
        → (gc_clone_artifacts memory "proj-shop-pr7" leftovers).0 ≡ ok tt
        → (delete_namespace memory "proj-shop-pr7"
            (gc_clone_artifacts memory "proj-shop-pr7" leftovers).1).0
          ≡ err e
        → teardown memory pr7 "proj-shop-pr7" leftovers ≡ (
          err e,
          (delete_namespace memory "proj-shop-pr7"
              (gc_clone_artifacts memory "proj-shop-pr7" leftovers).1).1,
        ))
    × ((gc_clone_artifacts memory "proj-shop-pr7" leftovers).0 ≡ ok tt
        → (delete_namespace memory "proj-shop-pr7"
            (gc_clone_artifacts memory "proj-shop-pr7" leftovers).1).0
          ≡ ok tt
        → (b : Bool) × ((teardown memory pr7 "proj-shop-pr7" leftovers).1.calls
            ≡ record { verb = update; target = object environment pr7_key; succeeded = b }
              ∷ (delete_namespace memory "proj-shop-pr7"
                  (gc_clone_artifacts memory "proj-shop-pr7" leftovers).1).1.calls))
teardown_order_example = teardown_order memory pr7 "proj-shop-pr7" leftovers
