-- ===== src/Tests/Https.antt =====
-- The HTTP API on a cluster in memory.
use paas_controlplane.Base.{pos, List, [], ◌∷◌, map, true, false, none, some, ◌≡◌, refl, ok, err}
use paas_controlplane.Api.{Environment, named, StackSpec, NamespacedName}
use paas_controlplane.Kube.{read_call, record_call}
use paas_controlplane.HttpApi.{serve, put_stack, route}
use paas_controlplane.HttpApi.Store.{Op, read, remove, write, specified_run}
use paas_controlplane.HttpApi.Store.Saves.{specs}
use paas_controlplane.HttpApi.Store.Refines.{serve_all, serve_refines}
use paas_controlplane.HttpApi.Owned.{IsOwned, owned_lem}
use paas_controlplane.HttpApi.Truthful.{Told, serve_truthful}
use paas_controlplane.Tests.Memory.{nothing, memory, memory-Answers, cluster}
use paas_controlplane.Tests.Lagging.{lagging, lagging_stores, lagging-Ensures, empty_cluster}

abbrev key : NamespacedName
key = record { namespace = "proj-shop-main"; name = "main" }

abbrev no_services : StackSpec
no_services = record { services = []; backing = []; volumes = [] }

abbrev one_volume : StackSpec
one_volume = record {
  services = [];
  backing = [];
  volumes = record { name = "data"; kind = "" } ∷ [];
}

-- The same with the default of the schema.
abbrev with_default : StackSpec
with_default = record one_volume { volumes = record { name = "data"; kind = "block" } ∷ [] }

abbrev on_tape : StackSpec
on_tape = record one_volume { volumes = record { name = "data"; kind = "tape" } ∷ [] }

-- A client that reads, saves twice, sends a spec that the schema refuses and no JSON, removes and reads again.
abbrev session : List Op
session =
    read key
    ∷ write key (ok no_services)
    ∷ write key (ok one_volume)
    ∷ write key (ok on_tape)
    ∷ write key (err "unexpected EOF")
    ∷ read key
    ∷ remove key
    ∷ remove key
    ∷ []

serve_refines_example :
    ((serve_all lagging lagging_stores [] true session empty_cluster).0
      ≡ (specified_run lagging_stores.schema session
          (specs lagging lagging_stores empty_cluster)).0)
    × (specs lagging lagging_stores
          (serve_all lagging lagging_stores [] true session empty_cluster).1
        ≡ (specified_run lagging_stores.schema session
            (specs lagging lagging_stores empty_cluster)).1)
serve_refines_example = serve_refines lagging lagging_stores [] true session empty_cluster

codes :
    map (λ r. r.code) (serve_all lagging lagging_stores [] true session empty_cluster).0
    ≡ 404 ∷ 201 ∷ 200 ∷ 400 ∷ 400 ∷ 200 ∷ 204 ∷ 404 ∷ []
unfolding serve read_call record_call
codes = refl

serve_truthful_example :
    Told
      (some key)
      (serve memory [] true (put_stack key (ok one_volume)) (cluster nothing)).0.code
      []
      (serve memory [] true (put_stack key (ok one_volume)) (cluster nothing)).1.calls
serve_truthful_example =
    serve_truthful memory memory-Answers [] true (put_stack key (ok one_volume)) (cluster nothing)

routed :
    route "PUT" ("api" ∷ "v1" ∷ "stacks" ∷ "proj-shop-main" ∷ "main" ∷ []) (ok one_volume)
    ≡ some (put_stack key (ok one_volume))
unfolding route
routed = refl

not_routed : route "POST" ("api" ∷ "v1" ∷ "stacks" ∷ []) (ok one_volume) ≡ none
unfolding route
not_routed = refl

abbrev main_env : Environment
main_env = record {
  meta = named "paas-system" "main";
  spec = record {
    project = "shop";
    env_type = "persistent";
    clone_from = "";
    stack = some one_volume;
  };
  status = record {
    namespace = "";
    phase = "";
    baseline_stamped = false;
    observed_generation = pos 0;
  };
}

-- The spec that a PUT wrote to the Stack of an Environment is gone when the Environment was reconciled.
abbrev saved : List Op
saved = write key (ok no_services) ∷ []

owned_lem_example :
    IsOwned lagging lagging_stores [] true saved main_env one_volume with_default "proj-shop-main"
      empty_cluster
owned_lem_example =
    owned_lem lagging lagging_stores lagging-Ensures [] true saved main_env one_volume with_default
      "proj-shop-main" empty_cluster refl
