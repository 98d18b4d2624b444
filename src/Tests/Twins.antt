-- ===== src/Tests/Twins.antt =====
-- The overlay of two Stacks, in memory.
use paas_controlplane.Base.{String, List, [], ◌∷◌, pos, ok, ◌⧺◌, ◌≡◌, refl, map}
use mathlib.Core.List.{Perm}
use paas_controlplane.Api.{Stack, StackStatus, named, key_of}
use paas_controlplane.Kube.{Deployment, fresh_deployment, Cluster, stack, read_call}
use paas_controlplane.Twin.{
  twins, listed_stacks, Ordered, twin_lt, process_lt, listed_processes, process_entries, sort_by,
}
use paas_controlplane.Twin.Overlay.{twin_key, twins_lem}
use paas_controlplane.Tests.Memory.{nothing, put, memory, cluster}

abbrev idle : StackStatus
idle = record {
  phase = "Running";
  observed_generation = pos 1;
  services = pos 1;
  ready_services = pos 1;
  release_hook = "None";
}

abbrev named_stack : String → String → Stack
named_stack ns name = record {
  meta = named ns name;
  spec = record { services = []; backing = []; volumes = [] };
  status = idle;
}

abbrev state : Cluster memory
state = cluster (put stack (named_stack "b" "api") (put stack (named_stack "a" "web") nothing))

abbrev listed : Cluster memory → List Stack
listed s = s.world.stacks

twins_lem_example :
    ((twins memory state).1.calls ≡ [])
    × Ordered twin_lt (twins memory state).0
    × ((sts : List Stack)
        → (listed_stacks memory state).0 ≡ ok sts
        → Perm (map twin_key (twins memory state).0) (map (λ st. key_of st.meta) sts))
twins_lem_example = twins_lem memory state

-- A test: the Stacks come out in order.
in_order :
    map twin_key (twins memory state).0 ≡ key_of (named "a" "web") ∷ key_of (named "b" "api") ∷ []
unfolding twins read_call
in_order = refl

abbrev of_process : String → String → Deployment
of_process service process = fresh_deployment (record (named "a" (service ⧺ process)) {
  labels = ("paas.sh/service", service) ∷ ("paas.sh/process", process) ∷ [];
})

abbrev deployments : List Deployment
deployments = of_process "web" "worker" ∷ of_process "web" "" ∷ of_process "api" "main" ∷ []

two_processes :
    map (λ p. p.service) (listed_processes {E = Unit {0}} (ok deployments)) ≡ "api" ∷ "web" ∷ []
unfolding sort_by process_entries process_lt
two_processes = refl
