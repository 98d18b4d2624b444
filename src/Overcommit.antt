-- ===== src/Overcommit.antt =====
-- internal/controller/overcommit.go: a pool's ratios, and the requests derived from limits.
pub mod Bounds
use paas_controlplane.Base.{
  ℕ, ◌*◌, String, [], ◌∷◌, none, some, Dict, lookup, ℤ, pos, lt_nat, quot_nat, if◌then◌else◌, ◌==◌,
}
use paas_controlplane.Kube.{
  Kube, Quantity, decimal_milli, binary, ResourceList, ResourceRequirements, PodSpec,
}

pub record Overcommit : Type 0 where
  pub name : String
  pub cpu : ℕ
  pub mem : ℕ

abbrev pub dev : Overcommit
dev = record { name = "dev"; cpu = 15; mem = 2 }

-- The map of the source.
unfoldable pub overcommit_tiers : Dict Overcommit
overcommit_tiers =
    ("dev", dev)
    ∷ ("prod", record { name = "prod"; cpu = 7; mem = 2 })
    ∷ ("build", record { name = "build"; cpu = 2; mem = 2 })
    ∷ ("enterprise", record { name = "enterprise"; cpu = 1; mem = 1 })
    ∷ []

-- The entry "dev" is in the map, so the second lookup of the source finds it.
unfoldable pub resolve_tier : String → Overcommit
unfolding overcommit_tiers lookup
resolve_tier name = elim (lookup name overcommit_tiers) [ some t ↦ t | none ↦ dev ]

-- 4Mi
abbrev pub min_mem : ℕ
min_mem = 4 * 1024 * 1024

-- The request for a CPU limit of `milli` thousandths.
unfoldable pub cpu_request : Overcommit → ℤ → ℤ
cpu_request t milli = let req = quot_nat milli t.cpu in if lt_nat req 1 then pos 1 else req

-- The request for a memory limit in bytes.
unfoldable pub mem_request : Overcommit → ℤ → ℤ
mem_request t bytes =
    let req = quot_nat bytes t.mem in if lt_nat req min_mem then pos min_mem else req

unfoldable pub apply_scheduler : PodSpec → String → PodSpec
apply_scheduler spec name = if name == "" then spec else record spec { scheduler_name = name }

module _ (K : Kube) where
  unfoldable pub requests_from_limits : Overcommit → Quantity → Quantity → ResourceList
  unfolding cpu_request mem_request
  requests_from_limits t cpu_limit mem_limit = record {
    cpu = decimal_milli (cpu_request t (K.milli_value cpu_limit));
    memory = binary (mem_request t (K.value mem_limit));
  }

  unfoldable pub limited_resources : Overcommit → Quantity → Quantity → ResourceRequirements
  unfolding requests_from_limits
  limited_resources t cpu_limit mem_limit = record {
    requests = requests_from_limits t cpu_limit mem_limit;
    limits = record { cpu = cpu_limit; memory = mem_limit };
  }
