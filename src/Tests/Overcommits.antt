-- ===== src/Tests/Overcommits.antt =====
-- Overcommit at concrete limits.
use paas_controlplane.Base.{
  ℕ, ◌+◌, ◌≤◌, ◌*◌, ◌≡◌, refl, ◌↔◌, [], ◌∷◌, pos, ◌≤ℤ◌, arith, All, length,
}
use paas_controlplane.Overcommit.{dev, resolve_tier, cpu_request, mem_request, min_mem}
use paas_controlplane.Overcommit.Bounds.{requests_lem, total, requests}

prod_ratio : (resolve_tier "prod").cpu ≡ 7
unfolding resolve_tier
prod_ratio = refl

-- 500m over a ratio of 15 is 33m, and 10m is below the ratio: the floor of 1m.
some_requests : (cpu_request dev (pos 500) ≡ pos 33) × (cpu_request dev (pos 10) ≡ pos 1)
unfolding cpu_request
some_requests = (refl, refl)

-- A memory limit of 1Mi gets a request of 4Mi.
tiny_memory : mem_request dev (pos 1048576) ≡ pos 4194304
unfolding mem_request
tiny_memory = refl

requests_lem_example :
    (requests dev (500 ∷ 40 ∷ []) ≤ 36
      → total (500 ∷ 40 ∷ []) + length {A = ℕ} (500 ∷ 40 ∷ [])
        ≤ 36 * 15 + length {A = ℕ} (500 ∷ 40 ∷ []) * 15)
    × (All (λ l. 15 ≤ l) (500 ∷ 40 ∷ [])
        → total (500 ∷ 40 ∷ []) ≤ 36 * 15
        → requests dev (500 ∷ 40 ∷ []) ≤ 36)
    × (pos min_mem ≤ℤ mem_request dev (pos 1048576))
    × ((mem_request dev (pos 1048576) ≤ℤ pos 1048576) ↔ (pos min_mem ≤ℤ pos 1048576))
requests_lem_example = requests_lem dev (500 ∷ 40 ∷ []) 36 (pos 1048576) (omega arith) (omega arith)
