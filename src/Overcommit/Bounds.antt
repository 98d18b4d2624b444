-- ===== src/Overcommit/Bounds.antt =====
-- Requests against limits: overcommit.go's admission arithmetic.
use paas_controlplane.Base.{
  ℕ, ◌+◌, ◌*◌, ◌≤◌, String, List, [], ◌∷◌, map, length, ◌≡◌, ◌≢◌, ◌↔◌, ℤ, pos, negsuc, ◌≤ℤ◌,
  pos_part, arith, eq_iff, All,
}
use paas_controlplane.Overcommit.{Overcommit, dev, resolve_tier, cpu_request, mem_request, min_mem}

-- Every tier has ratios of at least 1, and a name outside the table means dev.
pub resolve_tier_lem :
    (name : String)
    → (1 ≤ (resolve_tier name).cpu)
      × (1 ≤ (resolve_tier name).mem)
      × (name ≢ "dev"
          → name ≢ "prod"
          → name ≢ "build"
          → name ≢ "enterprise"
          → resolve_tier name ≡ dev)
unfolding resolve_tier
resolve_tier_lem name =
    ground
      (arith, eq_iff "dev" name, eq_iff "prod" name, eq_iff "build" name, eq_iff "enterprise" name)

-- The CPU request is at least 1m, and it is within the limit exactly when the limit is at least 1m.
pub cpu_request_bounds :
    (t : Overcommit) (limit : ℤ)
    → 1 ≤ t.cpu
    → (pos 1 ≤ℤ cpu_request t limit) × ((cpu_request t limit ≤ℤ limit) ↔ (pos 1 ≤ℤ limit))
unfolding cpu_request
cpu_request_bounds t (pos n) h = grind arith
cpu_request_bounds t (negsuc n) h = grind arith

mem_request_bounds :
    (t : Overcommit) (limit : ℤ)
    → 1 ≤ t.mem
    → (pos min_mem ≤ℤ mem_request t limit)
      × ((mem_request t limit ≤ℤ limit) ↔ (pos min_mem ≤ℤ limit))
unfolding mem_request
mem_request_bounds t (pos n) h = grind arith
mem_request_bounds t (negsuc n) h = grind arith

pub total : List ℕ → ℕ
total [] = 0
total (x ∷ xs) = x + total xs

pub request : Overcommit → ℕ → ℕ
request t limit = pos_part (cpu_request t (pos limit))

-- The sum of the requests of containers with these limits.
abbrev pub requests : Overcommit → List ℕ → ℕ
requests t limits = total (map (request t) limits)

request_step :
    (t : Overcommit) (limit : ℕ) → 1 ≤ t.cpu → limit + 1 ≤ request t limit * t.cpu + t.cpu
unfolding request cpu_request
request_step t limit h = grind arith

request_exact :
    (t : Overcommit) (limit : ℕ) → 1 ≤ t.cpu → t.cpu ≤ limit → request t limit * t.cpu ≤ limit
unfolding request cpu_request
request_exact t limit h k = grind arith

requests-ge :
    (t : Overcommit) (limits : List ℕ)
    → 1 ≤ t.cpu
    → total limits + length limits ≤ requests t limits * t.cpu + length limits * t.cpu
unfolding total
requests-ge t [] h = omega arith
requests-ge t (l ∷ ls) h = omega (arith, request_step t l h, requests-ge t ls h)

requests-le :
    (t : Overcommit) (limits : List ℕ)
    → 1 ≤ t.cpu
    → All (λ l. t.cpu ≤ l) limits
    → requests t limits * t.cpu ≤ total limits
unfolding total
requests-le t [] h k = omega arith
requests-le t (l ∷ ls) h k = omega (arith, request_exact t l h k.0, requests-le t ls h k.1)

le_of_mul_le : (a b c : ℕ) → 1 ≤ c → a * c ≤ b * c → a ≤ b
le_of_mul_le a b c h k = grind arith

-- Admission of a pool, in both directions.
admission :
    (t : Overcommit) (limits : List ℕ) (allocatable : ℕ)
    → 1 ≤ t.cpu
    → (requests t limits ≤ allocatable
        → total limits + length limits ≤ allocatable * t.cpu + length limits * t.cpu)
      × (All (λ l. t.cpu ≤ l) limits
          → total limits ≤ allocatable * t.cpu
          → requests t limits ≤ allocatable)
admission t limits allocatable h = (
  λ fits. grind (arith, requests-ge t limits h),
  λ big fits.
      le_of_mul_le (requests t limits) allocatable t.cpu h
        (omega (arith, requests-le t limits h big)),
)

-- For positive ratios. CPU limits in thousandths and any allocatable amount: if the sum of the requests
-- fits, the sum of the limits is at most allocatable * ratio and less than one ratio more for each
-- container (the rounding); and where no limit is below the ratio, limits whose sum is at most
-- allocatable * ratio have requests that fit. A memory request is at least 4Mi, and it is at most the
-- limit exactly when the limit is at least 4Mi.
pub requests_lem :
    (t : Overcommit) (limits : List ℕ) (allocatable : ℕ) (mem_limit : ℤ)
    → 1 ≤ t.cpu
    → 1 ≤ t.mem
    → (requests t limits ≤ allocatable
        → total limits + length limits ≤ allocatable * t.cpu + length limits * t.cpu)
      × (All (λ l. t.cpu ≤ l) limits
          → total limits ≤ allocatable * t.cpu
          → requests t limits ≤ allocatable)
      × (pos min_mem ≤ℤ mem_request t mem_limit)
      × ((mem_request t mem_limit ≤ℤ mem_limit) ↔ (pos min_mem ≤ℤ mem_limit))
requests_lem t limits allocatable mem_limit h k =
    let (fits, exact) = admission t limits allocatable h in
    let (floor, below) = mem_request_bounds t mem_limit k in (fits, exact, floor, below)
