-- ===== src/StackController/Status/Phase.antt =====
-- The phase that updateStatus of stack_controller.go writes.
use paas_controlplane.Base.{
  String, List, [], ◌∷◌, Bool, true, false, ℕ, ◌≤◌, ◌+◌, suc, ◌≡◌, refl, ap, ◌∙◌, not, ◌&&◌, ◌==◌,
  nat_eq, length, any, is_pos, arith, Bool-cases, inl, inr,
}
use paas_controlplane.Api.{Stack, StackStatus}
use paas_controlplane.Kube.{Deployment}
use paas_controlplane.StackController.Services.{Flags}
use paas_controlplane.StackController.Status.{count_ready, all_ready, settled, status_of, counted}

abbrev is_ready : Deployment → Bool
is_ready d = is_pos d.ready_replicas

-- There is a Deployment, and no Deployment is without a ready replica.
unfoldable pub runs : List Deployment → Bool
runs [] = false
runs (d ∷ ds) = not (any (λ x. not (is_ready x)) (d ∷ ds))

count_ready-length : (ds : List Deployment) → count_ready ds ≤ length ds
unfolding count_ready
count_ready-length [] = omega arith
count_ready-length (d ∷ ds) = ground (arith, count_ready-length ds)

nat_eq-suc : (a b : ℕ) → nat_eq (1 + a) (suc b) ≡ nat_eq a b
nat_eq-suc a b = ground arith

nat_eq-below : (a b : ℕ) → a ≤ b → nat_eq a (suc b) ≡ false
nat_eq-below a b h = ground arith

count_ready-all :
    (ds : List Deployment)
    → nat_eq (count_ready ds) (length ds) ≡ not (any (λ x. not (is_ready x)) ds)
unfolding count_ready
count_ready-all [] = refl
count_ready-all (d ∷ ds) = elim (Bool-cases (is_ready d)) [
  | inl e ↦ rw (e, nat_eq-suc (count_ready ds) (length ds), count_ready-all ds)
  | inr e ↦ rw (e, nat_eq-below (count_ready ds) (length ds) (count_ready-length ds))
]

nothing_ready : all_ready (count_ready []) 0 ≡ false
unfolding count_ready
nothing_ready = refl

zero-nat_eq : (n : ℕ) → nat_eq (suc n) 0 ≡ false
zero-nat_eq n = ground arith

all_ready_lem : (ds : List Deployment) → all_ready (count_ready ds) (length ds) ≡ runs ds
unfolding runs
all_ready_lem [] = nothing_ready
all_ready_lem (d ∷ ds) = rw (zero-nat_eq (length ds), count_ready-all (d ∷ ds))

-- The phase that each case of the switch stands for.
abbrev pub phase : Bool → Bool → Bool → Bool → String
phase true backing release running = "ReleaseFailed"
phase false true release running = "ProvisioningBacking"
phase false false true running = "ReleaseHook"
phase false false false true = "Running"
phase false false false false = "Progressing"

settled-phase :
    (st : Stack) (flags : Flags) (running : Bool) (x : StackStatus)
    → (settled st flags running x).phase
      ≡ phase flags.release_failed flags.backing_pending flags.release_pending running
unfolding settled
settled-phase st flags running x = ground arith

phase-running :
    (a b c running : Bool)
    → (phase a b c running == "Running") ≡ (not a && not b && not c && running)
phase-running true b c running = refl
phase-running false true c running = refl
phase-running false false true running = refl
phase-running false false false true = refl
phase-running false false false false = refl

status_of-phase :
    (st : Stack) (flags : Flags) (ds : List Deployment)
    → (status_of st flags ds).phase
      ≡ phase flags.release_failed flags.backing_pending flags.release_pending (runs ds)
unfolding status_of
status_of-phase st flags ds =
    settled-phase st flags (all_ready (count_ready ds) (length ds)) (counted st ds)
    ∙ ap (phase flags.release_failed flags.backing_pending flags.release_pending) (all_ready_lem ds)

-- The phase that is written is Running exactly if no release failed, no backing and no release is
-- awaited, there is a Deployment of the Stack, and every one of them has a ready replica; otherwise
-- the first of the cases that holds, in the order failed, backing, release, names the phase.
pub status_of_lem :
    (st : Stack) (flags : Flags) (ds : List Deployment)
    → (((status_of st flags ds).phase == "Running") ≡ (
        not flags.release_failed
        && not flags.backing_pending
        && not flags.release_pending
        && runs ds))
      × ((status_of st flags ds).phase
          ≡ phase flags.release_failed flags.backing_pending flags.release_pending (runs ds))
status_of_lem st flags ds = (
  ap (λ p. p == "Running") (status_of-phase st flags ds)
      ∙ phase-running flags.release_failed flags.backing_pending flags.release_pending (runs ds),
  status_of-phase st flags ds,
)
