-- ===== src/StackController/Status.antt =====
-- updateStatus of stack_controller.go: the phase of the Stack, and when it is looked at again.
pub mod Phase
use paas_controlplane.Base.{
  List, [], ◌∷◌, Bool, some, ℕ, pos, is_pos, nat_eq, length, ◌+◌, not, ◌||◌, ◌&&◌, if◌then◌else◌,
}
use paas_controlplane.Api.{Stack, StackStatus}
use paas_controlplane.Kube.{
  Kube, Io, Deployment, ReconcileResult, done, deployment, stack, list, update_object_status, pure,
  ◌>>=◌, ◌>>◌,
}
use paas_controlplane.StackController.Setup.{stack_label, has_release_hook}
use paas_controlplane.StackController.Services.{Flags}

-- The number of Deployments with a ready replica.
unfoldable pub count_ready : List Deployment → ℕ
count_ready [] = 0
count_ready (d ∷ ds) =
    let rest = count_ready ds in if is_pos d.ready_replicas then 1 + rest else rest

abbrev pub all_ready : ℕ → ℕ → Bool
all_ready ready total = not (nat_eq total 0) && nat_eq ready total

-- The switch: the phase and the state of the release hook.
unfoldable pub settled : Stack → Flags → Bool → StackStatus → StackStatus
settled st flags running s =
    if flags.release_failed
    then record s { release_hook = "Failed"; phase = "ReleaseFailed" }
    else if flags.backing_pending
    then record s { phase = "ProvisioningBacking" }
    else if flags.release_pending
    then record s { release_hook = "Running"; phase = "ReleaseHook" }
    else record s {
      release_hook = if has_release_hook st then "Complete" else "None";
      phase = if running then "Running" else "Progressing";
    }

-- The counters, which are written before the switch.
abbrev pub counted : Stack → List Deployment → StackStatus
counted st deps = record st.status {
  services = pos (length st.spec.services);
  ready_services = pos (count_ready deps);
  observed_generation = st.meta.generation;
}

unfoldable pub status_of : Stack → Flags → List Deployment → StackStatus
unfolding count_ready settled
status_of st flags deps =
    settled st flags (all_ready (count_ready deps) (length deps)) (counted st deps)

abbrev pub requeue_in : Bool → ReconcileResult
requeue_in again = if again then record { requeue_after = 10 } else done

module _ (K : Kube) where
  unfoldable pub update_status : Stack → Flags → Bool → Io K ReconcileResult
  unfolding ◌>>=◌ status_of
  update_status st flags backup_pending = do
    deps ← list K deployment (record {
      namespace = some st.meta.namespace;
      matching_labels = stack_label st.meta.name ∷ [];
    })
    update_object_status K stack (record st { status = status_of st flags deps })
    pure (requeue_in (flags.backing_pending || backup_pending))
