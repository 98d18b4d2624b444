-- ===== src/EnvironmentController/Mutate.antt =====
-- The mutate functions of environment_controller.go, and the clone coordinates that ensureStack writes
-- for the Stack controller.
use paas_controlplane.Base.{
  String, false, not, ◌&&◌, ◌||◌, ◌≡◌, ◌≢◌, arith, Dict, value_at, inl, inr, Bool-cases,
  value_at-insert, eq_iff, ◌⧺◌, ◌==◌,
}
use text.Mathlib.TextLemmas.{append-eq-nil_iff}
use paas_controlplane.Api.{Environment, Stack, StackSpec}
use paas_controlplane.Snapshots.{is_preview_clone}
use paas_controlplane.EnvironmentController.{clones, clone_coordinates, write_stack}

proj-ne : ◌≢◌ {A = String} "proj-" ""
proj-ne e = ground (arith, eq_iff "proj-" "")

-- "proj-" and what follows it is not the empty text.
pub proj-ne-nil : (s : String) → ("proj-" ⧺ s == "") ≡ false
proj-ne-nil s = elim (Bool-cases ("proj-" ⧺ s == "")) [
  | inr no_match ↦ no_match
  | inl same ↦ absurd (proj-ne ((append-eq-nil_iff.0 ((eq_iff ("proj-" ⧺ s) "").0 same)).0))
]

coordinates-is_clone :
    (env : Environment) (m : Dict String)
    → not (value_at "paas.sh/clone-from-namespace" (clone_coordinates env m) == "")
        && not (value_at "paas.sh/clone-from-stack" (clone_coordinates env m) == "")
      ≡ not (env.spec.clone_from == "")
unfolding clone_coordinates
coordinates-is_clone env m = simp (value_at-insert, proj-ne-nil)

-- The written Stack is a clone exactly when the Environment is a preview with a parent, or the Stack
-- was a clone before: nothing removes the coordinates.
pub is_preview_clone-write_stack :
    (env : Environment) (spec : StackSpec) (st : Stack)
    → is_preview_clone (write_stack env spec st) ≡ (clones env || is_preview_clone st)
unfolding is_preview_clone write_stack
is_preview_clone-write_stack env spec st =
    ground (arith, coordinates-is_clone env st.meta.annotations)
