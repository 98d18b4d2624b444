-- ===== src/StackController/Services/Waiting.antt =====
-- Which services leave the Stack waiting for a backing: the loop of Reconcile, stack_controller.go.
use paas_controlplane.Base.{
  String, List, [], ◌∷◌, Bool, true, not, ◌&&◌, ◌||◌, Option, none, some, Dict, Result, ok, ◌≡◌,
  refl, sym, ap, ◌∙◌, any, ◌==◌, Bool-cases, inl, inr, ok-injective,
}
use mathlib.Core.Bool.{or_assoc, or-false, or-true}
use paas_controlplane.Api.{Stack, ServiceSpec}
use paas_controlplane.Kube.{Kube, Cluster, ContainerEnv, Err, Io, bind-ok, pure, for_each}
use paas_controlplane.AppController.{normalize_image}
use paas_controlplane.StackController.Setup.{StackReconciler, Backing}
use paas_controlplane.StackController.Connections.{Resolved, resolve}
use paas_controlplane.StackController.Connections.Holding.{is_holding, resolve_lem}
use paas_controlplane.StackController.Releases.{
  ReleaseState, complete, failed, unfinished, reconcile_release_job,
}
use paas_controlplane.StackController.Services.{
  Flags, hook_of, run_process, roll_out, after_release, release, hold_or_release, reconcile_service,
  reconcile_services,
}

-- A service with an image and a connection that holds it back.
unfoldable pub waits : Dict String → Dict Backing → ServiceSpec → Bool
unfolding is_holding
waits urls backings svc = not (svc.image == "") && any (is_holding urls backings) svc.connections

module _ (K : Kube) where
  -- A computation of flags that leaves backing_pending as it is.
  abbrev Keeps : Flags → Io K Flags → Type 0
  Keeps flags m =
      (s : Cluster K) (flags' : Flags)
      → (m s).0 ≡ ok flags'
      → flags'.backing_pending ≡ flags.backing_pending

  same_flag :
      (flags flags' given : Flags)
      → flags.backing_pending ≡ given.backing_pending
      → ◌≡◌ {A = Result (Err K.Error) Flags} (ok flags) (ok flags')
      → flags'.backing_pending ≡ given.backing_pending
  same_flag flags flags' given h e =
      ap (λ (x : Flags). x.backing_pending) (sym (ok-injective flags flags' e)) ∙ h

  module _ (r : StackReconciler) (st : Stack) (svc : ServiceSpec) (image : String)
      (env : List ContainerEnv) (flags : Flags) where
    roll_out-Keeps : Keeps flags (roll_out K r st svc image env flags)
    unfolding roll_out pure
    roll_out-Keeps s flags' e =
        let (u, rolled, returned) =
          bind-ok (for_each (run_process K r st svc image env) svc.processes) (λ _. pure flags) s
            flags' e in
        same_flag flags flags' flags refl returned

    after_release-Keeps :
        (state : ReleaseState) → Keeps flags (after_release K r st svc image env flags state)
    unfolding pure
    after_release-Keeps complete s flags' e = roll_out-Keeps s flags' e
    after_release-Keeps failed s flags' e = same_flag _ flags' flags refl e
    after_release-Keeps unfinished s flags' e = same_flag _ flags' flags refl e

    release-Keeps : (hook : Option String) → Keeps flags (release K r st svc image env flags hook)
    unfolding release
    release-Keeps none s flags' e = roll_out-Keeps s flags' e
    release-Keeps (some command) s flags' e =
        let (state, found, returned) =
          bind-ok (reconcile_release_job K r st svc command image env) _ s flags' e in
        after_release-Keeps state _ flags' returned

  module _ (r : StackReconciler) (st : Stack) (urls : Dict String) (backings : Dict Backing) where
    hold_or_release-pending :
        (svc : ServiceSpec) (flags flags' : Flags) (found : Resolved) (s : Cluster K)
        → (hold_or_release K r st svc flags found s).0 ≡ ok flags'
        → flags'.backing_pending ≡ (flags.backing_pending || found.wait_backing)
    unfolding pure
    hold_or_release-pending svc flags flags' found s e = elim (Bool-cases found.wait_backing) [
      | inl held ↦
          rw (held, or-true flags.backing_pending)
            (same_flag (record flags { backing_pending = true }) flags'
              (record flags { backing_pending = true }) refl (rw held at e))
      | inr free ↦
          rw (free, or-false flags.backing_pending)
            (release-Keeps r st svc (normalize_image svc.image) found.env flags (hook_of svc.hooks)
              s flags' (rw free at e))
    ]

    service-pending :
        (svc : ServiceSpec) (flags flags' : Flags) (s : Cluster K)
        → (reconcile_service K r st urls backings flags svc s).0 ≡ ok flags'
        → flags'.backing_pending ≡ (flags.backing_pending || waits urls backings svc)
    unfolding reconcile_service pure waits
    service-pending svc flags flags' s e = elim (Bool-cases (svc.image == "")) [
      | inl none_given ↦
          rw (none_given, or-false flags.backing_pending)
            (same_flag flags flags' flags refl (rw none_given at e))
      | inr given ↦ rw given (
          hold_or_release-pending svc flags flags' (resolve urls backings svc) s (rw given at e)
          ∙ ap (λ (x : Resolved). flags.backing_pending || x.wait_backing)
              (resolve_lem urls backings svc))
    ]

    -- After the loop the Stack waits for a backing exactly if it did before or some service waits.
    pub services-pending :
        (svcs : List ServiceSpec) (flags flags' : Flags) (s : Cluster K)
        → (reconcile_services K r st urls backings flags svcs s).0 ≡ ok flags'
        → flags'.backing_pending ≡ (flags.backing_pending || any (waits urls backings) svcs)
    unfolding reconcile_services pure
    services-pending [] flags flags' s e =
        same_flag flags flags' flags refl e ∙ sym (or-false flags.backing_pending)
    services-pending (svc ∷ svcs) flags flags' s e =
        let (mid, done, returned) =
          bind-ok (reconcile_service K r st urls backings flags svc) _ s flags' e in
        services-pending svcs mid flags' _ returned
        ∙ ap (λ b. b || any (waits urls backings) svcs) (service-pending svc flags mid s done)
        ∙ or_assoc flags.backing_pending (waits urls backings svc) (any (waits urls backings) svcs)
