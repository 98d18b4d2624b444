-- ===== src/EnvironmentController/Teardown.antt =====
-- The order of a teardown, environment_controller.go.
use paas_controlplane.Base.{◌∷◌, ◌≡◌, ap, Bool, String, ok, err}
use paas_controlplane.Api.{Environment, key_of}
use paas_controlplane.Kube.{
  Kube, Cluster, Err, api_error, wrap, update, object, environment, succeeds, record_call,
  update_object, done, bind-pure_state,
}
use paas_controlplane.Snapshots.{gc_clone_artifacts}
use paas_controlplane.EnvironmentController.{env_finalizer, teardown, delete_namespace}

module _ (K : Kube) (env : Environment) (ns : String) (s : Cluster K) where
  -- Dropping the finalizer is the last step of a teardown. Where collecting the clone artifacts fails,
  -- the teardown returns that error, wrapped, in the state that the collection left; where deleting
  -- the namespace fails, it returns that error in the state that the deletion left; where both
  -- succeed, it makes one more writing call, the Update of the Environment without the finalizer.
  pub teardown_order :
      ((e : Err K.Error)
        → (gc_clone_artifacts K ns s).0 ≡ err e
        → teardown K env ns s ≡ (err (wrap "gc clone artifacts" e), (gc_clone_artifacts K ns s).1))
      × ((e : Err K.Error)
          → (gc_clone_artifacts K ns s).0 ≡ ok tt
          → (delete_namespace K ns (gc_clone_artifacts K ns s).1).0 ≡ err e
          → teardown K env ns s ≡ (err e, (delete_namespace K ns (gc_clone_artifacts K ns s).1).1))
      × ((gc_clone_artifacts K ns s).0 ≡ ok tt
          → (delete_namespace K ns (gc_clone_artifacts K ns s).1).0 ≡ ok tt
          → (b : Bool) × ((teardown K env ns s).1.calls
              ≡ record {
                verb = update;
                target = object environment (key_of (K.remove_finalizer env.meta env_finalizer));
                succeeded = b;
              }
                ∷ (delete_namespace K ns (gc_clone_artifacts K ns s).1).1.calls))
  unfolding teardown record_call
  teardown_order = (
    λ e g. rw g,
    λ e g d. rw (g, d),
    λ g d.
        let after = (delete_namespace K ns (gc_clone_artifacts K ns s).1).1 in
        let dropped : Environment = record env {
          meta = K.remove_finalizer env.meta env_finalizer;
        } in
        (
          succeeds (api_error (K.update environment dropped after.world).0),
          rw (g, d)
              (ap (λ (t : Cluster K). t.calls)
                (bind-pure_state (update_object K environment dropped) done after)),
        ),
  )
