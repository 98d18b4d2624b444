-- ===== src/StackController/Services/Gates.antt =====
-- What holds a service back in the loop of Reconcile, stack_controller.go: a backing that is not
-- ready, and a release Job that has not completed.
use paas_controlplane.Base.{
  List, [], ◌∷◌, Bool, Bool-cases, Result, err, ok-injective, ◌&&◌, if◌then◌else◌, ◌≢◌, refl, arith,
  subst, sym, ◌∙◌, String, true, false, some, Dict, ok, ◌≡◌, any, ◌==◌, ◌⊎◌, inl, inr,
}
use paas_controlplane.Api.{Stack, ServiceSpec, NamespacedName}
use paas_controlplane.Kube.{
  Kube, Cluster, Call, Err, Job, JobCondition, ContainerEnv, job, stack, create, object,
  create_object, set_owner, api_error, bind-ok, lift, raise, is_not_found, pure, ◌>>=◌, try,
  read_call,
}
use paas_controlplane.Kube.Writes.{Made, Writes, Writes-bind_ok, writes_rules}
use paas_controlplane.Kube.Owners.{api_error-ok}
use paas_controlplane.AppController.{normalize_image}
use paas_controlplane.StackController.Connections.{Resolved, resolve}
use paas_controlplane.StackController.Setup.{StackReconciler, Backing}
use paas_controlplane.StackController.Connections.Holding.{is_holding, resolve_lem}
use paas_controlplane.StackController.Releases.{
  ReleaseState, complete, failed, unfinished, release_job_name, job_state, build_release_job,
  start_release, after_get, reconcile_release_job,
}
use paas_controlplane.StackController.Services.{
  Flags, hook_of, after_release, release, hold_or_release, reconcile_service,
}

-- A condition of the Job says that it ended this way: Kubernetes sets the status of a condition that
-- holds to True.
abbrev pub ends : String → JobCondition → Bool
ends way c = c.condition_type == way && (c.status == "True")

-- The flags after a service whose release Job has not completed: the Job failed, or has no end yet.
abbrev pub gated : Flags → List JobCondition → Flags
gated flags cs =
    if any (ends "Failed") cs
    then record flags { release_failed = true }
    else record flags { release_pending = true }

IsComplete : ReleaseState → Type 0
IsComplete complete = Unit
IsComplete _ = ⊥

failed≢complete : failed ≢ complete
unfolding IsComplete
failed≢complete e = subst IsComplete (sym e) tt

unfinished≢complete : unfinished ≢ complete
unfolding IsComplete
unfinished≢complete e = subst IsComplete (sym e) tt

-- What the loop over the conditions makes of a Job that has not completed.
job_state-incomplete :
    (cs : List JobCondition)
    → any (ends "Complete") cs ≡ false
    → job_state cs ≡ (if any (ends "Failed") cs then failed else unfinished)
unfolding job_state
job_state-incomplete [] h = refl
job_state-incomplete (c ∷ cs) h = ground (arith, job_state-incomplete cs)

job_state-cases :
    (cs : List JobCondition)
    → any (ends "Complete") cs ≡ false
    → ((any (ends "Failed") cs ≡ true) × (job_state cs ≡ failed))
      ⊎ ((any (ends "Failed") cs ≡ false) × (job_state cs ≡ unfinished))
job_state-cases cs h =
    let known = job_state-incomplete cs h in
    elim (Bool-cases (any (ends "Failed") cs)) [
      | inl f ↦ inl (f, (rw f at known))
      | inr f ↦ inr (f, (rw f at known))
    ]

job_state-gates :
    (cs : List JobCondition) → any (ends "Complete") cs ≡ false → job_state cs ≢ complete
job_state-gates cs h e = elim (job_state-cases cs h) [
  | inl (f, state) ↦ failed≢complete (sym state ∙ e)
  | inr (f, state) ↦ unfinished≢complete (sym state ∙ e)
]

abbrev pub release_job_key : Stack → ServiceSpec → NamespacedName
release_job_key st svc = record { namespace = st.meta.namespace; name = release_job_name st svc }

-- The creation of a Job.
pub data IsJobCreate : Call → Type 0 where
  job_create :
      (key : NamespacedName) (b : Bool)
      → IsJobCreate (record { verb = create; target = object job key; succeeded = b })

ruleset job_writes = (writes_rules, job_create)

module _ (K : Kube) (r : StackReconciler) (st : Stack) (svc : ServiceSpec) where
  start_release-Writes : (built : Job) → Writes K IsJobCreate (start_release K st built)
  unfolding start_release
  start_release-Writes built = search job_writes

  after_get-Writes :
      (built : Job) (got : Result (Err K.Error) Job)
      → Writes K IsJobCreate (after_get K st built got)
  after_get-Writes built (ok j) = search job_writes
  after_get-Writes built (err e) = search (job_writes, start_release-Writes)

  -- A Job that was just made has not completed.
  start_release-gates :
      (built : Job) (s : Cluster K) (state : ReleaseState)
      → (start_release K st built s).0 ≡ ok state
      → state ≢ complete
  unfolding start_release pure
  start_release-gates built s state e =
      let (meta, set, made) = bind-ok (lift (set_owner K stack st.meta built.meta)) _ s state e in
      let (j, done, returned) =
        bind-ok (create_object K job (record built { meta = meta })) _ _ state made in
      λ c. unfinished≢complete (ok-injective unfinished state returned ∙ c)

  after_get-gates :
      (built : Job) (got : Result (Err K.Error) Job)
      → ((j : Job) → got ≡ ok j → any (ends "Complete") j.conditions ≡ false)
      → (s : Cluster K) (state : ReleaseState) → (after_get K st built got s).0 ≡ ok state
      → state ≢ complete
  unfolding pure raise
  after_get-gates built (ok j) h s state e =
      λ c. job_state-gates j.conditions (h j refl) (ok-injective _ state e ∙ c)
  after_get-gates built (err x) h s state e = elim (Bool-cases (is_not_found K x)) [
    | inl missing ↦ start_release-gates built s state (rw missing at e)
    | inr other ↦ cc
  ]

  after_release-Writes :
      (image : String) (env : List ContainerEnv) (flags : Flags) (state : ReleaseState)
      → state ≢ complete
      → Writes K IsJobCreate (after_release K r st svc image env flags state)
  after_release-Writes image env flags complete h = absurd (h refl)
  after_release-Writes image env flags failed h = search job_writes
  after_release-Writes image env flags unfinished h = search job_writes

module _ (K : Kube) (r : StackReconciler) (st : Stack) (urls : Dict String)
    (backings : Dict Backing) (flags : Flags) (svc : ServiceSpec) (s : Cluster K) where
  -- A service with an image and a connection that holds it back is left alone: the cluster is neither read
  -- nor written, so neither its release Job nor a process of it is touched, and the Stack counts as waiting for a
  -- backing.
  pub service_held :
      (svc.image == "") ≡ false
      → any (is_holding urls backings) svc.connections ≡ true
      → reconcile_service K r st urls backings flags svc s
        ≡ (ok (record flags { backing_pending = true }), s)
  unfolding reconcile_service pure
  service_held image held = rw (image, resolve_lem urls backings svc, held)

  -- The release Job of this generation, if there is one, has no condition Complete that is True.
  abbrev pub Incomplete : Type 0
  Incomplete =
      (j : Job)
      → (K.get job (release_job_key st svc) s.world).0 ≡ ok j
      → any (ends "Complete") j.conditions ≡ false

  release-gated :
      (command image : String) (env : List ContainerEnv)
      → Incomplete
      → Made IsJobCreate s.calls (release K r st svc image env flags (some command) s).1.calls
  unfolding release reconcile_release_job ◌>>=◌ try read_call
  release-gated command image env h =
      let got = api_error (K.get job (release_job_key st svc) s.world).0 in
      let built = build_release_job r st svc command image (release_job_name st svc) env in
      (Writes-bind_ok (after_get K st built got) (after_release K r st svc image env flags)
          (after_get-Writes K r st svc built got)
          (λ s' state e.
            after_release-Writes K r st svc image env flags state (
              after_get-gates K r st svc built got (λ j g. h j (api_error-ok _ j g)) s' state
                e))).at
        (record s { world = (K.get job (release_job_key st svc) s.world).1 })

  held-or-gated :
      (command : String) (found : Resolved)
      → hook_of svc.hooks ≡ some command
      → Incomplete
      → Made IsJobCreate s.calls (hold_or_release K r st svc flags found s).1.calls
  unfolding pure
  held-or-gated command found hook h = elim (Bool-cases found.wait_backing) [
    | inl held ↦ rw held ([], refl, tt)
    | inr free ↦ rw (free, hook) (release-gated command (normalize_image svc.image) found.env h)
  ]

  -- A service with a release hook whose Job of this generation has not completed, which no condition
  -- Complete with the status True says, is not rolled out, whatever else holds: the only writing
  -- calls are creations of a Job. Where it has an image, nothing holds it back and the Job exists, there is no
  -- writing call at all, and the Stack counts as failed exactly if a condition Failed with the status True is
  -- there, and as waiting otherwise.
  pub release_gates :
      (command : String)
      → hook_of svc.hooks ≡ some command
      → Incomplete
      → Made IsJobCreate s.calls (reconcile_service K r st urls backings flags svc s).1.calls
        × ((j : Job)
            → (svc.image == "") ≡ false
            → any (is_holding urls backings) svc.connections ≡ false
            → (K.get job (release_job_key st svc) s.world).0 ≡ ok j
            → reconcile_service K r st urls backings flags svc s ≡ (
              ok (gated flags j.conditions),
              record s { world = (K.get job (release_job_key st svc) s.world).1 },
            ))
  unfolding reconcile_service release reconcile_release_job pure try ◌>>=◌ read_call
  release_gates command hook h = (
    elim (Bool-cases (svc.image == "")) [
      | inl none_given ↦ rw none_given ([], refl, tt)
      | inr given ↦ rw given (held-or-gated command (resolve urls backings svc) hook h)
    ],
    λ j image free got. elim (job_state-cases j.conditions (h j got)) [
      | inl (f, state) ↦ rw (image, resolve_lem urls backings svc, free, hook, got, state, f)
      | inr (f, state) ↦ rw (image, resolve_lem urls backings svc, free, hook, got, state, f)
    ],
  )
