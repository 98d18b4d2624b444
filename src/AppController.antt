-- ===== src/AppController.antt =====
-- internal/controller/app_controller.go: an App becomes a Deployment and a Service that run the
-- image of its newest Release. The proofs are in the child modules.
pub mod Newest
pub mod Mutate
pub mod Reconcile
pub mod Settled
use paas_controlplane.Base.{
  String, List, [], ◌∷◌, map, Bool, false, Option, none, some, Dict, ℤ, pos, is_zero, is_pos, itoa,
  ltb, ◌⧺◌, ◌==◌, if◌then◌else◌, replace_first, replace_all, Result, ok, err, and_then,
}
use paas_controlplane.Api.{App, AppStatus, Release, EnvVar, Resources, Meta, NamespacedName, named}
use paas_controlplane.Kube.{
  Kube, Io, Err, wrap, ReconcileResult, done, ContainerEnv, literal, Container, Toleration,
  SecurityContext, ResourceRequirements, Deployment, Service, app, release, deployment, service,
  get, list, ensure, update_object_status, set_owner, must_parse_quantity, try, on_error, pure,
  returns, ignore_not_found, fresh_deployment, fresh_service, ◌>>=◌, ◌>>◌,
}
use paas_controlplane.Overcommit.{Overcommit, limited_resources, apply_scheduler}

abbrev pub node_ip : String
node_ip = "65.109.119.211"

-- The fields of AppReconciler beside the client and the scheme.
pub record AppReconciler : Type 0 where
  pub tolerate_control_plane : Bool
  pub tier : Overcommit
  pub scheduler_name : String

unfoldable pub normalize_image : String → String
unfolding replace_first
normalize_image img = replace_first "registry.local:5000/" "registry.local/" img

unfoldable pub to_env : List EnvVar → ℤ → List ContainerEnv
to_env vars port =
    record { name = "PORT"; source = literal (itoa port) }
    ∷ map (λ e. record { name = e.name; source = literal e.value }) vars

-- One round of the loop of Reconcile over the releases: `newest` is what it has found so far.
unfoldable pub pick : String → Option Release → Release → Option Release
pick name none rel = if rel.spec.app == name then some rel else none
pick name (some newest) rel =
    if rel.spec.app == name
    then if ltb newest.meta.creation_timestamp rel.meta.creation_timestamp
      then some rel
      else some newest
    else some newest

unfoldable pub newest_from : String → Option Release → List Release → Option Release
unfolding pick
newest_from name newest [] = newest
newest_from name newest (rel ∷ rels) = newest_from name (pick name newest rel) rels

abbrev pub control_plane_toleration : Toleration
control_plane_toleration = record {
  key = "node-role.kubernetes.io/control-plane";
  operator = "Exists";
  effect = "NoSchedule";
}

abbrev pub hardened : SecurityContext
hardened = record { allow_privilege_escalation = false; drop = "ALL" ∷ [] }

abbrev pub app_labels : String → Dict String
app_labels name = ("paas.sh/app", name) ∷ []

-- The replicas and the port that Reconcile uses for a spec that sets none.
abbrev pub replicas_or_one : ℤ → ℤ
replicas_or_one n = if is_zero n then pos 1 else n

abbrev pub port_or_8080 : ℤ → ℤ
port_or_8080 n = if is_zero n then pos 8080 else n

abbrev pub app_url : String → String
app_url name = "http://" ⧺ name ⧺ "." ⧺ replace_all "." "-" node_ip ⧺ ".sslip.io"

abbrev phase_of : ℤ → String
phase_of ready = if is_pos ready then "Running" else "Progressing"

-- The container of the Deployment.
unfoldable pub app_container : App → String → ResourceRequirements → Container
unfolding to_env
app_container a image limits =
    let port = port_or_8080 a.spec.port in
    record {
      name = "app";
      image = image;
      image_pull_policy = "IfNotPresent";
      command = [];
      args = [];
      env = to_env a.spec.env port;
      ports = record { container_port = port; name = "http" } ∷ [];
      resources = some limits;
      volume_mounts = [];
      security_context = hardened;
    }

-- What the mutate function makes of a Deployment: the assignments, in order.
unfoldable pub written_deployment :
    AppReconciler → App → String → ResourceRequirements → Meta → Deployment → Deployment
unfolding app_container apply_scheduler
written_deployment r a image limits meta dep =
    let labels = app_labels a.meta.name in
    let tolerations =
      if r.tolerate_control_plane then control_plane_toleration ∷ [] else dep.pod.tolerations in
    let pod = apply_scheduler (record dep.pod { tolerations = tolerations }) r.scheduler_name in
    record dep {
      meta = meta;
      replicas = some (replicas_or_one a.spec.replicas);
      selector = labels;
      template_labels = labels;
      pod = record pod { containers = app_container a image limits ∷ [] };
    }

unfoldable pub written_service : App → Meta → Service → Service
written_service a meta svc = record svc {
  meta = meta;
  selector = app_labels a.meta.name;
  ports = record { name = "http"; port = pos 80; target_port = port_or_8080 a.spec.port } ∷ [];
}

module _ (K : Kube) where
  -- The limits fall back to 500m and 512Mi; a text that is no quantity panics in MustParse.
  unfoldable pub resources : Resources → Overcommit → Result (Err K.Error) ResourceRequirements
  resources rr t =
      let cpu = if rr.cpu == "" then "500m" else rr.cpu in
      let mem = if rr.memory == "" then "512Mi" else rr.memory in
      and_then (must_parse_quantity K cpu) λ cpu_limit.
        and_then (must_parse_quantity K mem)
          λ mem_limit. ok (limited_resources K t cpu_limit mem_limit)

  -- The mutate function of the Deployment.
  unfoldable pub mutate_deployment :
      AppReconciler → App → String → Deployment → Result (Err K.Error) Deployment
  unfolding resources
  mutate_deployment r a image dep = and_then (resources a.spec.resources r.tier) λ limits.
      and_then (set_owner K app a.meta (record dep.meta { labels = app_labels a.meta.name }))
        λ meta. ok (written_deployment r a image limits meta dep)

  -- The mutate function of the Service.
  unfoldable pub mutate_service : App → Service → Result (Err K.Error) Service
  mutate_service a svc =
      and_then (set_owner K app a.meta (record svc.meta { labels = app_labels a.meta.name }))
        λ meta. ok (written_service a meta svc)

  unfoldable pub set_phase : App → String → Io K ReconcileResult
  set_phase a phase = if a.status.phase == phase then pure done else do
    update_object_status K app (record a { status = record a.status { phase = phase } })
    pure done

  -- The status that Reconcile writes.
  abbrev pub running_status : App → String → ℤ → AppStatus
  running_status a image ready = record {
    phase = phase_of ready;
    image = image;
    url = app_url a.meta.name;
    ready_replicas = ready;
    observed_generation = a.meta.generation;
  }

  unfoldable pub deploy : AppReconciler → App → String → Io K ReconcileResult
  unfolding ◌>>=◌
  deploy r a image = do
    let start = named a.meta.namespace a.meta.name
    dep ←
        on_error (wrap "deployment")
          (ensure K deployment (fresh_deployment start) (mutate_deployment r a image))
    on_error (wrap "service") (ensure K service (fresh_service start) (mutate_service a))
    update_object_status K app (record a { status = running_status a image dep.ready_replicas })
    pure done

  -- What Reconcile does with the newest release.
  unfoldable pub roll_out : AppReconciler → App → Option Release → Io K ReconcileResult
  roll_out r a none = set_phase a "NoRelease"
  roll_out r a (some newest) = deploy r a (normalize_image newest.spec.image)

  -- Reconcile after its Get.
  unfoldable pub reconcile_app : AppReconciler → App → Io K ReconcileResult
  unfolding ◌>>=◌ newest_from
  reconcile_app r a = do
    releases ← list K release (record { namespace = some a.meta.namespace; matching_labels = [] })
    roll_out r a (newest_from a.meta.name none releases)

  abbrev pub found : AppReconciler → Result (Err K.Error) App → Io K ReconcileResult
  found r (ok a) = reconcile_app r a
  found r (err e) = returns K done (ignore_not_found K e)

  unfoldable pub reconcile : AppReconciler → NamespacedName → Io K ReconcileResult
  unfolding ◌>>=◌ reconcile_app
  reconcile r req = do got ← try (get K app req); found r got

-- releaseToApp: the App that a changed Release enqueues.
unfoldable pub release_to_app : Release → List NamespacedName
release_to_app rel = record { namespace = rel.meta.namespace; name = rel.spec.app } ∷ []
