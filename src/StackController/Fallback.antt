-- ===== src/StackController/Fallback.antt =====
-- reconcileFallback of stack_controller.go: a backing that is in no catalog, from the tenant's image.
pub mod Writing
use paas_controlplane.Base.{
  [], ◌∷◌, true, false, Option, none, some, pos, is_pos, is_zero, itoa, insert, ◌⧺◌, ◌==◌,
  if◌then◌else◌, Result, ok, and_then,
}
use paas_controlplane.Api.{Stack, BackingSpec, Meta, named}
use paas_controlplane.Kube.{
  Kube, Io, Err, wrap, msg, DataObject, Service, StatefulSet, Container, Quantity, DataSource,
  ResourceRequirements, secret, service, stateful_set, stack, set_owner, ensure, on_error, pure,
  raise, must_parse_quantity, fresh_data, fresh_service, fresh_stateful_set, ◌>>=◌, ◌>>◌,
}
use paas_controlplane.Overcommit.{apply_scheduler}
use paas_controlplane.AppController.{hardened, normalize_image}
use paas_controlplane.EnvironmentController.{or_default}
use paas_controlplane.StackController.Setup.{StackReconciler, tolerations}
use paas_controlplane.StackController.Buckets.{Provisioned, backing_name_for}
use paas_controlplane.StackController.Volumes.{
  backing_labels, host_of, written_headless, claim_once, Origin, empty, restored, awaited,
  fixed_resources, clone_origin, mark_for_backup,
}

unfoldable pub written_secret : Stack → BackingSpec → Meta → DataObject → DataObject
unfolding insert
written_secret st b meta o = record {
  meta = meta;
  entries =
      insert "endpoint" (host_of st b ⧺ ":" ⧺ itoa b.port)
        (insert "port" (itoa b.port) (insert "host" (host_of st b) o.entries));
}

abbrev pub fallback_container : BackingSpec → ResourceRequirements → Container
fallback_container b limits = record {
  name = "backing";
  image = normalize_image b.image;
  image_pull_policy = "IfNotPresent";
  command = [];
  args = [];
  env = [];
  ports = record { container_port = b.port; name = "svc" } ∷ [];
  resources = some limits;
  volume_mounts = record { name = "data"; mount_path = "/data" } ∷ [];
  security_context = hardened;
}

unfoldable pub written_set :
    StackReconciler
    → Stack
    → BackingSpec
    → ResourceRequirements
    → Option DataSource
    → Quantity
    → Meta
    → StatefulSet
    → StatefulSet
unfolding tolerations apply_scheduler claim_once
written_set r st b limits source disk meta ss =
    let labels = backing_labels st b in
    let pod =
      apply_scheduler
        (record ss.pod {
          automount_service_account_token = some false;
          tolerations = tolerations r;
        })
        r.scheduler_name in
    record (claim_once true source disk ss) {
      meta = meta;
      service_name = backing_name_for st b;
      replicas = some (pos 1);
      selector = labels;
      template_labels = labels;
      pod = record pod { containers = fallback_container b limits ∷ [] };
    }

module _ (K : Kube) where
  unfoldable pub mutate_secret : Stack → BackingSpec → DataObject → Result (Err K.Error) DataObject
  mutate_secret st b o =
      and_then (set_owner K stack st.meta o.meta) λ meta. ok (written_secret st b meta o)

  unfoldable pub mutate_headless : Stack → BackingSpec → Service → Result (Err K.Error) Service
  mutate_headless st b o =
      and_then (set_owner K stack st.meta (record o.meta { labels = backing_labels st b }))
        λ meta. ok (written_headless st b "svc" b.port meta o)

  -- The quantity of the disk is parsed only where the claim templates are made.
  abbrev pub disk_for : BackingSpec → StatefulSet → Result (Err K.Error) Quantity
  disk_for b ss =
      if ss.meta.uid == ""
      then must_parse_quantity K (or_default b.disk "1Gi")
      else ok (Quantity.must_parse "")

  unfoldable pub mutate_set :
      StackReconciler
      → Stack
      → BackingSpec
      → Option DataSource
      → StatefulSet
      → Result (Err K.Error) StatefulSet
  unfolding fixed_resources or_default
  mutate_set r st b source ss = and_then (fixed_resources K "500m" "512Mi" r.tier) λ limits.
      and_then (disk_for b ss) λ disk.
        and_then (set_owner K stack st.meta (record ss.meta { labels = backing_labels st b }))
          λ meta. ok (written_set r st b limits source disk meta ss)

  unfoldable pub run_set :
      StackReconciler → Stack → BackingSpec → Option DataSource → Io K Provisioned
  unfolding ◌>>=◌ mutate_set mark_for_backup
  run_set r st b source = do
    let name = backing_name_for st b
    ss ← on_error (wrap "fallback statefulset") (
        ensure K stateful_set (fresh_stateful_set (named st.meta.namespace name))
          (mutate_set r st b source))
    mark_for_backup K true st b
    pure (record { ready = is_pos ss.ready_replicas; secret_name = name; pending = false })

  abbrev pub run_from : StackReconciler → Stack → BackingSpec → Origin → Io K Provisioned
  run_from r st b empty = run_set r st b none
  run_from r st b (restored source) = run_set r st b (some source)
  run_from r st b awaited =
      pure (record { ready = false; secret_name = backing_name_for st b; pending = true })

  unfoldable pub run_fallback : StackReconciler → Stack → BackingSpec → Io K Provisioned
  unfolding ◌>>=◌ mutate_secret mutate_headless clone_origin run_set
  run_fallback r st b = do
    let start = named st.meta.namespace (backing_name_for st b)
    on_error (wrap "fallback secret") (ensure K secret (fresh_data start) (mutate_secret st b))
    on_error (wrap "fallback service")
        (ensure K service (fresh_service start) (mutate_headless st b))
    origin ← clone_origin K true st b
    run_from r st b origin

  -- The name is quoted by %q, which for a name of letters, digits and dashes adds quotation marks.
  unfoldable pub reconcile_fallback : StackReconciler → Stack → BackingSpec → Io K Provisioned
  unfolding run_fallback
  reconcile_fallback r st b =
      if is_zero b.port
      then raise (msg ("fallback backing \"" ⧺ b.name ⧺ "\" needs a port"))
      else run_fallback r st b
