-- ===== src/StackController/Templated.antt =====
-- reconcileTemplated of servicedef.go: the interpreter of the template tier. What text/template makes
-- of a template, the next random password and the order of a map are parameters.
pub mod Writing
use paas_controlplane.Base.{
  ℕ, String, List, [], ◌∷◌, Bool, true, false, ◌&&◌, Option, none, some, Dict, pos, is_pos, itoa,
  insert, value_at, hex_encode, ◌⧺◌, ◌==◌, if◌then◌else◌, Result, ok, err, and_then,
}
use paas_controlplane.Api.{Stack, BackingSpec, Meta, named}
use paas_controlplane.Kube.{
  Kube, Io, Err, wrap, wrapped, msg, DataObject, Service, StatefulSet, Container, VolumeMount,
  Quantity, DataSource, ResourceRequirements, secret, service, stateful_set, stack, set_owner,
  ensure, on_error, pure, raise, lift, must_parse_quantity, fresh_data, fresh_service,
  fresh_stateful_set, ◌>>=◌, ◌>>◌,
}
use paas_controlplane.Overcommit.{apply_scheduler}
use paas_controlplane.AppController.{hardened}
use paas_controlplane.EnvironmentController.{or_default}
use paas_controlplane.ServiceDefs.{
  ServiceDefinition, PersistenceSpec, container_env_from, pod_security_context,
}
use paas_controlplane.StackController.Setup.{StackReconciler, tolerations}
use paas_controlplane.StackController.Buckets.{Provisioned, backing_name_for}
use paas_controlplane.StackController.Volumes.{
  backing_labels, host_of, written_headless, claim_once, Origin, empty, restored, awaited,
  fixed_resources, clone_origin, mark_for_backup,
}

-- What the program takes from outside: renderTemplate's template engine, the 24 bytes that
-- crypto/rand gives randomPassword, and the order of a range over a map.
pub record Outside : Type 0 where
  pub render : String → Dict String → Result String String
  pub random_bytes : List ℕ
  pub iterate : Dict String → Dict String

abbrev pub is_persistent : Option PersistenceSpec → Bool
is_persistent none = false
is_persistent (some p) = true

abbrev mounts : Option PersistenceSpec → List VolumeMount
mounts none = []
mounts (some p) = record { name = "data"; mount_path = p.mount_path } ∷ []

abbrev default_disk : Option PersistenceSpec → String
default_disk none = ""
default_disk (some p) = p.default_disk

unfoldable pub random_password : Outside → String
unfolding hex_encode
random_password out = hex_encode out.random_bytes

-- The password of the Secret: one that is there stays.
unfoldable pub with_password : Outside → ServiceDefinition → Dict String → Dict String
unfolding insert value_at random_password
with_password out def entries =
    if def.generate_password && (value_at "password" entries == "")
    then insert "password" (random_password out) entries
    else entries

abbrev pub template_values : Stack → BackingSpec → ServiceDefinition → String → Dict String
template_values st b def pw =
    ("Host", host_of st b) ∷ ("Port", itoa def.port) ∷ ("Password", pw) ∷ []

unfoldable pub with_address : Stack → BackingSpec → ServiceDefinition → Dict String → Dict String
unfolding insert
with_address st b def entries = insert "port" (itoa def.port) (insert "host" (host_of st b) entries)

abbrev pub templated_container :
    ServiceDefinition → String → String → String → ResourceRequirements → Container
templated_container def name image port_name limits = record {
  name = def.engine;
  image = image;
  image_pull_policy = "IfNotPresent";
  command = def.command;
  args = def.args;
  env = container_env_from def.container_env name;
  ports = record { container_port = def.port; name = port_name } ∷ [];
  resources = some limits;
  volume_mounts = mounts def.persistence;
  security_context = hardened;
}

unfoldable pub written_set :
    StackReconciler
    → Stack
    → BackingSpec
    → ServiceDefinition
    → Container
    → Option DataSource
    → Quantity
    → Meta
    → StatefulSet
    → StatefulSet
unfolding tolerations apply_scheduler claim_once pod_security_context
written_set r st b def container source disk meta ss =
    let labels = backing_labels st b in
    let pod =
      apply_scheduler
        (record ss.pod {
          automount_service_account_token = some false;
          tolerations = tolerations r;
        })
        r.scheduler_name in
    record (claim_once (is_persistent def.persistence) source disk ss) {
      meta = meta;
      service_name = backing_name_for st b;
      replicas = some (pos 1);
      selector = labels;
      template_labels = labels;
      pod = record pod {
        security_context = pod_security_context def.security;
        containers = container ∷ [];
      };
    }

module _ (K : Kube) (out : Outside) where
  abbrev pub add_value :
      String → Dict String → Result String String → Result (Err K.Error) (Dict String)
  add_value k entries (ok v) = ok (insert k v entries)
  add_value k entries (err e) = err (wrapped ("secretValues[" ⧺ k ⧺ "]") (msg e))

  -- The loop over SecretValues.
  unfoldable pub with_values :
      Dict String → Dict String → Dict String → Result (Err K.Error) (Dict String)
  unfolding insert
  with_values tv [] entries = ok entries
  with_values tv ((k, tmpl) ∷ rest) entries =
      and_then (add_value k entries (out.render tmpl tv)) λ entries'. with_values tv rest entries'

  unfoldable pub secret_entries :
      Stack → BackingSpec → ServiceDefinition → Dict String → Result (Err K.Error) (Dict String)
  unfolding with_password with_address with_values value_at
  secret_entries st b def entries =
      let minted = with_password out def entries in
      with_values (template_values st b def (value_at "password" minted))
        (out.iterate def.secret_values) (with_address st b def minted)

  unfoldable pub mutate_secret :
      Stack → BackingSpec → ServiceDefinition → DataObject → Result (Err K.Error) DataObject
  unfolding secret_entries
  mutate_secret st b def o = and_then (secret_entries st b def o.entries) λ entries.
      and_then (set_owner K stack st.meta o.meta)
        λ meta. ok (record { meta = meta; entries = entries })

  unfoldable pub mutate_headless :
      Stack → BackingSpec → ServiceDefinition → Service → Result (Err K.Error) Service
  unfolding or_default
  mutate_headless st b def o =
      and_then (set_owner K stack st.meta (record o.meta { labels = backing_labels st b }))
        λ meta. ok (written_headless st b (or_default def.port_name def.engine) def.port meta o)

  -- The quantity of the disk is parsed only where the claim templates are made.
  abbrev pub disk_for :
      BackingSpec → ServiceDefinition → StatefulSet → Result (Err K.Error) Quantity
  disk_for b def ss =
      if is_persistent def.persistence && (ss.meta.uid == "")
      then must_parse_quantity K
          (or_default b.disk (or_default (default_disk def.persistence) "1Gi"))
      else ok (Quantity.must_parse "")

  unfoldable pub mutate_set :
      StackReconciler
      → Stack
      → BackingSpec
      → ServiceDefinition
      → Container
      → Option DataSource
      → StatefulSet
      → Result (Err K.Error) StatefulSet
  unfolding or_default
  mutate_set r st b def container source ss = and_then (disk_for b def ss) λ disk.
      and_then (set_owner K stack st.meta (record ss.meta { labels = backing_labels st b }))
        λ meta. ok (written_set r st b def container source disk meta ss)

  unfoldable pub run_set :
      StackReconciler
      → Stack
      → BackingSpec
      → ServiceDefinition
      → Container
      → Option DataSource
      → Io K Provisioned
  unfolding ◌>>=◌ mutate_set mark_for_backup
  run_set r st b def container source = do
    let name = backing_name_for st b
    ss ← on_error (wrap (def.engine ⧺ " statefulset")) (
        ensure K stateful_set (fresh_stateful_set (named st.meta.namespace name))
          (mutate_set r st b def container source))
    mark_for_backup K (is_persistent def.persistence) st b
    pure (record { ready = is_pos ss.ready_replicas; secret_name = name; pending = false })

  abbrev pub run_from :
      StackReconciler
      → Stack
      → BackingSpec
      → ServiceDefinition
      → Container
      → Origin
      → Io K Provisioned
  run_from r st b def container empty = run_set r st b def container none
  run_from r st b def container (restored source) = run_set r st b def container (some source)
  run_from r st b def container awaited =
      pure (record { ready = false; secret_name = backing_name_for st b; pending = true })

  -- Steps 1 and 2, and the container.
  unfoldable pub run_templated :
      StackReconciler → Stack → BackingSpec → ServiceDefinition → String → Io K Provisioned
  unfolding ◌>>=◌ mutate_secret mutate_headless clone_origin run_set fixed_resources or_default
  run_templated r st b def image = do
    let name = backing_name_for st b
    let start = named st.meta.namespace name
    on_error (wrap (def.engine ⧺ " secret"))
        (ensure K secret (fresh_data start) (mutate_secret st b def))
    on_error (wrap (def.engine ⧺ " service"))
        (ensure K service (fresh_service start) (mutate_headless st b def))
    limits ← lift (
        fixed_resources K (or_default def.resources.cpu_limit "100m")
          (or_default def.resources.memory_limit "256Mi") r.tier)
    origin ← clone_origin K (is_persistent def.persistence) st b
    run_from r st b def
        (templated_container def name image (or_default def.port_name def.engine) limits) origin

  abbrev pub with_image :
      StackReconciler
      → Stack
      → BackingSpec
      → ServiceDefinition
      → Result String String
      → Io K Provisioned
  with_image r st b def (ok image) = run_templated r st b def image
  with_image r st b def (err e) = raise (wrapped (def.engine ⧺ " image template") (msg e))

  unfoldable pub reconcile_templated :
      StackReconciler → Stack → BackingSpec → ServiceDefinition → Io K Provisioned
  unfolding run_templated or_default
  reconcile_templated r st b def =
      with_image r st b def
        (out.render def.image (("Version", or_default b.version def.default_version) ∷ []))
