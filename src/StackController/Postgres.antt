-- ===== src/StackController/Postgres.antt =====
-- reconcilePostgres of stack_controller.go and what it calls: the CloudNativePG cluster of a backing,
-- its backup, and its recovery from the backup of a parent.
pub mod Bootstrap
use paas_controlplane.Base.{
  String, [], ◌∷◌, Bool, true, false, not, ◌&&◌, ◌||◌, Option, none, some, Dict, pos, is_pos,
  insert, value_at, ◌⧺◌, ◌==◌, if◌then◌else◌, Result, ok, err, and_then,
}
use paas_controlplane.Api.{Stack, BackingSpec, Meta, named}
use paas_controlplane.Kube.{
  Kube, Io, Err, wrap, DataObject, CnpgCluster, ScheduledBackup, S3Credentials, cnpg_cluster,
  scheduled_backup, config_map, secret, stack, set_owner, get, ensure, try, on_error, pure, returns,
  ignore_not_found, succeeds, fresh_cnpg_cluster, fresh_scheduled_backup, fresh_data, ◌>>=◌, ◌>>◌,
}
use paas_controlplane.AppController.{control_plane_toleration}
use paas_controlplane.EnvironmentController.{or_default}
use paas_controlplane.CatalogApi.{pg_default_version}
use paas_controlplane.StackController.Setup.{StackReconciler}
use paas_controlplane.StackController.Buckets.{
  Bucket, no_bucket, Provisioned, backing_name_for, ensure_bucket,
}

abbrev pub pg_image_repo : String
pg_image_repo = "registry.local/cloudnative-pg/postgresql"

-- What cloneSource returns where it is ok.
pub record CloneSource : Type 0 where
  pub parent_ns : String
  pub parent_cluster : String

unfoldable pub clone_source : Stack → BackingSpec → Option CloneSource
unfolding value_at
clone_source st b =
    let ns = value_at "paas.sh/clone-from-namespace" st.meta.annotations in
    let parent_stack = value_at "paas.sh/clone-from-stack" st.meta.annotations in
    if not b.backup
    then none
    else if (ns == "") || (parent_stack == "")
    then none
    else some (record { parent_ns = ns; parent_cluster = parent_stack ⧺ "-" ⧺ b.name })

-- The variables of a clone that is made now: the source, the parent's bucket and the Secret with the
-- copied credentials.
pub record Seed : Type 0 where
  pub source : CloneSource
  pub bucket : String
  pub creds : String

abbrev pub aws_credentials : String → S3Credentials
aws_credentials name = record {
  access_key_id = record { name = name; key = "AWS_ACCESS_KEY_ID" };
  secret_access_key = record { name = name; key = "AWS_SECRET_ACCESS_KEY" };
}

abbrev pub seeded : StackReconciler → Seed → CnpgCluster → CnpgCluster
seeded r seed cl = record cl {
  recovery_source = some seed.source.parent_cluster;
  external_clusters =
      record {
        name = seed.source.parent_cluster;
        destination_path = "s3://" ⧺ seed.bucket;
        endpoint_url = r.object_endpoint;
        server_name = seed.source.parent_cluster;
        s3_credentials = aws_credentials seed.creds;
        wal_compression = "gzip";
      }
      ∷ [];
}

abbrev pub initial : CnpgCluster → CnpgCluster
initial cl = record cl { init_db = some (record { database = "app"; owner = "app" }) }

abbrev seed_or_init : StackReconciler → Option Seed → CnpgCluster → CnpgCluster
seed_or_init r none cl = initial cl
seed_or_init r (some seed) cl = if seed.bucket == "" then initial cl else seeded r seed cl

-- The bootstrap, set only where the cluster has no UID yet.
unfoldable pub bootstrap : StackReconciler → Option Seed → CnpgCluster → CnpgCluster
bootstrap r seed cl = if cl.meta.uid == "" then seed_or_init r seed cl else cl

unfoldable pub archive : StackReconciler → String → Bucket → CnpgCluster → CnpgCluster
archive r name own cl =
    if own.bound
    then record cl {
      barman_object_store = some (record {
        destination_path = "s3://" ⧺ own.bucket_name;
        endpoint_url = r.object_endpoint;
        s3_credentials = aws_credentials (name ⧺ "-backup");
        wal_compression = "gzip";
        data_compression = "gzip";
        immediate_checkpoint = true;
      });
      retention_policy = "30d";
    }
    else cl

unfoldable pub tolerate : StackReconciler → CnpgCluster → CnpgCluster
tolerate r cl =
    if r.tolerate_control_plane
    then record cl { tolerations = control_plane_toleration ∷ [] }
    else cl

abbrev pub sized : BackingSpec → CnpgCluster → CnpgCluster
sized b cl = record cl {
  instances = pos 1;
  storage_size = or_default b.disk "1Gi";
  storage_class = "ceph-block";
  image_name = pg_image_repo ⧺ ":" ⧺ or_default b.version pg_default_version;
}

-- What the mutate function makes of the cluster before its owner is set.
unfoldable pub written_cluster :
    StackReconciler → BackingSpec → String → Option Seed → Bucket → CnpgCluster → CnpgCluster
unfolding bootstrap archive tolerate or_default
written_cluster r b name seed own cl =
    tolerate r (archive r name own (bootstrap r seed (sized b cl)))

abbrev pub written_backup : String → Meta → ScheduledBackup → ScheduledBackup
written_backup cluster_name meta o = record o {
  meta = meta;
  schedule = "0 0 3 * * *";
  immediate = true;
  backup_owner_reference = "self";
  cluster_name = cluster_name;
}

abbrev pub copied_creds : DataObject → Meta → DataObject → DataObject
copied_creds src meta o = record {
  meta = meta;
  entries =
      insert "AWS_SECRET_ACCESS_KEY" (value_at "AWS_SECRET_ACCESS_KEY" src.entries)
        (insert "AWS_ACCESS_KEY_ID" (value_at "AWS_ACCESS_KEY_ID" src.entries) o.entries);
}

module _ (K : Kube) where
  unfoldable pub mutate_cluster :
      StackReconciler
      → Stack
      → BackingSpec
      → String
      → Option Seed
      → Bucket
      → CnpgCluster
      → Result (Err K.Error) CnpgCluster
  unfolding written_cluster
  mutate_cluster r st b name seed own cl =
      and_then (set_owner K stack st.meta cl.meta)
        λ meta. ok (record (written_cluster r b name seed own cl) { meta = meta })

  -- The pair (recoverable, bucket) of parentRecoverable.
  abbrev pub from_bucket_map : Result (Err K.Error) DataObject → Io K Bucket
  from_bucket_map (ok cm) =
      let bucket = value_at "BUCKET_NAME" cm.entries in
      pure (record { bound = not (bucket == ""); bucket_name = bucket })
  from_bucket_map (err e) = returns K no_bucket (ignore_not_found K e)

  unfoldable pub parent_bucket : String → String → Io K Bucket
  unfolding ◌>>=◌ value_at
  parent_bucket ns cluster = do
    got ← try (get K config_map (record { namespace = ns; name = cluster ⧺ "-backup" }))
    from_bucket_map got

  abbrev is_empty : Dict String → Bool
  is_empty [] = true
  is_empty (e ∷ es) = false

  abbrev pub from_parent : String → String → Result (Err K.Error) CnpgCluster → Io K Bucket
  from_parent ns cluster (ok pc) =
      if pc.first_recoverability_point == "" && is_empty pc.first_recoverability_point_by_method
      then pure no_bucket
      else parent_bucket ns cluster
  from_parent ns cluster (err e) = returns K no_bucket (ignore_not_found K e)

  unfoldable pub parent_recoverable : String → String → Io K Bucket
  unfolding ◌>>=◌ parent_bucket
  parent_recoverable ns cluster = do
    got ← try (get K cnpg_cluster (record { namespace = ns; name = cluster }))
    from_parent ns cluster got

  unfoldable pub copy_backup_creds : Stack → String → String → String → Io K (Unit {0})
  unfolding ◌>>=◌ insert value_at
  copy_backup_creds st src_ns src_name dst_name = do
    src ← get K secret (record { namespace = src_ns; name = src_name })
    ensure K secret (fresh_data (named st.meta.namespace dst_name))
        (λ o. and_then (set_owner K stack st.meta o.meta) λ meta. ok (copied_creds src meta o))
    pure tt

  unfoldable pub ensure_scheduled_backup : Stack → String → Io K (Unit {0})
  unfolding ◌>>=◌
  ensure_scheduled_backup st cluster_name = do
    on_error (wrap ("scheduledbackup " ⧺ cluster_name)) (
        ensure K scheduled_backup (fresh_scheduled_backup (named st.meta.namespace cluster_name))
          (λ o.
            and_then (set_owner K stack st.meta o.meta)
              λ meta. ok (written_backup cluster_name meta o)))
    pure tt

  abbrev pub backup_if : Bool → Stack → String → Io K (Unit {0})
  backup_if true st name = ensure_scheduled_backup st name
  backup_if false st name = pure tt

  abbrev pub own_bucket : Bool → StackReconciler → Stack → String → Io K Bucket
  own_bucket true r st name = ensure_bucket K r st (name ⧺ "-backup")
  own_bucket false r st name = pure no_bucket

  -- The part of reconcilePostgres from the own backups on; `want_own_backup` and the seed are what
  -- came before.
  unfoldable pub ensure_cluster :
      StackReconciler → Stack → BackingSpec → Bool → Option Seed → Io K Provisioned
  unfolding ◌>>=◌ ensure_bucket mutate_cluster ensure_scheduled_backup
  ensure_cluster r st b want_own_backup seed = do
    let name = backing_name_for st b
    own ← own_bucket want_own_backup r st name
    cl ← on_error (wrap ("cnpg cluster " ⧺ name)) (
        ensure K cnpg_cluster (fresh_cnpg_cluster (named st.meta.namespace name))
          (mutate_cluster r st b name seed own))
    backup_if own.bound st name
    pure (record {
      ready = is_pos cl.ready_instances;
      secret_name = name ⧺ "-app";
      pending = want_own_backup && not own.bound;
    })

  -- A clone that does not exist yet, with what parentRecoverable returned.
  abbrev pub seed_clone :
      StackReconciler → Stack → BackingSpec → CloneSource → Bucket → Io K Provisioned
  seed_clone r st b source parent =
      let name = backing_name_for st b in
      let creds = name ⧺ "-clone-src" in
      if parent.bound
      then (do
        on_error (wrap "copy clone creds")
            (copy_backup_creds st source.parent_ns (source.parent_cluster ⧺ "-backup") creds)
        ensure_cluster r st b false
            (some (record { source = source; bucket = parent.bucket_name; creds = creds })))
      else pure (record { ready = false; secret_name = name ⧺ "-app"; pending = true })

  unfoldable pub first_clone :
      StackReconciler → Stack → BackingSpec → CloneSource → Io K Provisioned
  unfolding ◌>>=◌ parent_recoverable copy_backup_creds ensure_cluster
  first_clone r st b source = do
    parent ← parent_recoverable source.parent_ns source.parent_cluster
    seed_clone r st b source parent

  abbrev pub by_source :
      StackReconciler → Stack → BackingSpec → Option CloneSource → Bool → Io K Provisioned
  by_source r st b none exists = ensure_cluster r st b b.backup none
  by_source r st b (some source) true = ensure_cluster r st b false none
  by_source r st b (some source) false = first_clone r st b source

  unfoldable pub reconcile_postgres : StackReconciler → Stack → BackingSpec → Io K Provisioned
  unfolding ◌>>=◌ clone_source first_clone ensure_cluster
  reconcile_postgres r st b = do
    got ← try (
        get K cnpg_cluster (record { namespace = st.meta.namespace; name = backing_name_for st b }))
    by_source r st b (clone_source st b) (succeeds got)
