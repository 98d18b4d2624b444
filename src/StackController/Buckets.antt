-- ===== src/StackController/Buckets.antt =====
-- Object storage, stack_controller.go: ensureBucket and reconcileObject.
use paas_controlplane.Base.{
  String, Bool, true, false, ◌⧺◌, ◌==◌, if◌then◌else◌, Result, ok, err, and_then, value_at,
}
use paas_controlplane.Api.{Stack, BackingSpec, Meta, named}
use paas_controlplane.Kube.{
  Kube, Io, Err, wrap, BucketClaim, DataObject, bucket_claim, config_map, stack, set_owner, get,
  ensure, try, on_error, pure, returns, ignore_not_found, fresh_bucket_claim, ◌>>=◌,
}
use paas_controlplane.StackController.Setup.{StackReconciler}

-- What ensureBucket returns beside the error.
pub record Bucket : Type 0 where
  pub bound : Bool
  pub bucket_name : String

abbrev pub no_bucket : Bucket
no_bucket = record { bound = false; bucket_name = "" }

-- What a reconcile of one backing returns beside the error.
pub record Provisioned : Type 0 where
  pub ready : Bool
  pub secret_name : String
  pub pending : Bool

abbrev pub backing_name_for : Stack → BackingSpec → String
backing_name_for st b = st.meta.name ⧺ "-" ⧺ b.name

unfoldable pub written_claim : StackReconciler → String → Meta → BucketClaim → BucketClaim
written_claim r obc_name meta o = record o {
  meta = meta;
  generate_bucket_name = obc_name;
  storage_class_name = r.object_storage_class;
}

module _ (K : Kube) where
  unfoldable pub mutate_claim :
      StackReconciler → Stack → String → BucketClaim → Result (Err K.Error) BucketClaim
  mutate_claim r st obc_name o =
      and_then (set_owner K stack st.meta o.meta) λ meta. ok (written_claim r obc_name meta o)

  abbrev pub from_config_map : Result (Err K.Error) DataObject → Io K Bucket
  from_config_map (ok cm) =
      pure (record { bound = true; bucket_name = value_at "BUCKET_NAME" cm.entries })
  from_config_map (err e) = returns K no_bucket (ignore_not_found K e)

  unfoldable pub bucket_of : Stack → String → Io K Bucket
  unfolding ◌>>=◌ value_at
  bucket_of st obc_name = do
    got ← try (get K config_map (record { namespace = st.meta.namespace; name = obc_name }))
    from_config_map got

  abbrev pub after_claim : Stack → String → BucketClaim → Io K Bucket
  after_claim st obc_name obc =
      if obc.phase == "Bound" then bucket_of st obc_name else pure no_bucket

  unfoldable pub ensure_bucket : StackReconciler → Stack → String → Io K Bucket
  unfolding ◌>>=◌ bucket_of mutate_claim
  ensure_bucket r st obc_name = do
    obc ← on_error (wrap ("objectbucketclaim " ⧺ obc_name)) (
        ensure K bucket_claim (fresh_bucket_claim (named st.meta.namespace obc_name))
          (mutate_claim r st obc_name))
    after_claim st obc_name obc

  unfoldable pub reconcile_object : StackReconciler → Stack → BackingSpec → Io K Provisioned
  unfolding ◌>>=◌ ensure_bucket
  reconcile_object r st b = do
    bucket ← ensure_bucket r st (backing_name_for st b)
    pure (record { ready = bucket.bound; secret_name = backing_name_for st b; pending = false })
