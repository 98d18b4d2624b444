-- ===== src/StackController/Bindings.antt =====
-- The env that a connection to a backing service gives its consumer, stack_controller.go.
pub mod References
use paas_controlplane.Base.{String, List, [], ◌∷◌, ◌++◌, ◌==◌, ◌||◌, if◌then◌else◌}
use paas_controlplane.Kube.{ContainerEnv, EnvSource, literal, secret_key_ref, config_map_key_ref}
use paas_controlplane.StackController.Setup.{StackReconciler}

abbrev pub secret_ref : String → String → EnvSource
secret_ref name key = secret_key_ref name key

abbrev pub env_var : String → EnvSource → ContainerEnv
env_var name source = record { name = name; source = source }

unfoldable pub postgres_env : String → String → List ContainerEnv
postgres_env secret as_name =
    env_var as_name (secret_ref secret "uri")
    ∷ env_var "PGHOST" (secret_ref secret "host")
    ∷ env_var "PGPORT" (secret_ref secret "port")
    ∷ env_var "PGDATABASE" (secret_ref secret "dbname")
    ∷ env_var "PGUSER" (secret_ref secret "user")
    ∷ env_var "PGPASSWORD" (secret_ref secret "password")
    ∷ []

abbrev region : String
region = "us-east-1"

unfoldable pub object_env : StackReconciler → String → String → List ContainerEnv
object_env r name as_name =
    let out =
      if (as_name == "") || (as_name == "S3_ENDPOINT")
      then []
      else env_var as_name (literal r.object_endpoint) ∷ [] in
    out
    ++ (env_var "S3_ENDPOINT" (literal r.object_endpoint)
        ∷ env_var "S3_BUCKET" (config_map_key_ref name "BUCKET_NAME")
        ∷ env_var "S3_REGION" (literal region)
        ∷ env_var "AWS_DEFAULT_REGION" (literal region)
        ∷ env_var "S3_ACCESS_KEY_ID" (secret_ref name "AWS_ACCESS_KEY_ID")
        ∷ env_var "S3_SECRET_ACCESS_KEY" (secret_ref name "AWS_SECRET_ACCESS_KEY")
        ∷ env_var "AWS_ACCESS_KEY_ID" (secret_ref name "AWS_ACCESS_KEY_ID")
        ∷ env_var "AWS_SECRET_ACCESS_KEY" (secret_ref name "AWS_SECRET_ACCESS_KEY")
        ∷ [])

unfoldable pub fallback_env : String → String → List ContainerEnv
fallback_env secret as_name =
    let out = if as_name == "" then [] else env_var as_name (secret_ref secret "endpoint") ∷ [] in
    out
    ++ (env_var "FALLBACK_HOST" (secret_ref secret "host")
        ∷ env_var "FALLBACK_PORT" (secret_ref secret "port")
        ∷ [])
