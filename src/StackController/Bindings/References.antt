-- ===== src/StackController/Bindings/References.antt =====
-- The credentials of a backing reach its consumer by reference, stack_controller.go and servicedef.go.
use paas_controlplane.Base.{
  String, List, [], ◌∷◌, map, ◌≡◌, All, ◌==◌, Bool-cases, inl, inr, refl, Dict, ◌⊎◌, ◌||◌,
}
use paas_controlplane.Kube.{ContainerEnv, EnvSource, literal, secret_key_ref, config_map_key_ref}
use paas_controlplane.ServiceDefs.{
  ServiceDefinition, from_secret, container_env_from, templated_env, sorted_keys,
}
use paas_controlplane.StackController.Setup.{StackReconciler}
use paas_controlplane.StackController.Bindings.{postgres_env, object_env, fallback_env}

-- The variable takes its value from a key of the Secret.
abbrev pub IsFrom : String → ContainerEnv → Type 0
IsFrom secret e = (key : String) × (e.source ≡ secret_key_ref secret key)

-- A text that is no secret: the endpoint of the object store or its region; or a reference to the object of the name.
abbrev pub IsOpen : StackReconciler → String → EnvSource → Type 0
IsOpen r name (literal v) = (v ≡ r.object_endpoint) ⊎ (v ≡ "us-east-1")
IsOpen r name (secret_key_ref s key) = s ≡ name
IsOpen r name (config_map_key_ref s key) = s ≡ name

postgres_env-IsFrom : (secret as_name : String) → All (IsFrom secret) (postgres_env secret as_name)
unfolding postgres_env
postgres_env-IsFrom secret as_name =
    ((_, refl), ((_, refl), ((_, refl), ((_, refl), ((_, refl), ((_, refl), tt))))))

fallback_env-IsFrom : (secret as_name : String) → All (IsFrom secret) (fallback_env secret as_name)
unfolding fallback_env
fallback_env-IsFrom secret as_name = elim (Bool-cases (as_name == "")) [
  | inl e ↦ rw (e, All) ((_, refl), ((_, refl), tt))
  | inr e ↦ rw (e, All) ((_, refl), ((_, refl), ((_, refl), tt)))
]

map-IsFrom :
    (secret : String) (key : String → String) (names : List String)
    → All (IsFrom secret) (map (λ name. from_secret secret name (key name)) names)
map-IsFrom secret key [] = tt
map-IsFrom secret key (name ∷ names) = ((key name, refl), map-IsFrom secret key names)

container_env_from-IsFrom :
    (secret : String) (m : Dict String) → All (IsFrom secret) (container_env_from m secret)
unfolding container_env_from
container_env_from-IsFrom secret m = map-IsFrom secret _ (sorted_keys m)

templated_env-IsFrom :
    (def : ServiceDefinition) (secret as_name : String)
    → All (IsFrom secret) (templated_env def secret as_name)
unfolding templated_env
templated_env-IsFrom def secret as_name = elim (Bool-cases (as_name == "")) [
  | inl e ↦ rw (e, All) (container_env_from-IsFrom secret def.binding.extra)
  | inr e ↦ rw (e, All) ((_, refl), container_env_from-IsFrom secret def.binding.extra)
]

object_env-IsOpen :
    (r : StackReconciler) (name as_name : String)
    → All (λ e. IsOpen r name e.source) (object_env r name as_name)
unfolding object_env
object_env-IsOpen r name as_name =
    elim (Bool-cases ((as_name == "") || (as_name == "S3_ENDPOINT"))) [
      | inl e ↦
          rw (e, All) (inl refl, (refl, (inr refl, (inr refl, (refl, (refl, (refl, (refl, tt))))))))
      | inr e ↦
          rw (e, All)
            (
              inl refl,
              (inl refl, (refl, (inr refl, (inr refl, (refl, (refl, (refl, (refl, tt)))))))),
            )
    ]

-- Every variable that a connection to a postgres, a fallback or a template-backed service gives its consumer is a reference
-- to the backing's Secret, and those of an object store are references to the Secret or the
-- ConfigMap of the bucket, or the endpoint or the region: no credential is written into the
-- consumer's Deployment.
pub bindings_are_references :
    (r : StackReconciler) (def : ServiceDefinition) (secret as_name : String)
    → All (IsFrom secret) (postgres_env secret as_name)
      × All (IsFrom secret) (fallback_env secret as_name)
      × All (IsFrom secret) (templated_env def secret as_name)
      × All (λ e. IsOpen r secret e.source) (object_env r secret as_name)
bindings_are_references r def secret as_name = (
  postgres_env-IsFrom secret as_name,
  fallback_env-IsFrom secret as_name,
  templated_env-IsFrom def secret as_name,
  object_env-IsOpen r secret as_name,
)
