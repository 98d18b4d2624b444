-- ===== src/ServiceDefs/Order.antt =====
-- The env of servicedef.go does not depend on the order in which Go ranges over a map.
use paas_controlplane.Base.{
  String, List, [], ◌∷◌, map, Dict, lookup, value_at, sort_strings-Perm, sort_strings, ◌≡◌, refl,
  ap, ◌∙◌,
}
use mathlib.Core.List.{Perm}
use paas_controlplane.ServiceDefs.{
  ServiceDefinition, keys, sorted_keys, from_secret, container_env_from, templated_env,
}

-- Two runs over one map: the same keys in some order, and the same entry under each key.
pub record SameMap (m n : Dict String) : Type 0 where
  pub same_keys : Perm (keys m) (keys n)
  pub same_entries : (k : String) → lookup k m ≡ lookup k n

value_at-same :
    (m n : Dict String) (k : String) → lookup k m ≡ lookup k n → value_at k m ≡ value_at k n
unfolding value_at
value_at-same m n k e = rw (value_at, e)

map-same :
    {A : Type 0} (f g : String → A) (xs : List String)
    → ((x : String) → f x ≡ g x)
    → map f xs ≡ map g xs
map-same f g [] e = refl
map-same f g (x ∷ xs) e = λ i. e x i ∷ map-same f g xs e i

container_env_from_order :
    (m n : Dict String) (secret : String)
    → SameMap m n
    → container_env_from m secret ≡ container_env_from n secret
unfolding container_env_from sorted_keys
container_env_from_order m n secret same =
    ap (map (λ name. from_secret secret name (value_at name m)))
      (sort_strings-Perm (keys m) (keys n) same.same_keys)
    ∙ map-same _ _ (sort_strings (keys n))
        (λ name. ap (from_secret secret name) (value_at-same m n name (same.same_entries name)))

-- The env of a connection to a template-backed service does not depend on the order in which Go
-- ranges over the binding's extra variables, so a reconcile does not rewrite the consumer's Deployment for it.
pub templated_env_order :
    (def : ServiceDefinition) (extra : Dict String) (secret as_name : String)
    → SameMap def.binding.extra extra
    → templated_env def secret as_name
      ≡ templated_env (record def { binding = record def.binding { extra = extra } }) secret as_name
unfolding templated_env
templated_env_order def extra secret as_name same =
    rw (container_env_from_order def.binding.extra extra secret same)
