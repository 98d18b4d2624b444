-- ===== src/Tests/Catalogs.antt =====
-- The catalog of template-backed services on two descriptors.
use paas_controlplane.Base.{
  List, false, ends_with, String, [], ◌∷◌, map, ◌≡◌, refl, none, some, true, pos, Result, ok, err,
  Dict, if◌then◌else◌, ◌==◌, All,
}
use mathlib.Core.List.Perm
use paas_controlplane.Api.{named}
use paas_controlplane.Kube.{Cluster, get, config_map}
use paas_controlplane.StackController.Bindings.{postgres_env, object_env, fallback_env}
use paas_controlplane.StackController.Bindings.References.{IsFrom, IsOpen, bindings_are_references}
use paas_controlplane.ServiceDefs.{
  ServiceDefinition, ServiceCatalog, empty_catalog, register, lookup_type, parse_service_def,
  overlay, catalog, templated_env,
}
use paas_controlplane.ServiceDefs.Lookup.{
  definition_of, or_else, last_named, documents, catalog_lem,
}
use paas_controlplane.CatalogApi.{entries, upper_snake}
use paas_controlplane.Api.{BackingSpec}
use paas_controlplane.CatalogApi.Known.{all}
use paas_controlplane.CatalogApi.Provided.{provided, entries-provided}
use paas_controlplane.ServiceDefs.{BuiltinFile, load_builtin_catalog, merge}
use paas_controlplane.Tests.Memory.{nothing, put, memory, cluster}
use paas_controlplane.Tests.Stacks.{controller}

abbrev pub valkey : ServiceDefinition
valkey = record {
  engine = "valkey";
  aliases = "Redis" ∷ [];
  image = "valkey:8";
  default_version = "8";
  port = pos 6379;
  port_name = "redis";
  command = [];
  args = [];
  generate_password = true;
  container_env = [];
  persistence = none;
  security = none;
  resources = record { cpu_limit = ""; memory_limit = "" };
  secret_values = [];
  binding = record {
    primary_key = "url";
    extra = ("REDIS_PORT", "port") ∷ ("REDIS_HOST", "host") ∷ [];
  };
}

-- A later descriptor of the same type, without the alias.
abbrev newer : ServiceDefinition
newer = record valkey { aliases = []; image = "valkey:9" }

abbrev pub unmarshal : String → Result String ServiceDefinition
unmarshal doc = if doc == "newer" then ok newer else err "yaml: bad"

abbrev pub builtins : ServiceCatalog
builtins = register valkey empty_catalog

abbrev docs : Dict String
docs = ("broken", "x") ∷ ("cache", "newer") ∷ []

by_alias : definition_of builtins "REDIS" ≡ some valkey
unfolding definition_of register lookup_type
by_alias = refl

-- The type is the new definition's, while the alias still finds the builtin one.
overridden :
    (definition_of (overlay unmarshal builtins docs) "valkey" ≡ some newer)
    × (definition_of (overlay unmarshal builtins docs) "redis" ≡ some valkey)
unfolding definition_of overlay parse_service_def register lookup_type
overridden = (refl, refl)

-- So Entries lists the type twice.
twice :
    map (λ e. e.engine) (entries (λ m. m) (overlay unmarshal builtins docs))
    ≡ "object" ∷ "postgres" ∷ "valkey" ∷ "valkey" ∷ []
unfolding entries overlay parse_service_def register
twice = refl

abbrev configured : Cluster memory
configured = cluster (
    put config_map (record { meta = named "paas-system" "paas-servicedefs"; entries = docs })
      nothing)

catalog_lem_example :
    (c : ServiceCatalog) × ((catalog unmarshal memory (λ m. m) builtins "paas-system" configured).0
      ≡ ok c)
    × ((catalog unmarshal memory (λ m. m) builtins "paas-system" configured).1.calls ≡ [])
    × ((t : String)
        → definition_of c t
          ≡ or_else
              (last_named unmarshal
                (documents unmarshal memory
                  (λ m. m)
                  (get memory config_map
                    (record { namespace = "paas-system"; name = "paas-servicedefs" })
                    configured).0)
                t)
              (definition_of builtins t))
catalog_lem_example = catalog_lem unmarshal memory (λ m. m) builtins "paas-system" configured

bindings_are_references_example :
    All (IsFrom "s") (postgres_env "s" "DATABASE_URL")
    × All (IsFrom "s") (fallback_env "s" "DATABASE_URL")
    × All (IsFrom "s") (templated_env valkey "s" "DATABASE_URL")
    × All (λ e. IsOpen controller "s" e.source) (object_env controller "s" "DATABASE_URL")
bindings_are_references_example = bindings_are_references controller valkey "s" "DATABASE_URL"

snake : upper_snake "my-db2é" ≡ "MY_DB2__"
unfolding upper_snake
snake = refl

abbrev folder : List BuiltinFile
folder =
    record { name = "README.md"; is_dir = false; contents = ok "" }
    ∷ record { name = "valkey.yaml"; is_dir = false; contents = ok "newer" }
    ∷ []

abbrev loaded : ServiceCatalog
loaded = register newer empty_catalog

abbrev asked_for : BackingSpec
asked_for = record {
  name = "cache";
  engine = "";
  version = "";
  disk = "";
  plan = "";
  image = "";
  port = pos 0;
  backup = false;
}

entries-provided_example :
    all
      (λ e.
        provided
          (merge unmarshal memory
            (λ m. m)
            loaded
            (get memory config_map
              (record { namespace = "paas-system"; name = "paas-servicedefs" })
              configured).0)
          asked_for
          e.engine)
      (entries (λ m. m) loaded)
    ≡ true
unfolding load_builtin_catalog parse_service_def ends_with
entries-provided_example =
    entries-provided unmarshal (ok folder) loaded memory (λ m. m)
      (get memory config_map (record { namespace = "paas-system"; name = "paas-servicedefs" })
        configured).0
      (λ m. m) asked_for refl (λ m. Perm.refl m)
