-- ===== src/ServiceDefs.antt =====
-- internal/controller/servicedef.go: the catalog of template-backed services as data. The children
-- hold the proofs; what reconcileTemplated does with a descriptor is not here.
pub mod Lookup
pub mod Order
use paas_controlplane.Base.{
  ℕ, suc, String, List, [], ◌∷◌, map, Bool, Option, none, some, Dict, ℤ, is_zero, lookup, insert,
  value_at, to_lower, ends_with, sort_strings, ◌⧺◌, ◌==◌, ◌||◌, not, if◌then◌else◌, Result, ok, err,
}
use paas_controlplane.Kube.{
  Kube, Io, Err, ContainerEnv, secret_key_ref, PodSecurityContext, DataObject, config_map, get, try,
  pure, ◌>>=◌,
}

pub record PersistenceSpec : Type 0 where
  pub mount_path : String
  pub default_disk : String

pub record PodSecuritySpec : Type 0 where
  pub run_as_user : Option ℤ
  pub run_as_group : Option ℤ
  pub fs_group : Option ℤ
  pub run_as_non_root : Option Bool

pub record ResourceSpec : Type 0 where
  pub cpu_limit : String
  pub memory_limit : String

pub record BindingSpec : Type 0 where
  pub primary_key : String
  pub extra : Dict String

-- The field `type` of the source is `engine`.
pub record ServiceDefinition : Type 0 where
  pub engine : String
  pub aliases : List String
  pub image : String
  pub default_version : String
  pub port : ℤ
  pub port_name : String
  pub command : List String
  pub args : List String
  pub generate_password : Bool
  pub container_env : Dict String
  pub persistence : Option PersistenceSpec
  pub security : Option PodSecuritySpec
  pub resources : ResourceSpec
  pub secret_values : Dict String
  pub binding : BindingSpec

-- A *ServiceDefinition that is not nil: the pointer, and the definition that it points at.
pub record Pointer : Type 0 where
  pub address : ℕ
  pub definition : ServiceDefinition

-- serviceCatalog: the map byType. `next` is ghost state: no pointer of the program has that address
-- or a later one.
pub record ServiceCatalog : Type 0 where
  pub by_type : Dict Pointer
  pub next : ℕ

abbrev pub empty_catalog : ServiceCatalog
empty_catalog = record { by_type = []; next = 0 }

-- The loop of register over the names of a definition.
unfoldable pub index_under : Pointer → List String → Dict Pointer → Dict Pointer
unfolding insert to_lower
index_under p [] m = m
index_under p (name ∷ names) m = index_under p names (insert (to_lower name) p m)

abbrev pub names_of : ServiceDefinition → List String
names_of def = def.engine ∷ def.aliases

-- register, of a definition that was just allocated.
unfoldable pub register : ServiceDefinition → ServiceCatalog → ServiceCatalog
unfolding index_under
register def c = record {
  by_type = index_under (record { address = c.next; definition = def }) (names_of def) c.by_type;
  next = suc c.next;
}

-- lookup, of a catalog that may be nil; `none` is the nil pointer.
unfoldable pub lookup_type : Option ServiceCatalog → String → Option Pointer
unfolding lookup to_lower
lookup_type none t = none
lookup_type (some c) t = lookup (to_lower t) c.by_type

-- parseServiceDef after the document is read.
unfoldable pub check_definition : ServiceDefinition → Result String ServiceDefinition
check_definition def =
    if (def.engine == "") || (def.image == "") || is_zero def.port
    then err "descriptor needs type, image and port"
    else if def.binding.primary_key == ""
    then err ("descriptor " ⧺ def.engine ⧺ " needs binding.primaryKey")
    else ok def

-- An entry of the embedded folder builtin/: its name, whether it is a folder, and what ReadFile
-- gives.
pub record BuiltinFile : Type 0 where
  pub name : String
  pub is_dir : Bool
  pub contents : Result String String

-- yaml.UnmarshalStrict into a ServiceDefinition, of sigs.k8s.io/yaml.
module _ (unmarshal_strict : String → Result String ServiceDefinition) where
  abbrev pub checked : Result String ServiceDefinition → Result String ServiceDefinition
  checked (ok def) = check_definition def
  checked (err e) = err e

  unfoldable pub parse_service_def : String → Result String ServiceDefinition
  unfolding check_definition
  parse_service_def doc = checked (unmarshal_strict doc)

  abbrev pub load_parsed :
      String → ServiceCatalog → Result String ServiceDefinition → Result String ServiceCatalog
  load_parsed name c (ok def) = ok (register def c)
  load_parsed name c (err e) = err ("builtin servicedef " ⧺ name ⧺ ": " ⧺ e)

  abbrev pub load_contents :
      String → ServiceCatalog → Result String String → Result String ServiceCatalog
  load_contents name c (ok doc) = load_parsed name c (parse_service_def doc)
  load_contents name c (err e) = err e

  -- The body of the loop of LoadBuiltinCatalog.
  abbrev pub load_file : ServiceCatalog → BuiltinFile → Result String ServiceCatalog
  load_file c f =
      if f.is_dir || not (ends_with f.name ".yaml") then ok c else load_contents f.name c f.contents

  unfoldable pub load_from :
      Result String ServiceCatalog → List BuiltinFile → Result String ServiceCatalog
  unfolding parse_service_def register
  load_from (err e) files = err e
  load_from (ok c) [] = ok c
  load_from (ok c) (f ∷ files) = load_from (load_file c f) files

  abbrev pub load_entries : Result String (List BuiltinFile) → Result String ServiceCatalog
  load_entries (ok files) = load_from (ok empty_catalog) files
  load_entries (err e) = err e

  -- LoadBuiltinCatalog, with what ReadDir gives.
  unfoldable pub load_builtin_catalog :
      Result String (List BuiltinFile) → Result String ServiceCatalog
  unfolding load_from
  load_builtin_catalog dir = load_entries dir

  abbrev pub overlay_parsed : Result String ServiceDefinition → ServiceCatalog → ServiceCatalog
  overlay_parsed (ok def) c = register def c
  overlay_parsed (err e) c = c

  -- The loop of `catalog` over the entries of the ConfigMap, in the order in which they come.
  unfoldable pub overlay : ServiceCatalog → Dict String → ServiceCatalog
  unfolding parse_service_def register
  overlay c [] = c
  overlay c ((name, doc) ∷ docs) = overlay (overlay_parsed (parse_service_def doc) c) docs

  module _ (K : Kube) (iterate : Dict String → Dict String) where
    abbrev pub merge : ServiceCatalog → Result (Err K.Error) DataObject → ServiceCatalog
    merge builtins (ok cm) = overlay builtins (iterate cm.entries)
    merge builtins (err e) = builtins

    -- `catalog`; `iterate` is the order in which Go ranges over the map.
    unfoldable pub catalog : ServiceCatalog → String → Io K ServiceCatalog
    unfolding ◌>>=◌ overlay
    catalog builtins system_namespace = do
      got ←
          try
            (get K config_map (record { namespace = system_namespace; name = "paas-servicedefs" }))
      pure (merge builtins got)

abbrev pub keys : Dict String → List String
keys m = map (λ e. e.0) m

unfoldable pub sorted_keys : Dict String → List String
unfolding sort_strings
sorted_keys m = sort_strings (keys m)

abbrev pub from_secret : String → String → String → ContainerEnv
from_secret secret name key = record { name = name; source = secret_key_ref secret key }

unfoldable pub container_env_from : Dict String → String → List ContainerEnv
unfolding sorted_keys value_at
container_env_from m secret =
    map (λ name. from_secret secret name (value_at name m)) (sorted_keys m)

unfoldable pub templated_env : ServiceDefinition → String → String → List ContainerEnv
unfolding container_env_from
templated_env def secret as_name =
    let extra = container_env_from def.binding.extra secret in
    if as_name == "" then extra else from_secret secret as_name def.binding.primary_key ∷ extra

unfoldable pub pod_security_context : Option PodSecuritySpec → Option PodSecurityContext
pod_security_context none = none
pod_security_context (some s) = some (record {
  run_as_user = s.run_as_user;
  run_as_group = s.run_as_group;
  fs_group = s.fs_group;
  run_as_non_root = s.run_as_non_root;
})
