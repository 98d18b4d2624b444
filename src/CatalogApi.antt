-- ===== src/CatalogApi.antt =====
-- internal/controller/catalog_api.go: the catalog of backing services as the API shows it.
pub mod Once
pub mod Known
pub mod Provided
use paas_controlplane.Base.{
  ℕ, String, List, [], ◌∷◌, map, Bool, true, false, Option, none, some, Dict, ℤ, pos, nat_eq, any,
  leb, ◌&&◌, ◌⧺◌, ◌==◌, text_le, sort_strings, if◌then◌else◌, translate, upper_letters,
  lower_letters, ◌++◌,
}
use Prim.Native.Char.{Char, code, len_utf8}
use Prim.Native.Nat.{zero, suc}
use Prim.Native.String
use paas_controlplane.ServiceDefs.{
  ServiceDefinition, PersistenceSpec, Pointer, ServiceCatalog, keys,
}

abbrev pub pg_default_version : String
pg_default_version = "17.2"

-- The field `type` of the source is `engine`.
pub record CatalogEntry : Type 0 where
  pub engine : String
  pub aliases : List String
  pub tier : String
  pub default_version : String
  pub port : ℤ
  pub default_env : String
  pub extra : List String
  pub persistent : Bool
  pub managed_backup : Bool

unfoldable pub operator_tier_entries : List CatalogEntry
operator_tier_entries =
    record {
      engine = "postgres";
      aliases = "postgresql" ∷ [];
      tier = "operator";
      default_version = pg_default_version;
      port = pos 5432;
      default_env = "DATABASE_URL";
      extra = "PGHOST" ∷ "PGPORT" ∷ "PGDATABASE" ∷ "PGUSER" ∷ "PGPASSWORD" ∷ [];
      persistent = true;
      managed_backup = true;
    }
    ∷ record {
      engine = "object";
      aliases = "s3" ∷ [];
      tier = "object";
      default_version = "";
      port = pos 0;
      default_env = "S3_ENDPOINT";
      extra =
          "S3_ENDPOINT" ∷ "S3_BUCKET" ∷ "S3_REGION" ∷ "S3_ACCESS_KEY_ID" ∷ "S3_SECRET_ACCESS_KEY"
          ∷ [];
      persistent = false;
      managed_backup = false;
    }
    ∷ []

abbrev underscores : ℕ → String
underscores zero = ""
underscores (suc n) = "_" ⧺ underscores n

abbrev within : ℕ → ℕ → Char → Bool
within lo hi c = leb lo (code c) && leb (code c) hi

-- upperSnake goes by bytes: a character beyond ASCII becomes an underscore for each of its bytes.
unfoldable pub snake_char : Char → String
unfolding translate
snake_char c =
    if within 97 122 c
    then String.◌∷◌ (translate lower_letters upper_letters c) ""
    else if within 65 90 c
    then String.◌∷◌ c ""
    else if within 48 57 c
    then String.◌∷◌ c ""
    else underscores (len_utf8 c)

unfoldable pub upper_snake : String → String
unfolding snake_char
upper_snake String.[] = ""
upper_snake (String.◌∷◌ c s) = snake_char c ⧺ upper_snake s

unfoldable pub template_default_env : ServiceDefinition → String
unfolding upper_snake
template_default_env def =
    if def.engine == "valkey"
    then "REDIS_URL"
    else if def.engine == "memcached"
    then "MEMCACHED_SERVERS"
    else if def.engine == "nats"
    then "NATS_URL"
    else upper_snake def.engine ⧺ "_URL"

abbrev given : Option PersistenceSpec → Bool
given none = false
given (some p) = true

-- The entry of a template-backed type.
unfoldable pub template_entry : ServiceDefinition → CatalogEntry
unfolding template_default_env sort_strings
template_entry def = record {
  engine = def.engine;
  aliases = def.aliases;
  tier = "template";
  default_version = def.default_version;
  port = def.port;
  default_env = template_default_env def;
  extra = sort_strings (keys def.binding.extra);
  persistent = given def.persistence;
  managed_backup = false;
}

abbrev pub is_seen : ℕ → List ℕ → Bool
is_seen a seen = any (nat_eq a) seen

-- The loop of Entries over the map: the pointers that come for the first time, in order.
unfoldable pub unseen : List ℕ → Dict Pointer → List Pointer
unseen seen [] = []
unseen seen ((name, p) ∷ m) =
    let skipped = unseen seen m in
    let kept = p ∷ unseen (p.address ∷ seen) m in if is_seen p.address seen then skipped else kept

-- sort.Slice by type; between entries of one type Go leaves the order open.
unfoldable pub insert_entry : CatalogEntry → List CatalogEntry → List CatalogEntry
unfolding text_le
insert_entry e [] = e ∷ []
insert_entry e (f ∷ fs) =
    let rest = insert_entry e fs in if text_le e.engine f.engine then e ∷ f ∷ fs else f ∷ rest

unfoldable pub sort_entries : List CatalogEntry → List CatalogEntry
unfolding insert_entry
sort_entries [] = []
sort_entries (e ∷ es) = insert_entry e (sort_entries es)

-- Entries; `iterate` is the order in which Go ranges over the map.
unfoldable pub entries : (Dict Pointer → Dict Pointer) → ServiceCatalog → List CatalogEntry
unfolding operator_tier_entries template_entry unseen sort_entries
entries iterate c = sort_entries (
    operator_tier_entries ++ map (λ p. template_entry p.definition) (unseen [] (iterate c.by_type)))
