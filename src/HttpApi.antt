-- ===== src/HttpApi.antt =====
-- internal/api/server.go: the handlers of the HTTP API. A handler is a function from the cluster to
-- the response and the cluster that it leaves. The HTTP library's matching of paths is `route`, and a
-- request's body comes decoded, or with the error of the JSON library.
pub mod Stream
pub mod Truthful
pub mod Store
pub mod Owned
use paas_controlplane.Base.{
  ℕ, String, List, [], ◌∷◌, map, Bool, true, false, ◌&&◌, ◌||◌, Option, none, some, ℤ, value_at,
  ◌⧺◌, ◌==◌, if◌then◌else◌, Result, ok, err,
}
use paas_controlplane.Api.{
  Stack, StackSpec, StackStatus, Environment, EnvironmentSpec, EnvironmentStatus, NamespacedName,
  named,
}
use paas_controlplane.Kube.{
  Kube, Cluster, Err, api, msg, wrapped, panicked, stack, environment, get, list, create_object,
  update_object, delete_object, fresh_stack, is_not_found, ListOptions,
}
use paas_controlplane.CatalogApi.{CatalogEntry}
use paas_controlplane.Twin.{StackTwin, pair_lt, sort_by, twins}

pub record StackDoc : Type 0 where
  pub namespace : String
  pub name : String
  pub spec : StackSpec
  pub status : StackStatus
  pub generation : ℤ
  pub resource_version : String
  pub managed_by_environment : String
  pub project : String

pub record EnvironmentDoc : Type 0 where
  pub namespace : String
  pub name : String
  pub spec : EnvironmentSpec
  pub status : EnvironmentStatus

unfoldable pub stack_doc : Stack → StackDoc
unfolding value_at
stack_doc st = record {
  namespace = st.meta.namespace;
  name = st.meta.name;
  spec = st.spec;
  status = st.status;
  generation = st.meta.generation;
  resource_version = st.meta.resource_version;
  managed_by_environment = value_at "paas.sh/environment" st.meta.labels;
  project = value_at "paas.sh/project" st.meta.labels;
}

abbrev pub environment_doc : Environment → EnvironmentDoc
environment_doc e = record {
  namespace = e.meta.namespace;
  name = e.meta.name;
  spec = e.spec;
  status = e.status;
}

-- What a response holds; `event_stream` is a stream of events, by the overlay that it starts with.
pub data Body : Type 0 where
  no_body : Body
  error_body : String → Body
  catalog_body : List CatalogEntry → Body
  stack_body : StackDoc → Body
  stacks_body : List StackDoc → Body
  environments_body : List EnvironmentDoc → Body
  twins_body event_stream : List StackTwin → Body

pub record Response : Type 0 where
  pub code : ℕ
  pub body : Body

-- writeJSON
abbrev pub write_json : ℕ → Body → Response
write_json code body = record { code = code; body = body }

unfoldable pub stack_doc_lt : StackDoc → StackDoc → Bool
unfolding pair_lt
stack_doc_lt x y = pair_lt x.namespace x.name y.namespace y.name

unfoldable pub environment_doc_lt : EnvironmentDoc → EnvironmentDoc → Bool
unfolding pair_lt
environment_doc_lt x y = pair_lt x.spec.project x.name y.spec.project y.name

-- The endpoints, with what the handler takes from the request: the key of the path, and for a PUT the spec of the
-- body or the error of the JSON library, which a body over 1 MiB has too.
pub data Request : Type 0 where
  get_catalog list_stacks list_environments get_twin follow_events : Request
  get_stack delete_stack : NamespacedName → Request
  put_stack : NamespacedName → Result String StackSpec → Request

-- A pattern with GET matches HEAD too.
abbrev is_get : String → Bool
is_get method = method == "GET" || method == "HEAD"

abbrev collection : String → Option Request
collection name =
    if name == "catalog"
    then some get_catalog
    else if name == "stacks"
    then some list_stacks
    else if name == "environments"
    then some list_environments
    else if name == "twin"
    then some get_twin
    else if name == "events"
    then some follow_events
    else none

abbrev on_stack : String → NamespacedName → Result String StackSpec → Option Request
on_stack method key body =
    if is_get method
    then some (get_stack key)
    else if method == "PUT"
    then some (put_stack key body)
    else if method == "DELETE"
    then some (delete_stack key)
    else none

abbrev endpoint : String → List String → Result String StackSpec → Option Request
endpoint method (name ∷ []) body = if is_get method then collection name else none
endpoint method (kind ∷ ns ∷ name ∷ []) body =
    if kind == "stacks" then on_stack method (record { namespace = ns; name = name }) body else none
endpoint method _ body = none

-- routes, by the method, the segments of the path and the body; `none` where no pattern matches.
unfoldable pub route : String → List String → Result String StackSpec → Option Request
route method (root ∷ version ∷ path) body =
    if root == "api" && version == "v1" then endpoint method path body else none
route method _ body = none

abbrev everything : ListOptions
everything = record { namespace = none; matching_labels = [] }

abbrev pub stack_response : ℕ → Stack → Response
stack_response code st = write_json code (stack_body (stack_doc st))

abbrev pub deleted : Unit {0} → Response
deleted u = write_json 204 no_body

-- The object that handlePutStack creates.
abbrev pub created : NamespacedName → StackSpec → Stack
created key spec = record (fresh_stack (named key.namespace key.name)) { spec = spec }

module _ (K : Kube) where
  -- The switch of writeErr.
  abbrev pub error_code : K.Error → ℕ
  error_code e =
      if K.is_not_found e
      then 404
      else if K.is_conflict e
      then 409
      else if K.is_invalid e || K.is_bad_request e
      then 400
      else if K.is_forbidden e || K.is_unauthorized e
      then 403
      else if K.is_already_exists e
      then 409
      else 500

  -- The client returns errors of the API; another one has no reason, and the code 500.
  abbrev pub code_of : Err K.Error → ℕ
  code_of (api e) = error_code e
  code_of _ = 500

  abbrev text_of : Err K.Error → String
  text_of (api e) = K.error_text e
  text_of (msg m) = m
  text_of (wrapped m e) = m ⧺ ": " ⧺ text_of e
  text_of (panicked m) = m

  unfoldable pub write_err : Err K.Error → Response
  write_err e = write_json (code_of e) (error_body (text_of e))

  -- The two ways on from a call: the error, or the document of the object that it returned.
  abbrev pub answer : {A : Type 0} → (A → Response) → Result (Err K.Error) A → Response
  answer f (ok a) = f a
  answer f (err e) = write_err e

  abbrev pub handle :
      {A : Type 0} → (A → Response) → Result (Err K.Error) A × Cluster K → Response × Cluster K
  handle f p = (answer f p.0, p.1)

  unfoldable pub handle_list_stacks : Cluster K → Response × Cluster K
  unfolding write_err sort_by stack_doc_lt stack_doc
  handle_list_stacks s =
      handle (λ sts. write_json 200 (stacks_body (sort_by stack_doc_lt (map stack_doc sts))))
        (list K stack everything s)

  unfoldable pub handle_get_stack : NamespacedName → Cluster K → Response × Cluster K
  unfolding write_err stack_doc
  handle_get_stack key s = handle (stack_response 200) (get K stack key s)

  -- The switch of handlePutStack.
  abbrev pub save :
      NamespacedName → StackSpec → Result (Err K.Error) Stack → Cluster K → Response × Cluster K
  save key spec (ok existing) s =
      handle (stack_response 200) (update_object K stack (record existing { spec = spec }) s)
  save key spec (err e) s =
      if is_not_found K e
      then handle (stack_response 201) (create_object K stack (created key spec) s)
      else (write_err e, s)

  unfoldable pub handle_put_stack :
      NamespacedName → Result String StackSpec → Cluster K → Response × Cluster K
  unfolding write_err stack_doc
  handle_put_stack key (err e) s = (write_json 400 (error_body ("invalid JSON: " ⧺ e)), s)
  handle_put_stack key (ok spec) s = let (r, s') = get K stack key s in save key spec r s'

  unfoldable pub handle_delete_stack : NamespacedName → Cluster K → Response × Cluster K
  unfolding write_err
  handle_delete_stack key s = handle deleted (delete_object K stack key s)

  unfoldable pub handle_list_environments : Cluster K → Response × Cluster K
  unfolding write_err sort_by environment_doc_lt
  handle_list_environments s =
      handle
        (λ es.
          write_json 200 (environments_body (sort_by environment_doc_lt (map environment_doc es))))
        (list K environment everything s)

  unfoldable pub handle_twin : Cluster K → Response × Cluster K
  unfolding twins
  handle_twin s = let (out, s') = twins K s in (write_json 200 (twins_body out), s')

  -- handleEvents up to its loop; `can_flush` says that the writer is a Flusher.
  unfoldable pub handle_events : Bool → Cluster K → Response × Cluster K
  unfolding twins
  handle_events true s = let (out, s') = twins K s in (write_json 200 (event_stream out), s')
  handle_events false s = (write_json 500 (error_body "streaming unsupported"), s)

  -- `catalog` is the field Catalog of the Server.
  unfoldable pub serve : List CatalogEntry → Bool → Request → Cluster K → Response × Cluster K
  unfolding handle_list_stacks handle_get_stack handle_put_stack handle_delete_stack
      handle_list_environments handle_twin handle_events
  serve catalog can_flush get_catalog s = (write_json 200 (catalog_body catalog), s)
  serve catalog can_flush list_stacks s = handle_list_stacks s
  serve catalog can_flush list_environments s = handle_list_environments s
  serve catalog can_flush get_twin s = handle_twin s
  serve catalog can_flush follow_events s = handle_events can_flush s
  serve catalog can_flush (get_stack key) s = handle_get_stack key s
  serve catalog can_flush (put_stack key body) s = handle_put_stack key body s
  serve catalog can_flush (delete_stack key) s = handle_delete_stack key s
