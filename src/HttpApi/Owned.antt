-- ===== src/HttpApi/Owned.antt =====
-- A Stack that an Environment owns, behind the API: ensureStack of environment_controller.go against
-- the handlers of internal/api/server.go.
use paas_controlplane.Base.{
  String, List, Bool, true, Option, none, some, ◌≡◌, refl, ap, ◌∙◌, Result, ok, value_at,
  value_at-insert, insert, eq_refl, ◌&&◌, arith, ◌==◌,
}
use paas_controlplane.Api.{Stack, StackSpec, Environment, NamespacedName, named, key_of}
use paas_controlplane.Kube.{
  Kube, Cluster, Err, stack, ensure, fresh_stack, api_error, read_call, record_call,
  bind-pure_state,
}
use paas_controlplane.EnvironmentController.{write_stack, ensure_stack}
use paas_controlplane.CatalogApi.{CatalogEntry}
use paas_controlplane.HttpApi.{
  StackDoc, stack_doc, stack_body, stack_response, write_json, get_stack, answer, handle_get_stack,
  serve,
}
use paas_controlplane.HttpApi.Store.{set_at, Op, specified_run, Stores}
use paas_controlplane.HttpApi.Store.Saves.{specs, specs_of, specs_of-set}
use paas_controlplane.HttpApi.Store.Refines.{caught_up, caught_up-InSync, serve_all, serve_refines}

-- The object that CreateOrUpdate hands to the mutate function: the one that is there, or the given one.
abbrev pub present_or : Stack → Option Stack → Stack
present_or o none = o
present_or o (some there) = there

-- CreateOrUpdate on such an API server, by its documentation, when the cache that it reads has caught up: what the
-- mutate function made of the object is stored as the schema makes it (a stored spec has its defaults already).
pub record Ensures (K : Kube) (st : Stores K) : Type 0 where
  pub ensure_stores :
      (w : K.World) (o made : Stack) (taken : StackSpec)
      (mutate : Stack → Result (Err K.Error) Stack)
      → st.cached w ≡ st.view w
      → mutate (present_or o (st.view w (key_of o.meta))) ≡ ok made
      → key_of made.meta ≡ key_of o.meta
      → st.schema made.spec ≡ some taken
      → (o' : Stack) × ((K.create_or_update stack o mutate w).0 ≡ ok o')
        × (o'.spec ≡ taken)
        × (o'.meta.labels ≡ made.meta.labels)
        × (st.view (K.create_or_update stack o mutate w).1
            ≡ set_at (key_of o.meta) (some o') (st.view w))

labels_owner :
    (env : Environment) (spec : StackSpec) (o : Stack)
    → value_at "paas.sh/environment" (write_stack env spec o).meta.labels ≡ env.meta.name
unfolding write_stack
labels_owner env spec o =
    value_at-insert "paas.sh/environment" "paas.sh/environment" env.meta.name
      (insert "paas.sh/project" env.spec.project o.meta.labels)

labels_project :
    (env : Environment) (spec : StackSpec) (o : Stack)
    → value_at "paas.sh/project" (write_stack env spec o).meta.labels ≡ env.spec.project
unfolding write_stack
labels_project env spec o =
    value_at-insert "paas.sh/project" "paas.sh/environment" env.meta.name
      (insert "paas.sh/project" env.spec.project o.meta.labels)
    ∙ value_at-insert "paas.sh/project" "paas.sh/project" env.spec.project o.meta.labels

and_same : (a b : Bool) → a ≡ true → b ≡ true → (a && b) ≡ true
and_same a b h k = ground arith

set_at_self :
    (key : NamespacedName) (o : Stack) (v : NamespacedName → Option Stack)
    → set_at key (some o) v key ≡ some o
set_at_self key o v =
    rw
      (and_same (key.namespace == key.namespace) (key.name == key.name) (eq_refl key.namespace)
        (eq_refl key.name))
      refl

module _ (K : Kube) (st : Stores K) where
  -- The key stays, whether the Stack is there or is made.
  key_of-present :
      (w : K.World) (o : Stack) (found : Option Stack)
      → st.view w (key_of o.meta) ≡ found
      → key_of (present_or o found).meta ≡ key_of o.meta
  key_of-present w o none e = refl
  key_of-present w o (some there) e = st.view_key w (key_of o.meta) there e

  got-doc :
      (catalog : List CatalogEntry) (can_flush : Bool) (key : NamespacedName) (o : Stack)
      (s : Cluster K)
      → st.cached s.world key ≡ some o
      → (serve K catalog can_flush (get_stack key) s).0 ≡ write_json 200 (stack_body (stack_doc o))
  unfolding serve handle_get_stack read_call
  got-doc catalog can_flush key o s there =
      ap (λ x. answer K (stack_response 200) (api_error x)) (st.get_found s.world key o there)

  ensured :
      Ensures K st
      → (env : Environment) (spec taken : StackSpec) (ns : String) (s : Cluster K)
      → st.cached s.world ≡ st.view s.world
      → st.schema spec ≡ some taken
      → (o : Stack) × (o.spec ≡ taken)
        × (value_at "paas.sh/environment" o.meta.labels ≡ env.meta.name)
        × (value_at "paas.sh/project" o.meta.labels ≡ env.spec.project)
        × (st.view (ensure_stack K env spec ns s).1.world
            ≡ set_at (record { namespace = ns; name = env.meta.name }) (some o) (st.view s.world))
  unfolding ensure_stack record_call write_stack
  ensured ensures env spec taken ns s fresh takes =
      let start = fresh_stack (named ns env.meta.name) in
      let there = present_or start (st.view s.world (key_of start.meta)) in
      let (o, done, same, labels, stores) =
        ensures.ensure_stores s.world start (write_stack env spec there) taken
          (λ x. ok (write_stack env spec x)) fresh refl
          (key_of-present s.world start (st.view s.world (key_of start.meta)) refl) takes in
      (
        o,
        same,
        ap (value_at "paas.sh/environment") labels ∙ labels_owner env spec there,
        ap (value_at "paas.sh/project") labels ∙ labels_project env spec there,
        ap (λ (c : Cluster K). st.view c.world)
              (bind-pure_state (ensure K stack start (λ x. ok (write_stack env spec x))) tt s)
            ∙ stores,
      )

  -- What the API shows of the Stack of an Environment, when ensureStack has run after the requests and the cache
  -- has caught up with each write.
  abbrev pub IsOwned :
      List CatalogEntry
      → Bool
      → List Op
      → Environment
      → StackSpec
      → StackSpec
      → String
      → Cluster K
      → Type 0
  IsOwned catalog can_flush ops env spec taken ns s =
      let key : NamespacedName = record { namespace = ns; name = env.meta.name } in
      let before = caught_up K st (serve_all K st catalog can_flush ops s).1 in
      let left = (ensure_stack K env spec ns before).1 in
      (doc : StackDoc) × ((serve K catalog can_flush (get_stack key) (caught_up K st left)).0
        ≡ write_json 200 (stack_body doc))
      × (doc.spec ≡ taken)
      × (doc.managed_by_environment ≡ env.meta.name)
      × (doc.project ≡ env.spec.project)
      × (specs K st left ≡ set_at key (some taken) (specified_run st.schema ops (specs K st s)).1)

  -- Whatever requests for single Stacks came before, where only the API and this reconcile write, nothing fails and
  -- the schema takes the spec that the Environment holds: when ensureStack has run, each step with a cache that has caught up, a GET of the
  -- Stack of the Environment answers 200 with what the schema makes of that spec and names the
  -- Environment and its project, and every other Stack is as the requests left it.
  pub owned_lem :
      Ensures K st
      → (catalog : List CatalogEntry) (can_flush : Bool) (ops : List Op) (env : Environment)
        (spec taken : StackSpec) (ns : String) (s : Cluster K)
      → st.schema spec ≡ some taken
      → IsOwned catalog can_flush ops env spec taken ns s
  unfolding stack_doc
  owned_lem ensures catalog can_flush ops env spec taken ns s takes =
      let key : NamespacedName = record { namespace = ns; name = env.meta.name } in
      let served = (serve_all K st catalog can_flush ops s).1 in
      let before = caught_up K st served in
      let left = (ensure_stack K env spec ns before).1 in
      let (o, same, owner, project, stores) =
        ensured ensures env spec taken ns before (caught_up-InSync K st served) takes in
      (
        stack_doc o,
        got-doc catalog can_flush key o (caught_up K st left) (
            ap (λ v. v key) (st.sync_cached left.world ∙ stores)
            ∙ set_at_self key o (st.view before.world)),
        same,
        owner,
        project,
        ap specs_of stores
            ∙ specs_of-set (st.view before.world) key o taken same
            ∙ ap (set_at key (some taken)) (
                ap specs_of (st.sync_view served.world)
                ∙ (serve_refines K st catalog can_flush ops s).1),
      )
