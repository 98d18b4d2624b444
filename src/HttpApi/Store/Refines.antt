-- ===== src/HttpApi/Store/Refines.antt =====
-- The handlers for single Stacks refine the dictionary of specs: internal/api/server.go.
use paas_controlplane.Base.{
  ℕ, String, List, [], ◌∷◌, Bool, Option, ◌≡◌, refl, sym, ap, ◌∙◌, subst, Option-cases, inl, inr,
  Result, ok, err,
}
use mathlib.Core.Option
use paas_controlplane.Api.{Stack, StackSpec, NamespacedName}
use paas_controlplane.Kube.{Kube, Cluster, stack, get, api_error, read_call, record_call}
use paas_controlplane.CatalogApi.{CatalogEntry}
use paas_controlplane.HttpApi.{
  stack_response, deleted, Response, answer, save, handle_get_stack, handle_put_stack,
  handle_delete_stack, serve,
}
use paas_controlplane.HttpApi.Store.{
  Specs, Op, read, remove, write, request, Reply, reply, on_read, write_code, put_at, on_remove,
  specified, specified_run, Stores,
}
use paas_controlplane.HttpApi.Store.Saves.{
  specs_of, specs_of-unset, unset-missing, specs, reply-missing, reply-stack, Saved, replace-Saved,
  create-Saved,
}

module _ (K : Kube) (st : Stores K) where
  -- One operation, answered as the specification says, that leaves what it says.
  abbrev Refines : Op → Response × Cluster K → Cluster K → Type 0
  Refines op p s =
      (reply p.0 ≡ (specified st.schema op (specs K st s)).0)
      × (specs K st p.1 ≡ (specified st.schema op (specs K st s)).1)

  -- The cache is what the server holds.
  abbrev pub InSync : Cluster K → Type 0
  InSync s = st.cached s.world ≡ st.view s.world

  read-Refines :
      (key : NamespacedName) (s : Cluster K)
      → InSync s
      → Refines (read key) (handle_get_stack K key s) s
  unfolding handle_get_stack read_call
  read-Refines key s fresh = elim (Option-cases (st.view s.world key)) [
    | inl none_there ↦
        let (e, failed, missing) =
          st.get_missing s.world key (ap (λ v. v key) fresh ∙ none_there) in
        (
          reply-missing K st (stack_response 200) (K.get stack key s.world).0 e failed missing
              ∙ ap (λ o. on_read (Option.map (λ (x : Stack). x.spec) o)) (sym none_there),
          ap specs_of (st.get_keeps s.world key),
        )
    | inr (o, there) ↦ (
      reply-stack K st 200 (K.get stack key s.world).0 o
            (st.get_found s.world key o (ap (λ v. v key) fresh ∙ there))
          ∙ ap (λ o. on_read (Option.map (λ (x : Stack). x.spec) o)) (sym there),
      ap specs_of (st.get_keeps s.world key),
    )
  ]

  remove-Refines :
      (key : NamespacedName) (s : Cluster K) → Refines (remove key) (handle_delete_stack K key s) s
  unfolding handle_delete_stack record_call
  remove-Refines key s = elim (Option-cases (st.view s.world key)) [
    | inl none_there ↦
        let (e, failed, missing, keeps) = st.delete_missing s.world key none_there in
        (
          reply-missing K st deleted (K.delete stack key s.world).0 e failed missing
              ∙ ap (λ o. on_remove (Option.map (λ (x : Stack). x.spec) o)) (sym none_there),
          ap specs_of keeps
              ∙ unset-missing (specs K st s) key (ap (Option.map (λ o. o.spec)) none_there),
        )
    | inr (o, there) ↦
        let (succeeded, removes) = st.delete_found s.world key o there in
        (
          ap (λ x. reply (answer K deleted (api_error x))) succeeded
              ∙ ap (λ o. on_remove (Option.map (λ (x : Stack). x.spec) o)) (sym there),
          ap specs_of removes ∙ specs_of-unset (st.view s.world) key,
        )
  ]

  Saved-Refines :
      (key : NamespacedName) (spec : StackSpec) (p : Response × Cluster K) (s₁ s : Cluster K)
      → specs K st s₁ ≡ specs K st s
      → Saved K st key (st.schema spec) (write_code (specs K st s key)) p s₁
      → Refines (write key (ok spec)) p s
  Saved-Refines key spec p s₁ s same (replied, left) =
      (replied, left ∙ ap (put_at key (st.schema spec)) same)

  write-Refines :
      (key : NamespacedName) (body : Result String StackSpec) (s : Cluster K)
      → InSync s
      → Refines (write key body) (handle_put_stack K key body s) s
  unfolding handle_put_stack read_call
  write-Refines key (err e) s fresh = (refl, refl)
  write-Refines key (ok spec) s fresh =
      let s₁ = (get K stack key s).1 in
      let p = save K key spec (get K stack key s).0 s₁ in
      let keeps = st.get_keeps s.world key in
      let code_at : Option Stack → ℕ = λ o. write_code (Option.map (λ (x : Stack). x.spec) o) in
      let verdict = st.schema spec in
      elim (Option-cases (st.view s.world key)) [
        | inl none_there ↦
            let (e, failed, missing) =
              st.get_missing s.world key (ap (λ v. v key) fresh ∙ none_there) in
            Saved-Refines key spec p s₁ s (ap specs_of keeps) (
              subst (λ o. Saved K st key verdict (code_at o) p s₁) (sym none_there)
                (subst (λ x. Saved K st key verdict 201 (save K key spec (api_error x) s₁) s₁)
                  (sym failed)
                  (rw missing (
                    create-Saved K st key spec verdict s₁ refl
                      (ap (λ v. v key) keeps ∙ none_there)))))
        | inr (o, there) ↦ Saved-Refines key spec p s₁ s (ap specs_of keeps) (
            subst (λ o. Saved K st key verdict (code_at o) p s₁) (sym there)
              (subst (λ x. Saved K st key verdict 200 (save K key spec (api_error x) s₁) s₁)
                (sym (st.get_found s.world key o (ap (λ v. v key) fresh ∙ there)))
                (replace-Saved K st key spec verdict o s₁ refl (ap (λ v. v key) keeps ∙ there))))
      ]

  op-Refines :
      (catalog : List CatalogEntry) (can_flush : Bool) (op : Op) (s : Cluster K)
      → InSync s
      → Refines op (serve K catalog can_flush (request op) s) s
  unfolding serve
  op-Refines catalog can_flush (read key) s fresh = read-Refines key s fresh
  op-Refines catalog can_flush (remove key) s fresh = remove-Refines key s
  op-Refines catalog can_flush (write key body) s fresh = write-Refines key body s fresh

  -- The cache has caught up with the server.
  abbrev pub caught_up : Cluster K → Cluster K
  caught_up s = record s { world = st.sync s.world }

  pub caught_up-InSync : (s : Cluster K) → InSync (caught_up s)
  caught_up-InSync s = st.sync_cached s.world ∙ sym (st.sync_view s.world)

  -- The requests of a client of the API, one after the other, each when the cache has caught up with those before.
  abbrev pub serve_all : List CatalogEntry → Bool → List Op → Cluster K → List Reply × Cluster K
  serve_all catalog can_flush [] s = ([], s)
  serve_all catalog can_flush (op ∷ ops) s =
      let (r, s₁) = serve K catalog can_flush (request op) (caught_up s) in
      let (rs, s₂) = serve_all catalog can_flush ops s₁ in (reply r ∷ rs, s₂)

  -- For every API server that stores Stacks by a schema, read through a cache that has caught up before each
  -- request, where no other actor writes, nothing fails and no finalizer holds a Stack back: the replies to every
  -- sequence of requests for single Stacks, and the specs that are left, are those of a dictionary from keys to
  -- specs, in which a PUT inserts or replaces what the schema makes of its spec (201 or 200; 400 and no change
  -- where the body is no spec or the schema refuses it), a GET looks up (200) and a DELETE removes (204), each
  -- with 404 for a key that is not there.
  pub serve_refines :
      (catalog : List CatalogEntry) (can_flush : Bool) (ops : List Op) (s : Cluster K)
      → ((serve_all catalog can_flush ops s).0 ≡ (specified_run st.schema ops (specs K st s)).0)
        × (specs K st (serve_all catalog can_flush ops s).1
            ≡ (specified_run st.schema ops (specs K st s)).1)
  serve_refines catalog can_flush [] s = (refl, refl)
  serve_refines catalog can_flush (op ∷ ops) s =
      let run : Specs → List Reply × Specs = specified_run st.schema ops in
      let synced = ap specs_of (st.sync_view s.world) in
      let (replied, left) = op-Refines catalog can_flush op (caught_up s) (caught_up-InSync s) in
      let answers = replied ∙ ap (λ m. (specified st.schema op m).0) synced in
      let leaves = left ∙ ap (λ m. (specified st.schema op m).1) synced in
      let (replies, rest) =
        serve_refines catalog can_flush ops
          (serve K catalog can_flush (request op) (caught_up s)).1 in
      (
        (λ i. answers i ∷ (replies ∙ ap (λ m. (run m).0) leaves) i),
        rest ∙ ap (λ m. (run m).1) leaves,
      )
