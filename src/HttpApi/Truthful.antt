-- ===== src/HttpApi/Truthful.antt =====
-- What a response says about the writing calls that were made: internal/api/server.go, the handlers.
use paas_controlplane.Base.{
  ℕ, String, List, ◌∷◌, Bool, true, false, Option, none, some, ◌≤◌, ◌⊎◌, inl, inr, ◌≡◌, refl, sym,
  ap, ltb, arith, Bool-cases, Result, ok, err,
}
use paas_controlplane.Api.{Stack, StackSpec, NamespacedName, key_of}
use paas_controlplane.Kube.{
  Kube, Cluster, Err, api, msg, wrapped, panicked, Call, Verb, Target, object, stack, get,
  read_call, record_call, succeeds, api_error, is_not_found, Answers,
}
use paas_controlplane.CatalogApi.{CatalogEntry}
use paas_controlplane.Twin.Overlay.{twins-calls}
use paas_controlplane.HttpApi.{
  Response, Request, get_catalog, list_stacks, list_environments, get_twin, follow_events,
  get_stack, delete_stack, put_stack, code_of, write_err, answer, handle, save, handle_list_stacks,
  handle_get_stack, handle_put_stack, handle_delete_stack, handle_list_environments, handle_twin,
  handle_events, serve,
}

-- The Stack that a request asks to change.
abbrev pub changes : Request → Option NamespacedName
changes (put_stack key body) = some key
changes (delete_stack key) = some key
changes _ = none

-- A response with this code, after which the calls are `after`, told what was written: nothing for a request that asks to
-- change nothing; else nothing with an error, or one call to the Stack, which succeeded exactly if the code is below 300.
abbrev pub Told : Option NamespacedName → ℕ → List Call → List Call → Type 0
Told none code before after = after ≡ before
Told (some key) code before after =
    ((after ≡ before) × (400 ≤ code))
    ⊎ ((c : Call) × (after ≡ c ∷ before)
        × (c.target ≡ object stack key)
        × (c.succeeded ≡ ltb code 300))

module _ (K : Kube) where
  code_of-ge : (e : Err K.Error) → 400 ≤ code_of K e
  code_of-ge (api e) = ground arith
  code_of-ge (msg m) = omega arith
  code_of-ge (wrapped m e) = omega arith
  code_of-ge (panicked m) = omega arith

  told :
      {A : Type 0} (f : A → Response) (low : (a : A) → ltb (f a).code 300 ≡ true)
      (r : Result (Err K.Error) A)
      → succeeds r ≡ ltb (answer K f r).code 300
  unfolding write_err
  told f low (ok a) = sym (low a)
  told f low (err e) = ground (arith, code_of-ge e)

  -- A handler that ends with one writing call, and answers its success with a code below 300.
  handled-Told :
      {A : Type 0} (key : NamespacedName) (f : A → Response) (v : Verb) (t : Target)
      (call : K.World → Result (Err K.Error) A × K.World) (s : Cluster K)
      → ((a : A) → ltb (f a).code 300 ≡ true)
      → t ≡ object stack key
      → Told
          (some key)
          (handle K f (record_call K v t call s)).0.code
          s.calls
          (handle K f (record_call K v t call s)).1.calls
  unfolding record_call
  handled-Told key f v t call s low target = inr (_, refl, target, told f low (call s.world).0)

  save-Told :
      (key : NamespacedName) (spec : StackSpec) (r : Result (Err K.Error) Stack) (s : Cluster K)
      → ((o : Stack) → r ≡ ok o → key_of o.meta ≡ key)
      → Told (some key) (save K key spec r s).0.code s.calls (save K key spec r s).1.calls
  unfolding write_err
  save-Told key spec (ok existing) s found =
      handled-Told key _ _ _ _ s (λ a. refl) (ap (object stack) (found existing refl))
  save-Told key spec (err e) s found = elim (Bool-cases (is_not_found K e)) [
    | inl missing ↦ rw missing (handled-Told key _ _ _ _ s (λ a. refl) refl)
    | inr other ↦ rw other (inl (refl, code_of-ge e))
  ]

  got-ok : (r : Result K.Error Stack) (o : Stack) → api_error r ≡ ok o → r ≡ ok o
  got-ok (ok a) o e = cc
  got-ok (err x) o e = absurd (cc)

  put-Told :
      Answers K
      → (key : NamespacedName) (body : Result String StackSpec) (s : Cluster K)
      → Told
          (some key)
          (handle_put_stack K key body s).0.code
          s.calls
          (handle_put_stack K key body s).1.calls
  unfolding handle_put_stack read_call
  put-Told a key (err e) s = inl (refl, omega arith)
  put-Told a key (ok spec) s =
      save-Told key spec (get K stack key s).0 (get K stack key s).1
        (λ o e. a.get_key stack key s.world o (got-ok _ o e))

  events-calls :
      (can_flush : Bool) (s : Cluster K) → (handle_events K can_flush s).1.calls ≡ s.calls
  unfolding handle_events
  events-calls true s = twins-calls K s
  events-calls false s = refl

  -- For every request to every client whose Get returns the object with the key it is given: a
  -- request that reads makes no writing call, and a PUT or DELETE makes at most one, to the Stack of
  -- its path. The code is below 300 exactly if that call was made and succeeded.
  pub serve_truthful :
      Answers K
      → (catalog : List CatalogEntry) (can_flush : Bool) (q : Request) (s : Cluster K)
      → Told
          (changes q)
          (serve K catalog can_flush q s).0.code
          s.calls
          (serve K catalog can_flush q s).1.calls
  unfolding serve handle_list_stacks handle_get_stack handle_list_environments handle_twin
      handle_delete_stack read_call
  serve_truthful a catalog can_flush get_catalog s = refl
  serve_truthful a catalog can_flush list_stacks s = refl
  serve_truthful a catalog can_flush list_environments s = refl
  serve_truthful a catalog can_flush get_twin s = twins-calls K s
  serve_truthful a catalog can_flush follow_events s = events-calls can_flush s
  serve_truthful a catalog can_flush (get_stack key) s = refl
  serve_truthful a catalog can_flush (put_stack key body) s = put-Told a key body s
  serve_truthful a catalog can_flush (delete_stack key) s =
      handled-Told key _ _ _ _ s (λ u. refl) refl
