-- ===== src/HttpApi/Store/Saves.antt =====
-- What the calls of handlePutStack answer and leave on a server that stores Stacks: internal/api/server.go.
use paas_controlplane.Base.{
  ℕ, true, Option, none, some, ◌≡◌, refl, sym, ap, ◌∙◌, subst, fun_ext, Bool-cases, inl, inr,
  Result, ok, err,
}
use mathlib.Core.Option
use paas_controlplane.Api.{Stack, StackSpec, NamespacedName, key_of, same_key, same_key-eq}
use paas_controlplane.Kube.{Kube, Cluster, stack, api_error, record_call, create_object}
use paas_controlplane.HttpApi.{
  stack_doc, stack_response, Response, write_err, answer, handle, save, created,
}
use paas_controlplane.HttpApi.Store.{Specs, set_at, reply, on_write, put_at, IsRefusal, Stores}

abbrev pub specs_of : (NamespacedName → Option Stack) → Specs
specs_of v key = Option.map (λ o. o.spec) (v key)

pub specs_of-set :
    (v : NamespacedName → Option Stack) (key : NamespacedName) (o : Stack) (spec : StackSpec)
    → o.spec ≡ spec
    → specs_of (set_at key (some o) v) ≡ set_at key (some spec) (specs_of v)
specs_of-set v key o spec e = fun_ext λ other. elim (Bool-cases (same_key other key)) [
  | inl same ↦ rw same (ap some e)
  | inr differs ↦ rw differs refl
]

pub specs_of-unset :
    (v : NamespacedName → Option Stack) (key : NamespacedName)
    → specs_of (set_at key none v) ≡ set_at key none (specs_of v)
specs_of-unset v key = fun_ext λ other. elim (Bool-cases (same_key other key)) [
  | inl same ↦ rw same refl
  | inr differs ↦ rw differs refl
]

-- To remove a key that is not there changes nothing.
pub unset-missing : (m : Specs) (key : NamespacedName) → m key ≡ none → m ≡ set_at key none m
unset-missing m key e = fun_ext λ other. elim (Bool-cases (same_key other key)) [
  | inl same ↦ rw same (ap m (sym (same_key-eq other key same)) ∙ e)
  | inr differs ↦ rw differs refl
]

module _ (K : Kube) (st : Stores K) where
  abbrev pub specs : Cluster K → Specs
  specs s = specs_of (st.view s.world)

  -- The reply to an error that is a not-found error.
  pub reply-missing :
      {A : Type 0} (f : A → Response) (r : Result K.Error A) (e : K.Error)
      → r ≡ err e
      → K.is_not_found e ≡ true
      → reply (answer K f (api_error r)) ≡ record { code = 404; spec = none }
  unfolding write_err
  reply-missing f r e h missing = ap (λ x. reply (answer K f (api_error x))) h ∙ (rw missing refl)

  reply-refused :
      {A : Type 0} (f : A → Response) (r : Result K.Error A) (e : K.Error)
      → r ≡ err e
      → IsRefusal K e
      → reply (answer K f (api_error r)) ≡ record { code = 400; spec = none }
  unfolding write_err
  reply-refused f r e h refusal =
      ap (λ x. reply (answer K f (api_error x))) h
      ∙ (rw (refusal.found, refusal.no_conflict, refusal.invalid) refl)

  pub reply-stack :
      (code : ℕ) (r : Result K.Error Stack) (o : Stack)
      → r ≡ ok o
      → reply (answer K (stack_response code) (api_error r))
        ≡ record { code = code; spec = some o.spec }
  unfolding stack_doc
  reply-stack code r o e = ap (λ x. reply (answer K (stack_response code) (api_error x))) e

  -- What a write answers and leaves, by the schema's verdict on the spec.
  abbrev pub Saved :
      NamespacedName → Option StackSpec → ℕ → Response × Cluster K → Cluster K → Type 0
  Saved key verdict code p s =
      (reply p.0 ≡ on_write code verdict) × (specs p.1 ≡ put_at key verdict (specs s))

  -- Both calls that write end alike: the server took the object and stored it.
  stored-Saved :
      (key at_key : NamespacedName) (spec : StackSpec) (code : ℕ) (o : Stack)
      (r : Result K.Error Stack) (before after : NamespacedName → Option Stack)
      → at_key ≡ key
      → r ≡ ok o
      → o.spec ≡ spec
      → after ≡ set_at at_key (some o) before
      → (reply (answer K (stack_response code) (api_error r))
          ≡ record { code = code; spec = some spec })
        × (specs_of after ≡ set_at key (some spec) (specs_of before))
  stored-Saved key at_key spec code o r before after k done same stores = (
    reply-stack code r o done ∙ ap (λ x. record { code = code; spec = some x }) same,
    ap specs_of stores
        ∙ specs_of-set before at_key o spec same
        ∙ ap (λ x. set_at x (some spec) (specs_of before)) k,
  )

  pub replace-Saved :
      (key : NamespacedName) (spec : StackSpec) (verdict : Option StackSpec) (o : Stack)
      (s : Cluster K)
      → st.schema spec ≡ verdict
      → st.view s.world key ≡ some o
      → Saved key verdict 200 (save K key spec (ok o) s) s
  unfolding record_call
  replace-Saved key spec none o s refuses there =
      let k = st.view_key s.world key o there in
      let (e, failed, refusal, keeps) =
        st.update_refuses s.world (record o { spec = spec }) o
          (subst (λ x. st.view s.world x ≡ some o) (sym k) there) refl refuses in
      (reply-refused (stack_response 200) _ e failed refusal, ap specs_of keeps)
  replace-Saved key spec (some taken) o s takes there =
      let k = st.view_key s.world key o there in
      let (o', done, same, stores) =
        st.update_stores s.world (record o { spec = spec }) o taken
          (subst (λ x. st.view s.world x ≡ some o) (sym k) there) refl takes in
      stored-Saved key (key_of o.meta) taken 200 o' _ (st.view s.world) _ k done same stores

  pub create-Saved :
      (key : NamespacedName) (spec : StackSpec) (verdict : Option StackSpec) (s : Cluster K)
      → st.schema spec ≡ verdict
      → st.view s.world key ≡ none
      → Saved key verdict 201
          (handle K (stack_response 201) (create_object K stack (created key spec) s))
          s
  unfolding record_call
  create-Saved key spec none s refuses none_there =
      let (e, failed, refusal, keeps) =
        st.create_refuses s.world (created key spec) none_there refuses in
      (reply-refused (stack_response 201) _ e failed refusal, ap specs_of keeps)
  create-Saved key spec (some taken) s takes none_there =
      let (o', done, same, stores) =
        st.create_stores s.world (created key spec) taken none_there takes in
      stored-Saved key key taken 201 o' _ (st.view s.world) _ refl done same stores
