-- ===== src/Tests/Lagging.antt =====
-- A cluster in memory whose Stacks are read from a cache that lags behind, and whose schema has a default and refuses
-- some specs.
use paas_controlplane.Base.{
  if◌then◌else◌, ◌==◌, Result, any, Option, List, [], ◌∷◌, map, Bool, true, false, not, none, some,
  ◌≡◌, refl, ap, ◌∙◌, fun_ext, inl, inr, Bool-cases, ok, err, subst,
}
use paas_controlplane.Api.{
  VolumeSpec, Stack, StackSpec, NamespacedName, key_of, same_key, same_key-eq,
}
use paas_controlplane.Kube.{Cluster}
use paas_controlplane.Kube as K8s
use paas_controlplane.HttpApi.Store.{Schema, IsRefusal, Stores, set_at}
use paas_controlplane.HttpApi.Owned.{present_or, Ensures}
use paas_controlplane.Tests.Memory.{
  Memory, Refusal, invalid, put, nothing, memory, find, without, find-key, missing, to_result,
  removed, stored_or_fresh,
}

abbrev other_key : NamespacedName → Stack → Bool
other_key key x = not (same_key key (key_of x.meta))

find-without_self :
    (key : NamespacedName) (xs : List Stack) → find K8s.stack key (without K8s.stack key xs) ≡ none
find-without_self key [] = refl
find-without_self key (x ∷ xs) = elim (Bool-cases (same_key key (key_of x.meta))) [
  | inl same ↦ rw (same, find) (find-without_self key xs)
  | inr differs ↦ rw (differs, find) (rw differs (find-without_self key xs))
]

find-without_ne :
    (other key : NamespacedName) (xs : List Stack)
    → same_key other key ≡ false
    → find K8s.stack other (without K8s.stack key xs) ≡ find K8s.stack other xs
find-without_ne other key [] h = refl
find-without_ne other key (x ∷ xs) h = elim (Bool-cases (same_key key (key_of x.meta))) [
  | inl same ↦
      rw (same, find)
        (rw (ap (same_key other) (same_key-eq key (key_of x.meta) same) ∙ h, find)
          (find-without_ne other key xs h))
  | inr differs ↦
      rw (differs, find)
        (elim (Bool-cases (same_key other (key_of x.meta))) [
          | inl e ↦ rw e refl
          | inr e ↦ rw e (find-without_ne other key xs h)
        ])
]

-- What a put leaves, as a function.
find-put :
    (o : Stack) (xs : List Stack)
    → (λ key. find K8s.stack key (o ∷ without K8s.stack (key_of o.meta) xs))
      ≡ set_at (key_of o.meta) (some o) (λ key. find K8s.stack key xs)
find-put o xs = fun_ext λ key. elim (Bool-cases (same_key key (key_of o.meta))) [
  | inl same ↦ rw same refl
  | inr differs ↦ rw differs (find-without_ne key (key_of o.meta) xs differs)
]

pub find-removed :
    (at : NamespacedName) (xs : List Stack)
    → (λ key. find K8s.stack key (without K8s.stack at xs))
      ≡ set_at at none (λ key. find K8s.stack key xs)
find-removed at xs = fun_ext λ key. elim (Bool-cases (same_key key at)) [
  | inl same ↦ rw same (
      subst (λ k. find K8s.stack k (without K8s.stack at xs) ≡ none) (same_key-eq key at same)
        (find-without_self at xs))
  | inr differs ↦ rw differs (find-without_ne key at xs differs)
]

stored-present : (o : Stack) (x : Option Stack) → stored_or_fresh o x ≡ present_or o x
stored-present o none = refl
stored-present o (some there) = refl

abbrev default_kind : VolumeSpec → VolumeSpec
default_kind v = if v.kind == "" then record v { kind = "block" } else v

-- The default of a volume's kind, as in the custom resource; an unknown kind is refused.
abbrev admits : Schema
admits spec =
    if any (λ v. v.kind == "tape") spec.volumes
    then none
    else some (record spec { volumes = map default_kind spec.volumes })

abbrev stored_by : Option StackSpec → Stack → Memory → Result Refusal Stack × Memory
stored_by none o m = (err invalid, m)
stored_by (some spec) o m =
    (ok (record o { spec = spec }), put K8s.stack (record o { spec = spec }) m)

abbrev put_checked : (k : K8s.Kind) → K8s.Obj k → Memory → Result Refusal (K8s.Obj k) × Memory
put_checked K8s.stack o m = stored_by (admits o.spec) o m
put_checked k o m = (ok o, put k o m)

abbrev ensured_by :
    Result (K8s.Err Refusal) Stack → Memory → Result (K8s.Err Refusal) Stack × Memory
ensured_by (ok made) m = let (r, m') = stored_by (admits made.spec) made m in (K8s.api_error r, m')
ensured_by (err e) m = (err e, m)

-- What the server holds, and the cached Stacks.
abbrev pub Lagging : Type 0
Lagging = Memory × List Stack

abbrev on_server : {R : Type 0} → (Memory → R × Memory) → Lagging → R × Lagging
on_server f w = let (r, m) = f w.0 in (r, (m, w.1))

abbrev get_cached : (k : K8s.Kind) → NamespacedName → Lagging → Result Refusal (K8s.Obj k) × Lagging
get_cached K8s.stack key w = (to_result missing (find K8s.stack key w.1), w)
get_cached k key w = on_server (memory.get k key) w

abbrev ensure_cached :
    (k : K8s.Kind)
    → K8s.Obj k
    → (K8s.Obj k → Result (K8s.Err Refusal) (K8s.Obj k))
    → Lagging
    → Result (K8s.Err Refusal) (K8s.Obj k) × Lagging
ensure_cached K8s.stack o f w =
    on_server (ensured_by (f (stored_or_fresh o (find K8s.stack (key_of o.meta) w.1)))) w
ensure_cached k o f w = on_server (memory.create_or_update k o f) w

abbrev is_refused : Refusal → Bool
is_refused invalid = true
is_refused _ = false

abbrev pub lagging : K8s.Kube
lagging = record memory {
  World = Lagging;
  is_invalid = is_refused;
  get = get_cached;
  list = λ k o. on_server (memory.list k o);
  create = λ k o. on_server (put_checked k o);
  update = λ k o. on_server (put_checked k o);
  delete = λ k key. on_server (memory.delete k key);
  apply = λ o. on_server (memory.apply o);
  update_status = λ k o. on_server (memory.update_status k o);
  create_or_update = ensure_cached;
}

invalid-IsRefusal : IsRefusal lagging invalid
invalid-IsRefusal = record { invalid = refl; found = refl; no_conflict = refl }

abbrev held : Memory → NamespacedName → Option Stack
held m key = find K8s.stack key m.stacks

stored_by-some :
    (verdict : Option StackSpec) (spec : StackSpec) (o : Stack) (m : Memory)
    → verdict ≡ some spec
    → (stored_by verdict o m
        ≡ (ok (record o { spec = spec }), put K8s.stack (record o { spec = spec }) m))
stored_by-some verdict spec o m e = ap (λ v. stored_by v o m) e

stored_by-none :
    (verdict : Option StackSpec) (o : Stack) (m : Memory)
    → verdict ≡ none
    → stored_by verdict o m ≡ (err invalid, m)
stored_by-none verdict o m e = ap (λ v. stored_by v o m) e

taken :
    (o : Stack) (spec : StackSpec) (m : Memory)
    → admits o.spec ≡ some spec
    → (o' : Stack) × ((stored_by (admits o.spec) o m).0 ≡ ok o')
      × (o'.spec ≡ spec)
      × (o'.meta ≡ o.meta)
      × (held (stored_by (admits o.spec) o m).1 ≡ set_at (key_of o.meta) (some o') (held m))
taken o spec m takes =
    let made = stored_by-some (admits o.spec) spec o m takes in
    (
      record o { spec = spec },
      ap (λ p. p.0) made,
      refl,
      refl,
      ap (λ p. held p.1) made ∙ find-put (record o { spec = spec }) m.stacks,
    )

pub refused :
    (o : Stack) (m : Memory)
    → admits o.spec ≡ none
    → (e : Refusal) × ((stored_by (admits o.spec) o m).0 ≡ err e)
      × IsRefusal lagging e
      × (held (stored_by (admits o.spec) o m).1 ≡ held m)
refused o m refuses =
    let made = stored_by-none (admits o.spec) o m refuses in
    (invalid, ap (λ p. p.0) made, invalid-IsRefusal, ap (λ p. held p.1) made)

pub stored_taken :
    (w : Lagging) (o : Stack) (spec : StackSpec)
    → admits o.spec ≡ some spec
    → (o' : Stack) × ((lagging.create K8s.stack o w).0 ≡ ok o')
      × (o'.spec ≡ spec)
      × (held (lagging.create K8s.stack o w).1.0 ≡ set_at (key_of o.meta) (some o') (held w.0))
stored_taken w o spec takes =
    let (o', done, same, _, stores) = taken o spec w.0 takes in (o', done, same, stores)

abbrev pub lagging_stores : Stores lagging
lagging_stores = record {
  schema = admits;
  view = λ w. held w.0;
  cached = λ w key. find K8s.stack key w.1;
  sync = λ w. (w.0, w.0.stacks);
  sync_view = λ w. refl;
  sync_cached = λ w. refl;
  view_key = λ w key o e. find-key K8s.stack key w.0.stacks o e;
  get_found = λ w key o e. ap (to_result missing) e;
  get_missing = λ w key e. (missing, ap (to_result missing) e, refl);
  get_keeps = λ w key. refl;
  create_stores = λ w o spec e takes. stored_taken w o spec takes;
  create_refuses = λ w o e refuses. refused o w.0 refuses;
  update_stores = λ w o old spec e m takes. stored_taken w o spec takes;
  update_refuses = λ w o old e m refuses. refused o w.0 refuses;
  delete_found = λ w key o e. (
    ap (λ x. (removed K8s.stack key w.0 x).0) e,
    ap (λ x. held (removed K8s.stack key w.0 x).1) e ∙ find-removed key w.0.stacks,
  );
  delete_missing = λ w key e. (
    missing,
    ap (λ x. (removed K8s.stack key w.0 x).0) e,
    refl,
    ap (λ x. held (removed K8s.stack key w.0 x).1) e,
  );
}

pub lagging-Ensures : Ensures lagging lagging_stores
lagging-Ensures = record {
  ensure_stores = λ w o made spec mutate fresh e k takes.
      let made_it =
        ap (λ x. mutate (stored_or_fresh o x)) (ap (λ v. v (key_of o.meta)) fresh)
        ∙ ap mutate (stored-present o (held w.0 (key_of o.meta)))
        ∙ e in
      let (o', done, same, meta, stores) = taken made spec w.0 takes in
      (
        o',
        ap (λ r. (ensured_by r w.0).0) made_it ∙ ap K8s.api_error done,
        same,
        ap (λ x. x.labels) meta,
        ap (λ r. held (ensured_by r w.0).1) made_it
            ∙ stores
            ∙ ap (λ x. set_at x (some o') (held w.0)) k,
      );
}

-- Nothing on the server, nothing in the cache.
abbrev pub empty_cluster : Cluster lagging
empty_cluster = record { world = (nothing, []); calls = [] }
