-- ===== src/HttpApi/Store.antt =====
-- The Stacks behind the API as a dictionary of specs: internal/api/server.go, handleGetStack,
-- handlePutStack and handleDeleteStack.
pub mod Saves
pub mod Refines
use paas_controlplane.Base.{
  ℕ, String, List, [], ◌∷◌, true, false, Option, none, some, ◌≡◌, if◌then◌else◌, Result, ok, err,
}
use mathlib.Core.Option
use paas_controlplane.Api.{Stack, StackSpec, NamespacedName, key_of, same_key}
use paas_controlplane.Kube.{Kube, stack, get}
use paas_controlplane.HttpApi.{
  Body, stack_body, Response, Request, get_stack, delete_stack, put_stack,
}

-- The specification: a function from keys to specs.
abbrev pub Specs : Type 0
Specs = NamespacedName → Option StackSpec

abbrev pub set_at {ℓ} :
    {A : Type ℓ}
    → NamespacedName
    → Option A
    → (NamespacedName → Option A)
    → NamespacedName
    → Option A
set_at key v f other = if same_key other key then v else f other

-- The requests on one Stack.
pub data Op : Type 0 where
  read remove : NamespacedName → Op
  write : NamespacedName → Result String StackSpec → Op

abbrev pub request : Op → Request
request (read key) = get_stack key
request (remove key) = delete_stack key
request (write key body) = put_stack key body

-- What a client of the API sees: the code, and the spec where there is one.
pub record Reply : Type 0 where
  pub code : ℕ
  pub spec : Option StackSpec

abbrev pub spec_in : Body → Option StackSpec
spec_in (stack_body doc) = some doc.spec
spec_in _ = none

abbrev pub reply : Response → Reply
reply r = record { code = r.code; spec = spec_in r.body }

abbrev pub on_read : Option StackSpec → Reply
on_read none = record { code = 404; spec = none }
on_read (some spec) = record { code = 200; spec = some spec }

abbrev pub write_code : Option StackSpec → ℕ
write_code none = 201
write_code (some old) = 200

-- What a PUT answers and leaves, by the spec that the schema made of its body, if it took it.
abbrev pub on_write : ℕ → Option StackSpec → Reply
on_write code none = record { code = 400; spec = none }
on_write code (some spec) = record { code = code; spec = some spec }

abbrev pub put_at : NamespacedName → Option StackSpec → Specs → Specs
put_at key none m = m
put_at key (some spec) m = set_at key (some spec) m

abbrev pub on_remove : Option StackSpec → Reply
on_remove none = record { code = 404; spec = none }
on_remove (some old) = record { code = 204; spec = none }

-- The schema of the custom resource: what it makes of a spec, with its defaults, or none where it refuses it.
abbrev pub Schema : Type 0
Schema = StackSpec → Option StackSpec

-- A PUT replaces the whole spec; one whose body is no spec, or a spec that the schema refuses, changes nothing.
abbrev pub specified : Schema → Op → Specs → Reply × Specs
specified schema (read key) m = (on_read (m key), m)
specified schema (remove key) m = (on_remove (m key), set_at key none m)
specified schema (write key (err e)) m = (record { code = 400; spec = none }, m)
specified schema (write key (ok spec)) m =
    (on_write (write_code (m key)) (schema spec), put_at key (schema spec) m)

abbrev pub specified_run : Schema → List Op → Specs → List Reply × Specs
specified_run schema [] m = ([], m)
specified_run schema (op ∷ ops) m =
    let (r, m₁) = specified schema op m in
    let (rs, m₂) = specified_run schema ops m₁ in (r ∷ rs, m₂)

-- An error by which the API server refuses an object: apierrors.IsInvalid, and no other reason.
pub record IsRefusal (K : Kube) (e : K.Error) : Type 0 where
  pub invalid : K.is_invalid e ≡ true
  pub found : K.is_not_found e ≡ false
  pub no_conflict : K.is_conflict e ≡ false

-- An API server that stores Stacks, and the client's cache of it, by their documentation: the server
-- holds `view`, and stores of a spec what the schema makes of it, or refuses it; a Get reads `cached`, which a write
-- does not have to change; when the watch has delivered all events (`sync`), the cache is what the server
-- holds. An Update is accepted for the version of the object that the server holds. There is no other
-- actor, no failure and no finalizer.
pub record Stores (K : Kube) : Type 0 where
  pub schema : Schema
  pub view : K.World → NamespacedName → Option Stack
  pub cached : K.World → NamespacedName → Option Stack
  pub sync : K.World → K.World
  pub sync_view : (w : K.World) → view (sync w) ≡ view w
  pub sync_cached : (w : K.World) → cached (sync w) ≡ view w
  pub view_key :
      (w : K.World) (key : NamespacedName) (o : Stack) → view w key ≡ some o → key_of o.meta ≡ key
  pub get_found :
      (w : K.World) (key : NamespacedName) (o : Stack)
      → cached w key ≡ some o
      → (K.get stack key w).0 ≡ ok o
  pub get_missing :
      (w : K.World) (key : NamespacedName)
      → cached w key ≡ none
      → (e : K.Error) × ((K.get stack key w).0 ≡ err e) × (K.is_not_found e ≡ true)
  pub get_keeps : (w : K.World) (key : NamespacedName) → view (K.get stack key w).1 ≡ view w
  pub create_stores :
      (w : K.World) (o : Stack) (spec : StackSpec)
      → view w (key_of o.meta) ≡ none
      → schema o.spec ≡ some spec
      → (o' : Stack) × ((K.create stack o w).0 ≡ ok o')
        × (o'.spec ≡ spec)
        × (view (K.create stack o w).1 ≡ set_at (key_of o.meta) (some o') (view w))
  pub create_refuses :
      (w : K.World) (o : Stack)
      → view w (key_of o.meta) ≡ none
      → schema o.spec ≡ none
      → (e : K.Error) × ((K.create stack o w).0 ≡ err e)
        × IsRefusal K e
        × (view (K.create stack o w).1 ≡ view w)
  pub update_stores :
      (w : K.World) (o old : Stack) (spec : StackSpec)
      → view w (key_of o.meta) ≡ some old
      → o.meta ≡ old.meta
      → schema o.spec ≡ some spec
      → (o' : Stack) × ((K.update stack o w).0 ≡ ok o')
        × (o'.spec ≡ spec)
        × (view (K.update stack o w).1 ≡ set_at (key_of o.meta) (some o') (view w))
  pub update_refuses :
      (w : K.World) (o old : Stack)
      → view w (key_of o.meta) ≡ some old
      → o.meta ≡ old.meta
      → schema o.spec ≡ none
      → (e : K.Error) × ((K.update stack o w).0 ≡ err e)
        × IsRefusal K e
        × (view (K.update stack o w).1 ≡ view w)
  pub delete_found :
      (w : K.World) (key : NamespacedName) (o : Stack)
      → view w key ≡ some o
      → ((K.delete stack key w).0 ≡ ok tt)
        × (view (K.delete stack key w).1 ≡ set_at key none (view w))
  pub delete_missing :
      (w : K.World) (key : NamespacedName)
      → view w key ≡ none
      → (e : K.Error) × ((K.delete stack key w).0 ≡ err e)
        × (K.is_not_found e ≡ true)
        × (view (K.delete stack key w).1 ≡ view w)
