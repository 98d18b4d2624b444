-- ===== src/Kube/Calls.antt =====
-- The client's calls as computations. The state is the world and a record of the writing calls that
-- the program has made, the latest first: ghost state, which no code reads.
use paas_controlplane.Base.{String, List, ◌∷◌, Bool, true, false, Result, ok, err, if◌then◌else◌}
use paas_controlplane.Api.{Meta, NamespacedName, key_of}
use paas_controlplane.Kube.Workloads.{Quantity, must_parse}
use paas_controlplane.Kube.Objects.{Kind, Obj, meta_of, BaselineObject}
use paas_controlplane.Kube.Client.{Kube, ListOptions, Err, api, panicked}
use mathlib.Core.Option
use mathlib.Core.Option.{Option, none, some}
use paas_controlplane.Kube.Exec.{Exec}

pub data Verb : Type 0 where
  create update delete update_status create_or_update apply : Verb

-- What a call wrote to: an object of a kind, or a baseline document.
pub data Target : Type 0 where
  object : Kind → NamespacedName → Target
  document : NamespacedName → Target

pub record Call : Type 0 where
  pub verb : Verb
  pub target : Target
  pub succeeded : Bool

abbrev pub succeeds {ℓ} : {E A : Type ℓ} → Result E A → Bool
succeeds (ok a) = true
succeeds (err e) = false

abbrev pub api_error : {E A : Type 0} → Result E A → Result (Err E) A
api_error (ok a) = ok a
api_error (err e) = err (api e)

module _ (K : Kube) where
  pub record Cluster : Type 0 where
    pub world : K.World
    pub calls : List Call

  -- A computation of the program.
  abbrev pub Io : Type 0 → Type 0
  Io A = Exec Cluster (Err K.Error) A

  -- A call that writes: it is recorded with its outcome.
  unfoldable pub record_call :
      {A : Type 0} → Verb → Target → (K.World → Result (Err K.Error) A × K.World) → Io A
  record_call v t f s =
      let (r, w) = f s.world in
      (
        r,
        record {
          world = w;
          calls = record { verb = v; target = t; succeeded = succeeds r } ∷ s.calls;
        },
      )

  -- A call that only reads, and the world that it leaves.
  unfoldable pub read_call : {A : Type 0} → (K.World → Result K.Error A × K.World) → Io A
  read_call f s = let (r, w) = f s.world in (api_error r, record s { world = w })

  abbrev pub from_api : {A : Type 0} → Result K.Error A × K.World → Result (Err K.Error) A × K.World
  from_api p = (api_error p.0, p.1)

  abbrev pub get : (k : Kind) → NamespacedName → Io (Obj k)
  get k key = read_call (K.get k key)

  abbrev pub list : (k : Kind) → ListOptions → Io (List (Obj k))
  list k options = read_call (K.list k options)

  abbrev pub create_object : (k : Kind) → Obj k → Io (Obj k)
  create_object k o =
      record_call create (object k (key_of (meta_of k o))) (λ w. from_api (K.create k o w))

  abbrev pub update_object : (k : Kind) → Obj k → Io (Obj k)
  update_object k o =
      record_call update (object k (key_of (meta_of k o))) (λ w. from_api (K.update k o w))

  abbrev pub delete_object : (k : Kind) → NamespacedName → Io (Unit {0})
  delete_object k key = record_call delete (object k key) (λ w. from_api (K.delete k key w))

  abbrev pub update_object_status : (k : Kind) → Obj k → Io (Obj k)
  update_object_status k o =
      record_call update_status (object k (key_of (meta_of k o)))
        (λ w. from_api (K.update_status k o w))

  abbrev pub ensure : (k : Kind) → Obj k → (Obj k → Result (Err K.Error) (Obj k)) → Io (Obj k)
  ensure k o mutate =
      record_call create_or_update (object k (key_of (meta_of k o))) (K.create_or_update k o mutate)

  abbrev pub apply_document : BaselineObject → Io (Unit {0})
  apply_document o = record_call apply (document (key_of o.meta)) (λ w. from_api (K.apply o w))

  -- The owner and the object of controllerutil.SetControllerReference.
  abbrev pub set_owner : Kind → Meta → Meta → Result (Err K.Error) Meta
  set_owner k owner m = api_error (K.set_controller_reference k owner m)

  -- resource.MustParse
  abbrev pub must_parse_quantity : String → Result (Err K.Error) Quantity
  must_parse_quantity s = if K.is_quantity s then ok (must_parse s) else err (panicked s)

  -- client.IgnoreNotFound on an error of the API; no other error is a not-found error.
  abbrev pub ignore_not_found : Err K.Error → Option (Err K.Error)
  ignore_not_found (api e) = Option.map api (K.ignore_not_found e)
  ignore_not_found e = some e

  abbrev pub returns : {A : Type 0} → A → Option (Err K.Error) → Io A
  returns a none s = (ok a, s)
  returns a (some e) s = (err e, s)

  -- apierrors.IsNotFound and meta.IsNoMatchError
  abbrev pub is_not_found : Err K.Error → Bool
  is_not_found (api e) = K.is_not_found e
  is_not_found e = false

  abbrev pub is_no_match : Err K.Error → Bool
  is_no_match (api e) = K.is_no_match e
  is_no_match e = false
