-- ===== src/Kube/Client.antt =====
-- The client library (sigs.k8s.io/controller-runtime and k8s.io/apimachinery) as an interface. The
-- library is not part of the program, so the model takes any implementation of it: the world is
-- whatever the API server and the other actors keep, and every call may change it. A `get` or a
-- `list` may change the world too, since other actors run beside the program.
use paas_controlplane.Base.{
  ℕ, String, List, Bool, Option, Dict, ℤ, Result, ok, ◌≡◌, lookup, some, All,
}
use paas_controlplane.Api.{Meta, NamespacedName, key_of}
use paas_controlplane.Kube.Workloads.{Quantity}
use paas_controlplane.Kube.Objects.{Kind, Obj, meta_of, BaselineObject}

-- What a client.List call selects: all namespaces where `namespace` is `none`.
pub record ListOptions : Type 0 where
  pub namespace : Option String
  pub matching_labels : Dict String

-- A Go error: one of the API's, one made by the program, one wrapped with %w, or a panic, which
-- passes through every handler of the program.
pub data Err (E : Type 0) : Type 0 where
  api : E → Err E
  msg : String → Err E
  wrapped : String → Err E → Err E
  panicked : String → Err E

-- fmt.Errorf("s: %w", e); a panic is not caught.
abbrev pub wrap : {E : Type 0} → String → Err E → Err E
wrap s (panicked m) = panicked m
wrap s (api e) = wrapped s (api e)
wrap s (msg m) = wrapped s (msg m)
wrap s (wrapped t e) = wrapped s (wrapped t e)

pub record Kube : Type 1 where
  pub World : Type 0
  pub Error : Type 0
  -- apierrors.IsNotFound, meta.IsNoMatchError, client.IgnoreNotFound
  pub is_not_found : Error → Bool
  pub is_no_match : Error → Bool
  -- apierrors.IsConflict, IsInvalid, IsBadRequest, IsForbidden, IsUnauthorized, IsAlreadyExists
  pub is_conflict : Error → Bool
  pub is_invalid : Error → Bool
  pub is_bad_request : Error → Bool
  pub is_forbidden : Error → Bool
  pub is_unauthorized : Error → Bool
  pub is_already_exists : Error → Bool
  -- the method Error
  pub error_text : Error → String
  pub ignore_not_found : Error → Option Error
  -- client.Reader
  pub get : (k : Kind) → NamespacedName → World → Result Error (Obj k) × World
  pub list : (k : Kind) → ListOptions → World → Result Error (List (Obj k)) × World
  -- client.Writer; an object comes back as the server stored it
  pub create : (k : Kind) → Obj k → World → Result Error (Obj k) × World
  pub update : (k : Kind) → Obj k → World → Result Error (Obj k) × World
  pub delete : (k : Kind) → NamespacedName → World → Result Error (Unit {0}) × World
  -- Patch with client.Apply, the field owner paas-environment and ForceOwnership
  pub apply : BaselineObject → World → Result Error (Unit {0}) × World
  -- client.StatusWriter.Update
  pub update_status : (k : Kind) → Obj k → World → Result Error (Obj k) × World
  -- controllerutil.CreateOrUpdate, with the mutate function that the program gives it
  pub create_or_update :
      (k : Kind)
      → Obj k
      → (Obj k → Result (Err Error) (Obj k))
      → World
      → Result (Err Error) (Obj k) × World
  -- controllerutil.SetControllerReference: the owner's kind and metadata, the object's metadata
  pub set_controller_reference : Kind → Meta → Meta → Result Error Meta
  -- resource.Quantity: whether a text parses, MilliValue, Value
  pub is_quantity : String → Bool
  pub milli_value : Quantity → ℤ
  pub value : Quantity → ℤ
  -- controllerutil.ContainsFinalizer, AddFinalizer (with whether it added), RemoveFinalizer
  pub contains_finalizer : Meta → String → Bool
  pub add_finalizer : Meta → String → Bool × Meta
  pub remove_finalizer : Meta → String → Meta
  -- sigs.k8s.io/yaml Unmarshal of a baseline document: a parse error, or the object, `none` where it
  -- has no fields
  pub unmarshal_baseline : String → Result String (Option BaselineObject)

-- ctrl.Result: the seconds of RequeueAfter, 0 for none.
pub record ReconcileResult : Type 0 where
  pub requeue_after : ℕ

abbrev pub done : ReconcileResult
done = record { requeue_after = 0 }

-- The client's documentation: Get and Update return the object with the key that they were given,
-- AddFinalizer touches the finalizers only, and List returns objects with the labels asked for.
pub record Answers (K : Kube) : Type 0 where
  pub get_key :
      (k : Kind) (key : NamespacedName) (w : K.World) (o : Obj k)
      → (K.get k key w).0 ≡ ok o
      → key_of (meta_of k o) ≡ key
  pub update_key :
      (k : Kind) (o : Obj k) (w : K.World) (o' : Obj k)
      → (K.update k o w).0 ≡ ok o'
      → key_of (meta_of k o') ≡ key_of (meta_of k o)
  pub finalizer_key : (m : Meta) (f : String) → key_of (K.add_finalizer m f).1 ≡ key_of m
  pub list_label :
      (k : Kind) (options : ListOptions) (w : K.World) (os : List (Obj k)) (label v : String)
      → (K.list k options w).0 ≡ ok os
      → lookup label options.matching_labels ≡ some v
      → All (λ o. lookup label (meta_of k o).labels ≡ some v) os
