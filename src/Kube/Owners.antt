-- ===== src/Kube/Owners.antt =====
-- What the mutate functions rely on of controllerutil.SetControllerReference, by its documentation:
-- it touches nothing but the owner references, and setting the same controller again changes nothing.
use paas_controlplane.Base.{
  ◌≡◌, refl, ap, subst, arith, ok, err, Result, Dict, String, and_then, ok-injective,
}
use paas_controlplane.Api.{Meta}
use paas_controlplane.Kube.Objects.{Kind}
use paas_controlplane.Kube.Client.{Kube}
use paas_controlplane.Kube.Calls.{set_owner, api_error}

pub record SetsOwner (K : Kube) : Type 0 where
  pub only_owners :
      (k : Kind) (owner m m' : Meta)
      → K.set_controller_reference k owner m ≡ ok m'
      → m' ≡ record m { owner_references = m'.owner_references }
  pub again :
      (k : Kind) (owner m m' : Meta)
      → K.set_controller_reference k owner m ≡ ok m'
      → K.set_controller_reference k owner m' ≡ ok m'

pub api_error-ok : {E A : Type 0} (r : Result E A) (a : A) → api_error r ≡ ok a → r ≡ ok a
api_error-ok (ok b) a e = ground arith
api_error-ok (err x) a e = cc

-- Inversion of a step that succeeded.
pub and_then-ok :
    {E A B : Type 0} (r : Result E A) (f : A → Result E B) (b : B)
    → and_then r f ≡ ok b
    → (a : A) × (r ≡ ok a) × (f a ≡ ok b)
and_then-ok (ok a) f b e = (a, refl, e)
and_then-ok (err x) f b e = absurd (cc)

module _ (K : Kube) (owners : SetsOwner K) (k : Kind) (owner m m' : Meta) where
  pub set_owner-keeps :
      set_owner K k owner m ≡ ok m' → m' ≡ record m { owner_references = m'.owner_references }
  set_owner-keeps e = owners.only_owners k owner m m' (api_error-ok _ m' e)

  pub set_owner_again : set_owner K k owner m ≡ ok m' → set_owner K k owner m' ≡ ok m'
  set_owner_again e = ap api_error (owners.again k owner m m' (api_error-ok _ m' e))

module _ (K : Kube) (owners : SetsOwner K) (k : Kind) (owner : Meta) (labels : Dict String)
    (m m' : Meta) where
  -- Setting the labels and the owner of an object that has both already changes nothing.
  pub set_labels_owner_again :
      set_owner K k owner (record m { labels = labels }) ≡ ok m'
      → set_owner K k owner (record m' { labels = labels }) ≡ ok m'
  set_labels_owner_again e =
      let kept : m'.labels ≡ labels =
        ap (λ (x : Meta). x.labels)
          (set_owner-keeps K owners k owner (record m { labels = labels }) m' e) in
      let same : m' ≡ record m' { labels = labels } = λ i. record m' { labels = kept i } in
      subst (λ (x : Meta). set_owner K k owner x ≡ ok m') same
        (set_owner_again K owners k owner (record m { labels = labels }) m' e)

-- A mutate function that succeeds again on its own result and changes nothing.
pub record IsStable {E O : Type 0} (f : O → Result E O) : Type 0 where
  pub again : (x y : O) → f x ≡ ok y → f y ≡ ok y

-- A mutate function that cannot fail.
pub IsStable-pure :
    {E O : Type 0} (f : O → O) → ((o : O) → f (f o) ≡ f o) → IsStable {E = E} (λ o. ok (f o))
IsStable-pure {E} {O} f again = record {
  again = λ x y e.
      let same = ok-injective (f x) y e in
      subst (λ o. ◌≡◌ {A = Result E O} (ok (f o)) (ok o)) same (ap ok (again x));
}

-- A part that does not look at the object.
pub IsStable-and_then :
    {E A O : Type 0} (r : Result E A) (f : A → O → Result E O)
    → ((a : A) → IsStable (f a))
    → IsStable (λ o. and_then r (λ a. f a o))
IsStable-and_then (ok a) f h = record { again = λ x y e. (h a).again x y e }
IsStable-and_then (err b) f h = record { again = λ x y e. absurd (cc) }

module _ (K : Kube) (owners : SetsOwner K) (k : Kind) (owner : Meta) {O : Type 0} (meta : O → Meta)
    (build : Meta → O → O) (kept : (m : Meta) (o : O) → meta (build m o) ≡ m)
    (rebuilt : (m n : Meta) (o : O) → build m (build n o) ≡ build m o) where
  -- Labels and the owner are set, and the object is built around the new metadata.
  pub IsStable-labelled :
      (labels : Dict String)
      → IsStable (λ o.
        and_then (set_owner K k owner (record (meta o) { labels = labels })) (λ m. ok (build m o)))
  IsStable-labelled labels = record {
    again = λ x y e.
        let (m, owned, written) =
          and_then-ok (set_owner K k owner (record (meta x) { labels = labels })) _ y e in
        subst
          (λ o.
            and_then (set_owner K k owner (record (meta o) { labels = labels }))
              (λ m. ok (build m o))
            ≡ ok o)
          (ok-injective (build m x) y written)
          (rw (kept m x) (
            rw (set_labels_owner_again K owners k owner labels (meta x) m owned)
              (ap ok (rebuilt m m x))));
  }

  -- Only the owner is set.
  pub IsStable-owned : IsStable (λ o. and_then (set_owner K k owner (meta o)) (λ m. ok (build m o)))
  IsStable-owned = record {
    again = λ x y e.
        let (m, owned, written) = and_then-ok (set_owner K k owner (meta x)) _ y e in
        subst (λ o. and_then (set_owner K k owner (meta o)) (λ m. ok (build m o)) ≡ ok o)
          (ok-injective (build m x) y written)
          (rw (kept m x)
            (rw (set_owner_again K owners k owner (meta x) m owned) (ap ok (rebuilt m m x))));
  }
