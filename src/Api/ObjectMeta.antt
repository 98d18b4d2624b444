-- ===== src/Api/ObjectMeta.antt =====
-- metav1.ObjectMeta. A timestamp is a number of seconds; `deletion_timestamp` is `none` where the
-- object is not being deleted.
use paas_controlplane.Base.{
  Bool, true, ◌==◌, ◌&&◌, ◌≡◌, arith, eq_iff, ℕ, String, List, [], Option, none, Dict, ℤ, pos,
}

-- types.NamespacedName
pub record NamespacedName : Type 0 where
  pub namespace : String
  pub name : String

-- An owner reference, by the kind and the name of the owner.
pub record OwnerReference : Type 0 where
  pub kind : String
  pub name : String

pub record Meta : Type 0 where
  pub namespace : String
  pub name : String
  pub uid : String
  pub labels : Dict String
  pub annotations : Dict String
  pub finalizers : List String
  pub owner_references : List OwnerReference
  pub generation : ℤ
  pub resource_version : String
  pub creation_timestamp : ℕ
  pub deletion_timestamp : Option ℕ

-- metav1.ObjectMeta{Name: name, Namespace: namespace}
abbrev pub named : String → String → Meta
named namespace name = record {
  namespace = namespace;
  name = name;
  uid = "";
  labels = [];
  annotations = [];
  finalizers = [];
  owner_references = [];
  generation = pos 0;
  resource_version = "";
  creation_timestamp = 0;
  deletion_timestamp = none;
}

-- The key of an object.
abbrev pub key_of : Meta → NamespacedName
key_of m = record { namespace = m.namespace; name = m.name }

-- Whether two keys are equal.
abbrev pub same_key : NamespacedName → NamespacedName → Bool
same_key a b = a.namespace == b.namespace && a.name == b.name

pub same_key-eq : (a b : NamespacedName) → same_key a b ≡ true → b ≡ a
same_key-eq a b e = ground (arith, eq_iff a.namespace b.namespace, eq_iff a.name b.name)
