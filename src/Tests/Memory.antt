-- ===== src/Tests/Memory.antt =====
-- A cluster in memory, on which the theorems are run: a client that stores what it is given.
use paas_controlplane.Base.{
  String, List, [], ◌∷◌, Bool, true, false, not, ◌&&◌, Option, none, some, Dict, ℤ, pos, ◌≡◌, arith,
  Bool-cases, ap, ◌∙◌, sym, and-true, inl, inr, eq_iff, subst, Result, ok, err, if◌then◌else◌, ◌==◌,
  keep, any, lookup, All, ok-injective,
}
use mathlib.Core.Option.{some-injective}
use paas_controlplane.Api.{
  Meta, NamespacedName, named, key_of, same_key, same_key-eq, App, Release, Stack, Environment,
}
use paas_controlplane.Kube.{
  Kube, Kind, Obj, meta_of, Err, ListOptions, Quantity, must_parse, decimal_milli, binary,
  Deployment, Service, StatefulSet, DataObject, Job, MetaObject, VolumeSnapshot, SnapshotContent,
  CnpgCluster, ScheduledBackup, BucketClaim, SnapshotSchedule, Cluster, Answers,
}
use paas_controlplane.Kube as K8s
use paas_controlplane.Kube.Owners.{SetsOwner}

-- The objects of each kind.
pub record Memory : Type 0 where
  pub apps : List App
  pub releases : List Release
  pub stacks : List Stack
  pub environments : List Environment
  pub deployments : List Deployment
  pub services : List Service
  pub stateful_sets : List StatefulSet
  pub secrets : List DataObject
  pub config_maps : List DataObject
  pub jobs : List Job
  pub namespaces : List MetaObject
  pub claims : List MetaObject
  pub snapshots : List VolumeSnapshot
  pub snapshot_contents : List SnapshotContent
  pub cnpg_clusters : List CnpgCluster
  pub scheduled_backups : List ScheduledBackup
  pub bucket_claims : List BucketClaim
  pub snapshot_schedules : List SnapshotSchedule

abbrev pub nothing : Memory
nothing = record {
  apps = [];
  releases = [];
  stacks = [];
  environments = [];
  deployments = [];
  services = [];
  stateful_sets = [];
  secrets = [];
  config_maps = [];
  jobs = [];
  namespaces = [];
  claims = [];
  snapshots = [];
  snapshot_contents = [];
  cnpg_clusters = [];
  scheduled_backups = [];
  bucket_claims = [];
  snapshot_schedules = [];
}

abbrev pub stored : (k : Kind) → Memory → List (Obj k)
stored K8s.app m = m.apps
stored K8s.release m = m.releases
stored K8s.stack m = m.stacks
stored K8s.environment m = m.environments
stored K8s.deployment m = m.deployments
stored K8s.service m = m.services
stored K8s.stateful_set m = m.stateful_sets
stored K8s.secret m = m.secrets
stored K8s.config_map m = m.config_maps
stored K8s.job m = m.jobs
stored K8s.namespace m = m.namespaces
stored K8s.claim m = m.claims
stored K8s.snapshot m = m.snapshots
stored K8s.snapshot_content m = m.snapshot_contents
stored K8s.cnpg_cluster m = m.cnpg_clusters
stored K8s.scheduled_backup m = m.scheduled_backups
stored K8s.bucket_claim m = m.bucket_claims
stored K8s.snapshot_schedule m = m.snapshot_schedules

abbrev pub store_all : (k : Kind) → List (Obj k) → Memory → Memory
store_all K8s.app xs m = record m { apps = xs }
store_all K8s.release xs m = record m { releases = xs }
store_all K8s.stack xs m = record m { stacks = xs }
store_all K8s.environment xs m = record m { environments = xs }
store_all K8s.deployment xs m = record m { deployments = xs }
store_all K8s.service xs m = record m { services = xs }
store_all K8s.stateful_set xs m = record m { stateful_sets = xs }
store_all K8s.secret xs m = record m { secrets = xs }
store_all K8s.config_map xs m = record m { config_maps = xs }
store_all K8s.job xs m = record m { jobs = xs }
store_all K8s.namespace xs m = record m { namespaces = xs }
store_all K8s.claim xs m = record m { claims = xs }
store_all K8s.snapshot xs m = record m { snapshots = xs }
store_all K8s.snapshot_content xs m = record m { snapshot_contents = xs }
store_all K8s.cnpg_cluster xs m = record m { cnpg_clusters = xs }
store_all K8s.scheduled_backup xs m = record m { scheduled_backups = xs }
store_all K8s.bucket_claim xs m = record m { bucket_claims = xs }
store_all K8s.snapshot_schedule xs m = record m { snapshot_schedules = xs }

abbrev pub find : (k : Kind) → NamespacedName → List (Obj k) → Option (Obj k)
find k key [] = none
find k key (x ∷ xs) = if same_key key (key_of (meta_of k x)) then some x else find k key xs

abbrev pub without : (k : Kind) → NamespacedName → List (Obj k) → List (Obj k)
without k key xs = keep (λ x. not (same_key key (key_of (meta_of k x)))) xs

abbrev pub put : (k : Kind) → Obj k → Memory → Memory
put k o m = store_all k (o ∷ without k (key_of (meta_of k o)) (stored k m)) m

pub data Refusal : Type 0 where
  missing exists invalid : Refusal

abbrev is_missing : Refusal → Bool
is_missing missing = true
is_missing exists = false
is_missing invalid = false

abbrev pub to_result {ℓ} : {E A : Type ℓ} → E → Option A → Result E A
to_result e none = err e
to_result e (some a) = ok a

abbrev pub stored_or_fresh {ℓ} : {A : Type ℓ} → A → Option A → A
stored_or_fresh a none = a
stored_or_fresh a (some b) = b

abbrev pub written :
    (k : Kind) → Memory → Result (Err Refusal) (Obj k) → Result (Err Refusal) (Obj k) × Memory
written k m (ok o) = (ok o, put k o m)
written k m (err e) = (err e, m)

abbrev pub removed :
    (k : Kind) → NamespacedName → Memory → Option (Obj k) → Result Refusal (Unit {0}) × Memory
removed k key m none = (err missing, m)
removed k key m (some o) = (ok tt, store_all k (without k key (stored k m)) m)

abbrev carries : String → Option String → Bool
carries v none = false
carries v (some w) = w == v

abbrev has_labels : Dict String → Dict String → Bool
has_labels [] labels = true
has_labels ((k, v) ∷ rest) labels = carries v (lookup k labels) && has_labels rest labels

abbrev in_namespace : Option String → String → Bool
in_namespace none ns = true
in_namespace (some n) ns = n == ns

abbrev selected : ListOptions → Meta → Bool
selected o m = in_namespace o.namespace m.namespace && has_labels o.matching_labels m.labels

abbrev kind_name : Kind → String
kind_name K8s.app = "App"
kind_name K8s.stack = "Stack"
kind_name _ = "Other"

abbrev amount : Quantity → ℤ
amount (must_parse s) = if s == "500m" then pos 500 else pos 1000
amount (decimal_milli n) = n
amount (binary n) = n

abbrev holds : String → List String → Bool
holds f fs = any (λ g. g == f) fs

abbrev pub memory : Kube
memory = record {
  World = Memory;
  Error = Refusal;
  is_not_found = is_missing;
  is_no_match = λ e. false;
  is_conflict = λ e. false;
  is_invalid = λ e. false;
  is_bad_request = λ e. false;
  is_forbidden = λ e. false;
  is_unauthorized = λ e. false;
  is_already_exists = λ e. not (is_missing e);
  error_text = λ e. if is_missing e then "not found" else "already exists";
  ignore_not_found = λ e. if is_missing e then none else some e;
  get = λ k key m. (to_result missing (find k key (stored k m)), m);
  list = λ k o m. (ok (keep (λ x. selected o (meta_of k x)) (stored k m)), m);
  create = λ k o m. (ok o, put k o m);
  update = λ k o m. (ok o, put k o m);
  delete = λ k key m. removed k key m (find k key (stored k m));
  apply = λ o m. (ok tt, m);
  update_status = λ k o m. (ok o, put k o m);
  create_or_update =
      λ k o f m. written k m (f (stored_or_fresh o (find k (key_of (meta_of k o)) (stored k m))));
  set_controller_reference = λ k owner m.
      ok (record m { owner_references = record { kind = kind_name k; name = owner.name } ∷ [] });
  is_quantity = λ s. not (s == "many");
  milli_value = amount;
  value = amount;
  contains_finalizer = λ m f. holds f m.finalizers;
  add_finalizer = λ m f.
      if holds f m.finalizers
      then (false, m)
      else (true, record m { finalizers = f ∷ m.finalizers });
  remove_finalizer = λ m f. record m { finalizers = keep (λ g. not (g == f)) m.finalizers };
  unmarshal_baseline =
      λ s. ok (some (record { meta = named "" "doc"; kind = "NetworkPolicy"; body = s }));
}

pub memory-SetsOwner : SetsOwner memory
memory-SetsOwner = record {
  only_owners = λ k owner m m' e. ground arith;
  again = λ k owner m m' e. ground arith;
}

to_result-ok : {E A : Type 0} (e : E) (o : Option A) (a : A) → to_result e o ≡ ok a → o ≡ some a
to_result-ok e none a p = absurd (cc)
to_result-ok e (some b) a p = ground arith

pub find-key :
    (k : Kind) (key : NamespacedName) (xs : List (Obj k)) (o : Obj k)
    → find k key xs ≡ some o
    → key_of (meta_of k o) ≡ key
find-key k key [] o e = cc
find-key k key (x ∷ xs) o e = elim (Bool-cases (same_key key (key_of (meta_of k x)))) [
  | inl here ↦
      subst (λ y. key_of (meta_of k y) ≡ key) (some-injective x o (rw here at e))
        (same_key-eq key (key_of (meta_of k x)) here)
  | inr later ↦ find-key k key xs o (rw later at e)
]

carries-eq : (v : String) (o : Option String) → carries v o ≡ true → o ≡ some v
carries-eq v none h = cc
carries-eq v (some w) h = ground (arith, eq_iff w v)

has_labels-lookup :
    (wanted labels : Dict String) (k v : String)
    → has_labels wanted labels ≡ true
    → lookup k wanted ≡ some v
    → lookup k labels ≡ some v
unfolding lookup
has_labels-lookup [] labels k v h e = cc
has_labels-lookup ((j, w) ∷ rest) labels k v h e =
    let (here, later) = and-true (carries w (lookup j labels)) (has_labels rest labels) h in
    elim (Bool-cases (j == k)) [
      | inl same ↦
          let found : lookup j labels ≡ some v =
            carries-eq w (lookup j labels) here ∙ (rw same at e) in
          subst (λ x. lookup x labels ≡ some v) ((eq_iff j k).0 same) found
      | inr other ↦ has_labels-lookup rest labels k v later (rw other at e)
    ]

kept_labels :
    (k : Kind) (options : ListOptions) (label v : String)
    → lookup label options.matching_labels ≡ some v
    → (xs : List (Obj k))
    → All
        (λ o. lookup label (meta_of k o).labels ≡ some v)
        (keep (λ x. selected options (meta_of k x)) xs)
kept_labels k options label v e [] = tt
kept_labels k options label v e (x ∷ xs) =
    let rest = kept_labels k options label v e xs in
    elim (Bool-cases (selected options (meta_of k x))) [
      | inr out ↦ rw (out, All) rest
      | inl is_in ↦
          rw (is_in, All)
            (
              has_labels-lookup options.matching_labels (meta_of k x).labels label v
                  (and-true (in_namespace options.namespace (meta_of k x).namespace)
                    (has_labels options.matching_labels (meta_of k x).labels) is_in).1
                  e,
              rest,
            )
    ]

pub memory-Answers : Answers memory
memory-Answers = record {
  get_key = λ k key w o e. find-key k key (stored k w) o (to_result-ok missing _ o e);
  update_key = λ k o w o' e. ap (λ (x : Obj k). key_of (meta_of k x)) (ok-injective o' o (sym e));
  finalizer_key = λ m f. ground arith;
  list_label = λ k options w os label v e m.
      subst (All (λ o. lookup label (meta_of k o).labels ≡ some v)) (ok-injective _ os e)
        (kept_labels k options label v m (stored k w));
}

abbrev pub cluster : Memory → Cluster memory
cluster m = record { world = m; calls = [] }
