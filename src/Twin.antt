-- ===== src/Twin.antt =====
-- internal/api/server.go, the overlay of the canvas: twins, processStatuses and backingStatuses. They
-- have no error to return: what cannot be read is left out or not ready.
mod Sort
pub mod Overlay
unfoldable pub use Sort.*
use paas_controlplane.Base.{
  String, List, [], ◌∷◌, Bool, false, not, ◌||◌, Option, none, some, ℤ, pos, is_pos, if◌then◌else◌,
  Result, ok, err, text_le, value_at, ◌==◌,
}
use paas_controlplane.Api.{Stack, BackingSpec, NamespacedName}
use paas_controlplane.Kube.{
  Kube, Kind, Obj, Cluster, Err, Deployment, StatefulSet, CnpgCluster, BucketClaim, deployment,
  stack, stateful_set, cnpg_cluster, bucket_claim, get, list,
}
use paas_controlplane.StackController.Setup.{stack_label}
use paas_controlplane.StackController.Buckets.{backing_name_for}
use paas_controlplane.StackController.Backings.{equal_fold}

pub record ProcessStatus : Type 0 where
  pub service : String
  pub process : String
  pub ready : ℤ
  pub desired : ℤ

pub record BackingStatus : Type 0 where
  pub name : String
  pub engine : String
  pub ready : Bool

pub record StackTwin : Type 0 where
  pub namespace : String
  pub name : String
  pub phase : String
  pub release_hook : String
  pub services : ℤ
  pub ready_services : ℤ
  pub generation : ℤ
  pub observed_generation : ℤ
  pub processes : List ProcessStatus
  pub backing : List BackingStatus

-- < on Go's strings
abbrev pub text_lt : String → String → Bool
text_lt s t = not (text_le t s)

-- The less functions: by the first text, and by the second where the first ones are equal.
unfoldable pub pair_lt : String → String → String → String → Bool
unfolding text_le
pair_lt a b c d = if a == c then text_lt b d else text_lt a c

unfoldable pub process_lt : ProcessStatus → ProcessStatus → Bool
unfolding pair_lt
process_lt x y = pair_lt x.service x.process y.service y.process

unfoldable pub twin_lt : StackTwin → StackTwin → Bool
unfolding pair_lt
twin_lt x y = pair_lt x.namespace x.name y.namespace y.name

abbrev pub desired_of : Option ℤ → ℤ
desired_of none = pos 1
desired_of (some n) = n

abbrev pub process_status : Deployment → ProcessStatus
process_status d = record {
  service = value_at "paas.sh/service" d.meta.labels;
  process = value_at "paas.sh/process" d.meta.labels;
  ready = d.ready_replicas;
  desired = desired_of d.replicas;
}

-- The loop over the Deployments, which skips those that are not of a process.
unfoldable pub process_entries : List Deployment → List ProcessStatus
unfolding value_at
process_entries [] = []
process_entries (d ∷ ds) =
    let rest = process_entries ds in
    if value_at "paas.sh/process" d.meta.labels == "" then rest else process_status d ∷ rest

abbrev pub listed_processes : {E : Type 0} → Result E (List Deployment) → List ProcessStatus
listed_processes (ok deps) = sort_by process_lt (process_entries deps)
listed_processes (err e) = []

abbrev pub cluster_ready : {E : Type 0} → Result E CnpgCluster → Bool
cluster_ready (ok c) = is_pos c.ready_instances
cluster_ready (err e) = false

abbrev pub claim_ready : {E : Type 0} → Result E BucketClaim → Bool
claim_ready (ok c) = c.phase == "Bound"
claim_ready (err e) = false

abbrev pub set_ready : {E : Type 0} → Result E StatefulSet → Bool
set_ready (ok s) = is_pos s.ready_replicas
set_ready (err e) = false

module _ (K : Kube) where
  unfoldable pub process_statuses : Stack → Cluster K → List ProcessStatus × Cluster K
  unfolding sort_by process_lt process_entries
  process_statuses st s =
      let (r, s') =
        list K deployment
          (record {
            namespace = some st.meta.namespace;
            matching_labels = stack_label st.meta.name ∷ [];
          })
          s in
      (listed_processes r, s')

  -- Reads an object of a kind, and says what it shows.
  abbrev pub look :
      (k : Kind)
      → (Result (Err K.Error) (Obj k) → Bool)
      → NamespacedName
      → Cluster K
      → Bool × Cluster K
  look k shows key s = let (r, s') = get K k key s in (shows r, s')

  unfoldable pub backing_ready : BackingSpec → NamespacedName → Cluster K → Bool × Cluster K
  backing_ready b key s =
      if equal_fold b.engine "postgres" || equal_fold b.engine "postgresql"
      then look cnpg_cluster cluster_ready key s
      else if equal_fold b.engine "object" || equal_fold b.engine "s3"
      then look bucket_claim claim_ready key s
      else look stateful_set set_ready key s

  unfoldable pub backing_statuses :
      Stack → List BackingSpec → Cluster K → List BackingStatus × Cluster K
  unfolding backing_ready
  backing_statuses st [] s = ([], s)
  backing_statuses st (b ∷ bs) s =
      let key : NamespacedName = record {
        namespace = st.meta.namespace;
        name = backing_name_for st b;
      } in
      let (ready, s₁) = backing_ready b key s in
      let (rest, s₂) = backing_statuses st bs s₁ in
      (record { name = b.name; engine = b.engine; ready = ready } ∷ rest, s₂)

  unfoldable pub twin_of : Stack → Cluster K → StackTwin × Cluster K
  unfolding process_statuses backing_statuses
  twin_of st s =
      let (processes, s₁) = process_statuses st s in
      let (backing, s₂) = backing_statuses st st.spec.backing s₁ in
      (
        record {
          namespace = st.meta.namespace;
          name = st.meta.name;
          phase = st.status.phase;
          release_hook = st.status.release_hook;
          services = st.status.services;
          ready_services = st.status.ready_services;
          generation = st.meta.generation;
          observed_generation = st.status.observed_generation;
          processes = processes;
          backing = backing;
        },
        s₂,
      )

  unfoldable pub twin_entries : List Stack → Cluster K → List StackTwin × Cluster K
  unfolding twin_of
  twin_entries [] s = ([], s)
  twin_entries (st ∷ sts) s =
      let (twin, s₁) = twin_of st s in let (rest, s₂) = twin_entries sts s₁ in (twin ∷ rest, s₂)

  abbrev pub sorted_twins :
      Result (Err K.Error) (List Stack) → Cluster K → List StackTwin × Cluster K
  sorted_twins (ok sts) s = let (out, s') = twin_entries sts s in (sort_by twin_lt out, s')
  sorted_twins (err e) s = ([], s)

  -- All Stacks, of every namespace.
  abbrev pub listed_stacks : Cluster K → Result (Err K.Error) (List Stack) × Cluster K
  listed_stacks s = list K stack (record { namespace = none; matching_labels = [] }) s

  unfoldable pub twins : Cluster K → List StackTwin × Cluster K
  unfolding sort_by twin_lt twin_entries
  twins s = let (r, s') = listed_stacks s in sorted_twins r s'
