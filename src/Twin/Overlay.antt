-- ===== src/Twin/Overlay.antt =====
-- What the overlay shows, and that it only reads: internal/api/server.go, twins and what it calls.
use paas_controlplane.Base.{
  String, List, [], ◌∷◌, map, true, false, not, ◌||◌, if◌then◌else◌, Result, ok, err, text_le,
  text_le_total, ◌≡◌, refl, ◌∙◌, inl, inr, Bool-cases, ◌==◌, eq_iff, sym, eq_refl, subst, ap,
}
use mathlib.Core.Bool.{true≢false}
use mathlib.Core.List.{Perm}
use mathlib.Core.List.Perm
use paas_controlplane.Api.{Stack, BackingSpec, NamespacedName, key_of}
use paas_controlplane.Kube.{Kube, Cluster, Err, Deployment, read_call}
use paas_controlplane.StackController.Backings.{equal_fold}
use paas_controlplane.Twin.{
  ProcessStatus, StackTwin, text_lt, pair_lt, process_lt, twin_lt, process_entries, sort_by,
  Ordered, sort_by-Ordered, sort_by-Perm, listed_processes, process_statuses, backing_ready,
  backing_statuses, twin_of, twin_entries, sorted_twins, listed_stacks, twins,
}

text_lt_asym : (s t : String) → text_lt s t ≡ true → text_lt t s ≡ false
text_lt_asym s t h = elim (Bool-cases (text_le t s)) [
  | inl e ↦ absurd (true≢false (sym h ∙ ap not e))
  | inr e ↦ ap not (text_le_total t s e)
]

not-same : (s t : String) → (s == t) ≡ false → (t == s) ≡ false
not-same s t h = elim (Bool-cases (t == s)) [
  | inl e ↦
      absurd
        (true≢false (sym (subst (λ x. (s == x) ≡ true) (sym ((eq_iff t s).0 e)) (eq_refl s)) ∙ h))
  | inr e ↦ e
]

same-again : (s t : String) → (s == t) ≡ true → (t == s) ≡ true
same-again s t h = subst (λ x. (x == s) ≡ true) ((eq_iff s t).0 h) (eq_refl s)

pair_lt_same : (a b c d : String) → (a == c) ≡ true → pair_lt a b c d ≡ text_lt b d
unfolding pair_lt
pair_lt_same a b c d e = ap (λ x. if x then text_lt b d else text_lt a c) e

pair_lt_other : (a b c d : String) → (a == c) ≡ false → pair_lt a b c d ≡ text_lt a c
unfolding pair_lt
pair_lt_other a b c d e = ap (λ x. if x then text_lt b d else text_lt a c) e

pair_lt_asym : (a b c d : String) → pair_lt a b c d ≡ true → pair_lt c d a b ≡ false
pair_lt_asym a b c d h = elim (Bool-cases (a == c)) [
  | inl e ↦
      pair_lt_same c d a b (same-again a c e) ∙ text_lt_asym b d (sym (pair_lt_same a b c d e) ∙ h)
  | inr e ↦
      pair_lt_other c d a b (not-same a c e) ∙ text_lt_asym a c (sym (pair_lt_other a b c d e) ∙ h)
]

process_lt_asym : (x y : ProcessStatus) → process_lt x y ≡ true → process_lt y x ≡ false
unfolding process_lt
process_lt_asym x y h = pair_lt_asym x.service x.process y.service y.process h

twin_lt_asym : (x y : StackTwin) → twin_lt x y ≡ true → twin_lt y x ≡ false
unfolding twin_lt
twin_lt_asym x y h = pair_lt_asym x.namespace x.name y.namespace y.name h

-- For every list of Deployments: the processes shown are those of the Deployments with a process
-- label, each once, in the order of their service and then of their name.
pub listed_processes_lem :
    (deps : List Deployment)
    → Ordered process_lt (listed_processes {E = Unit {0}} (ok deps))
      × Perm (listed_processes {E = Unit {0}} (ok deps)) (process_entries deps)
listed_processes_lem deps = (
  sort_by-Ordered process_lt (process_entries deps) process_lt_asym,
  sort_by-Perm process_lt (process_entries deps),
)

abbrev pub twin_key : StackTwin → NamespacedName
twin_key t = record { namespace = t.namespace; name = t.name }

module _ (K : Kube) where
  process_statuses-calls :
      (st : Stack) (s : Cluster K) → (process_statuses K st s).1.calls ≡ s.calls
  unfolding process_statuses read_call
  process_statuses-calls st s = refl

  backing_ready-calls :
      (b : BackingSpec) (key : NamespacedName) (s : Cluster K)
      → (backing_ready K b key s).1.calls ≡ s.calls
  unfolding backing_ready read_call
  backing_ready-calls b key s =
      elim (Bool-cases (equal_fold b.engine "postgres" || equal_fold b.engine "postgresql")) [
        | inl e ↦ rw e refl
        | inr e ↦
            rw e (elim (Bool-cases (equal_fold b.engine "object" || equal_fold b.engine "s3")) [
              | inl f ↦ rw f refl
              | inr f ↦ rw f refl
            ])
      ]

  backing_statuses-calls :
      (st : Stack) (bs : List BackingSpec) (s : Cluster K)
      → (backing_statuses K st bs s).1.calls ≡ s.calls
  unfolding backing_statuses
  backing_statuses-calls st [] s = refl
  backing_statuses-calls st (b ∷ bs) s = backing_statuses-calls st bs _ ∙ backing_ready-calls b _ s

  twin_entries-calls : (sts : List Stack) (s : Cluster K) → (twin_entries K sts s).1.calls ≡ s.calls
  unfolding twin_entries twin_of
  twin_entries-calls [] s = refl
  twin_entries-calls (st ∷ sts) s =
      twin_entries-calls sts _
      ∙ backing_statuses-calls st st.spec.backing _
      ∙ process_statuses-calls st s

  sorted_twins-calls :
      (r : Result (Err K.Error) (List Stack)) (s : Cluster K)
      → (sorted_twins K r s).1.calls ≡ s.calls
  sorted_twins-calls (ok sts) s = twin_entries-calls sts s
  sorted_twins-calls (err e) s = refl

  sorted_twins-Ordered :
      (r : Result (Err K.Error) (List Stack)) (s : Cluster K)
      → Ordered twin_lt (sorted_twins K r s).0
  sorted_twins-Ordered (ok sts) s = sort_by-Ordered twin_lt (twin_entries K sts s).0 twin_lt_asym
  sorted_twins-Ordered (err e) s = tt

  pub twins-calls : (s : Cluster K) → (twins K s).1.calls ≡ s.calls
  unfolding twins read_call
  twins-calls s = sorted_twins-calls (listed_stacks K s).0 (listed_stacks K s).1

  twin_entries-keys :
      (sts : List Stack) (s : Cluster K)
      → map twin_key (twin_entries K sts s).0 ≡ map (λ st. key_of st.meta) sts
  unfolding twin_entries twin_of
  twin_entries-keys [] s = refl
  twin_entries-keys (st ∷ sts) s = ap (λ ks. key_of st.meta ∷ ks) (twin_entries-keys sts _)

  sorted_twins-keys :
      (r : Result (Err K.Error) (List Stack)) (sts : List Stack) (s : Cluster K)
      → r ≡ ok sts
      → Perm (map twin_key (sorted_twins K r s).0) (map (λ st. key_of st.meta) sts)
  sorted_twins-keys r sts s e =
      subst (λ x. Perm (map twin_key (sorted_twins K x s).0) (map (λ st. key_of st.meta) sts))
        (sym e)
        (subst (Perm (map twin_key (sort_by twin_lt (twin_entries K sts s).0)))
          (twin_entries-keys sts s)
          (Perm.map twin_key (sort_by-Perm twin_lt (twin_entries K sts s).0)))

  -- For every client and state: the overlay makes no writing call, and lists its Stacks in the order of
  -- their namespace and then of their name; where the Stacks can be listed, each is in it exactly
  -- once, whatever else fails.
  pub twins_lem :
      (s : Cluster K)
      → ((twins K s).1.calls ≡ s.calls)
        × Ordered twin_lt (twins K s).0
        × ((sts : List Stack)
            → (listed_stacks K s).0 ≡ ok sts
            → Perm (map twin_key (twins K s).0) (map (λ st. key_of st.meta) sts))
  unfolding twins
  twins_lem s = (
    twins-calls s,
    sorted_twins-Ordered (listed_stacks K s).0 (listed_stacks K s).1,
    λ sts e. sorted_twins-keys (listed_stacks K s).0 sts (listed_stacks K s).1 e,
  )
