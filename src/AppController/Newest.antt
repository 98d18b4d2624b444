-- ===== src/AppController/Newest.antt =====
-- The choice of the newest Release in `Reconcile` of app_controller.go.
use mathlib.Core.List.{Memᴰ}
use mathlib.Core.Option.{some-injective}
use paas_controlplane.Base.{
  ℕ, ◌≤◌, String, List, [], ◌∷◌, Option, none, some, ◌≡◌, refl, sym, ◌⊎◌, inl, inr, ◌↔◌, ◌≢◌, ◌∙◌,
  subst, arith, eq_iff, All,
}
use paas_controlplane.Api.{Release}
use paas_controlplane.AppController.{pick, newest_from}

-- A release of the app that is no newer than the time t.
abbrev pub NoNewer : String → ℕ → Release → Type 0
NoNewer name t rel = rel.spec.app ≡ name → rel.meta.creation_timestamp ≤ t

abbrev AtMost : Option Release → ℕ → Type 0
AtMost none t = Unit
AtMost (some b) t = b.meta.creation_timestamp ≤ t

pick-AtMost :
    (name : String) (acc : Option Release) (x : Release) (t : ℕ)
    → AtMost (pick name acc x) t
    → AtMost acc t × NoNewer name t x
unfolding pick
pick-AtMost name none x t h = ground (arith, eq_iff x.spec.app name)
pick-AtMost name (some b) x t h = ground (arith, eq_iff x.spec.app name)

newest-AtMost :
    (name : String) (acc : Option Release) (rels : List Release) (r : Release)
    → newest_from name acc rels ≡ some r
    → AtMost acc r.meta.creation_timestamp × All (NoNewer name r.meta.creation_timestamp) rels
unfolding newest_from
newest-AtMost name none [] r e = (tt, tt)
newest-AtMost name (some b) [] r e = (ground arith, tt)
newest-AtMost name acc (x ∷ xs) r e =
    let (later, rest) = newest-AtMost name (pick name acc x) xs r e in
    let (here, bound) = pick-AtMost name acc x r.meta.creation_timestamp later in
    (here, (bound, rest))

pick_from :
    (name : String) (acc : Option Release) (x : Release)
    → (pick name acc x ≡ acc) ⊎ ((pick name acc x ≡ some x) × (x.spec.app ≡ name))
unfolding pick
pick_from name none x = ground (arith, eq_iff x.spec.app name)
pick_from name (some b) x = ground (arith, eq_iff x.spec.app name)

newest_from-mem :
    (name : String) (acc : Option Release) (rels : List Release) (r : Release)
    → newest_from name acc rels ≡ some r
    → (acc ≡ some r) ⊎ (Memᴰ r rels × (r.spec.app ≡ name))
unfolding newest_from
newest_from-mem name acc [] r e = inl e
newest_from-mem name acc (x ∷ xs) r e = elim (newest_from-mem name (pick name acc x) xs r e) [
  | inr (m, own) ↦ inr (Memᴰ.tail m, own)
  | inl p ↦ elim (pick_from name acc x) [
    | inl q ↦ inl (sym q ∙ p)
    | inr (q, own) ↦
        let same = some-injective x r (sym q ∙ p) in
        inr (Memᴰ.head (sym same), subst (λ (t : Release). t.spec.app ≡ name) same own)
  ]
]

pick-ne : (name : String) (x : Release) → pick name none x ≡ none → x.spec.app ≢ name
unfolding pick
pick-ne name x q own = ground (arith, eq_iff x.spec.app name)

some-newest_from :
    (name : String) (b : Release) (rels : List Release) → newest_from name (some b) rels ≢ none
unfolding newest_from
some-newest_from name b [] e = cc
some-newest_from name b (x ∷ xs) e = elim (pick_from name (some b) x) [
  | inl q ↦ some-newest_from name b xs (rw q at e)
  | inr (q, _) ↦ some-newest_from name x xs (rw q at e)
]

none-newest_from :
    (name : String) (rels : List Release)
    → All (λ rel. rel.spec.app ≢ name) rels
    → newest_from name none rels ≡ none
unfolding newest_from
none-newest_from name [] h = refl
none-newest_from name (x ∷ xs) (p, h) = elim (pick_from name none x) [
  | inl q ↦ rw q (none-newest_from name xs h)
  | inr (_, own) ↦ absurd (p own)
]

newest_from-none :
    (name : String) (rels : List Release)
    → newest_from name none rels ≡ none
    → All (λ rel. rel.spec.app ≢ name) rels
unfolding newest_from
newest_from-none name [] h = tt
newest_from-none name (x ∷ xs) h = elim (pick_from name none x) [
  | inl q ↦ (pick-ne name x q, newest_from-none name xs (rw q at h))
  | inr (q, _) ↦ absurd (some-newest_from name x xs (rw q at h))
]

-- Reconcile finds a release exactly when the list has one of the app; the release that it finds is in
-- the list, belongs to the app, and no release of the app in the list is newer.
pub newest_from_lem :
    (name : String) (rels : List Release)
    → ((newest_from name none rels ≡ none) ↔ All (λ rel. rel.spec.app ≢ name) rels)
      × ((r : Release)
          → newest_from name none rels ≡ some r
          → Memᴰ r rels × (r.spec.app ≡ name) × All (NoNewer name r.meta.creation_timestamp) rels)
newest_from_lem name rels = (
  (newest_from-none name rels, none-newest_from name rels),
  λ r e. elim (newest_from-mem name none rels r e) [
    | inl p ↦ absurd (cc)
    | inr (m, own) ↦ (m, own, (newest-AtMost name none rels r e).1)
  ],
)
