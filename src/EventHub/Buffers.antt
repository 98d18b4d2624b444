-- ===== src/EventHub/Buffers.antt =====
-- What the channels of the subscribers hold: internal/api/server.go, type hub.
use paas_controlplane.Base.{
  ℕ, Bool, true, false, Option, none, some, List, [], ◌∷◌, map, keep, nat_eq, ◌≡◌, refl, subst, ◌⊎◌,
  inl, inr, All, Bool-cases,
}
use paas_controlplane.EventHub.{
  Subscriber, Phase, waiting, counting, taking, sending, Hub, mark_dirty, subscribe, unsubscribe,
  read_one, receive, offer, offer_into, Action, mark, join, take_dirty, timer_fires, heartbeat,
  count, snapshot, send, leave, get_next, at_select, counted, on_count, on_snapshot, on_send,
  on_leave, subscribed, on_dirty, on_timer, step, Reachable, start, next_step,
}

-- The buffer is empty, or holds the newest snapshot that the subscriber was offered.
abbrev pub IsNewest : Subscriber → Type 0
IsNewest x = (x.buffer ≡ none) ⊎ (x.buffer ≡ some x.seen)

abbrev pub AllNewest : List Subscriber → Type 0
AllNewest subs = All IsNewest subs

keep-AllNewest :
    (q : Subscriber → Bool) (subs : List Subscriber) → AllNewest subs → AllNewest (keep q subs)
keep-AllNewest q [] all = tt
keep-AllNewest q (x ∷ xs) all = elim (Bool-cases (q x)) [
  | inl e ↦ rw (e, keep, All) (all.0, keep-AllNewest q xs all.1)
  | inr e ↦ rw (e, keep, All) (keep-AllNewest q xs all.1)
]

read_one-IsNewest : (id : ℕ) (x : Subscriber) → IsNewest x → IsNewest (read_one id x)
read_one-IsNewest id x c = elim (Bool-cases (nat_eq id x.id)) [
  | inl e ↦ rw (e) (inl refl)
  | inr e ↦ rw (e) c
]

offer_into-IsNewest :
    (payload : ℕ) (x : Subscriber) (b : Option ℕ) → IsNewest (offer_into payload x b)
offer_into-IsNewest payload x none = inr refl
offer_into-IsNewest payload x (some old) = inr refl

map-AllNewest :
    (f : Subscriber → Subscriber) (subs : List Subscriber)
    → ((x : Subscriber) → IsNewest x → IsNewest (f x))
    → AllNewest subs
    → AllNewest (map f subs)
map-AllNewest f [] h all = tt
map-AllNewest f (x ∷ xs) h all = (h x all.0, map-AllNewest f xs h all.1)

abbrev NewestIf : Option Hub → Type 0
NewestIf none = Unit
NewestIf (some h) = AllNewest h.subs

at_select-Newest : (p : Phase) (h : Hub) → AllNewest h.subs → NewestIf (at_select p h)
at_select-Newest waiting h all = all
at_select-Newest counting h all = tt
at_select-Newest taking h all = tt
at_select-Newest (sending p) h all = tt

counted-Newest :
    (h : Hub) (subs : List Subscriber) → AllNewest h.subs → AllNewest (counted h subs).subs
counted-Newest h [] all = all
counted-Newest h (x ∷ xs) all = all

on_count-Newest : (h : Hub) (p : Phase) → AllNewest h.subs → NewestIf (on_count h p)
on_count-Newest h waiting all = tt
on_count-Newest h counting all = counted-Newest h h.subs all
on_count-Newest h taking all = tt
on_count-Newest h (sending p) all = tt

on_snapshot-Newest : (h : Hub) (p : Phase) → AllNewest h.subs → NewestIf (on_snapshot h p)
on_snapshot-Newest h waiting all = tt
on_snapshot-Newest h counting all = tt
on_snapshot-Newest h taking all = all
on_snapshot-Newest h (sending p) all = tt

on_send-Newest : (h : Hub) (p : Phase) → AllNewest h.subs → NewestIf (on_send h p)
unfolding offer
on_send-Newest h waiting all = tt
on_send-Newest h counting all = tt
on_send-Newest h taking all = tt
on_send-Newest h (sending p) all =
    map-AllNewest (offer p) h.subs (λ x _. offer_into-IsNewest p x x.buffer) all

on_dirty-Newest : (h : Hub) (b : Bool) → AllNewest h.subs → NewestIf (on_dirty h b)
on_dirty-Newest h true all = at_select-Newest h.phase (record h { dirty = false; timer = true }) all
on_dirty-Newest h false all = tt

on_timer-Newest : (h : Hub) (b : Bool) → AllNewest h.subs → NewestIf (on_timer h b)
on_timer-Newest h true all =
    at_select-Newest h.phase (record h { timer = false; phase = counting }) all
on_timer-Newest h false all = tt

on_leave-Newest : (h : Hub) (id : ℕ) (b : Bool) → AllNewest h.subs → NewestIf (on_leave h id b)
unfolding unsubscribe
on_leave-Newest h id true all = keep-AllNewest _ h.subs all
on_leave-Newest h id false all = tt

step-Newest : (a : Action) (h : Hub) → AllNewest h.subs → NewestIf (step a h)
unfolding step mark_dirty subscribe unsubscribe receive
step-Newest mark h all = all
step-Newest join h all = (inl refl, all)
step-Newest (leave id) h all = on_leave-Newest h id (subscribed id h.subs) all
step-Newest (get_next id) h all = map-AllNewest (read_one id) h.subs (read_one-IsNewest id) all
step-Newest take_dirty h all = on_dirty-Newest h h.dirty all
step-Newest timer_fires h all = on_timer-Newest h h.timer all
step-Newest heartbeat h all = at_select-Newest h.phase (record h { phase = counting }) all
step-Newest count h all = on_count-Newest h h.phase all
step-Newest snapshot h all = on_snapshot-Newest h h.phase all
step-Newest send h all = on_send-Newest h h.phase all

pub buffers_newest : (h : Hub) → Reachable h → AllNewest h.subs
buffers_newest _ start = tt
buffers_newest _ (next_step {h} {h'} a r e) =
    subst NewestIf e (step-Newest a h (buffers_newest h r))
