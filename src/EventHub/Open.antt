-- ===== src/EventHub/Open.antt =====
-- No channel is used after it is closed: internal/api/server.go, type hub.
use paas_controlplane.Base.{
  ℕ, ◌<◌, suc, Bool, true, false, Option, none, some, List, [], ◌∷◌, map, keep, any, nat_eq, not,
  ◌≡◌, refl, subst, sym, All, All-map, Bool-cases, inl, inr, arith,
}
use paas_controlplane.EventHub.{
  Subscriber, Phase, waiting, counting, taking, sending, Hub, mark_dirty, subscribe, unsubscribe,
  read_one, receive, offer, offer_into, Action, mark, join, take_dirty, timer_fires, heartbeat,
  count, snapshot, send, leave, get_next, at_select, counted, on_count, on_snapshot, on_send,
  on_dirty, on_timer, on_leave, subscribed, step, Reachable, start, next_step,
}

abbrev pub is_closed : ℕ → List ℕ → Bool
is_closed id closed = any (λ c. nat_eq c id) closed

-- A channel that a subscriber has: it was made, and it is not closed.
abbrev IsOpen : ℕ → List ℕ → Subscriber → Type 0
IsOpen next closed x = (x.id < next) × (is_closed x.id closed ≡ false)

abbrev AllOpen : Hub → Type 0
AllOpen h = All (λ c. c < h.next) h.closed × All (IsOpen h.next h.closed) h.subs

not_closed :
    (next : ℕ) (closed : List ℕ) → All (λ c. c < next) closed → is_closed next closed ≡ false
not_closed next [] below = refl
not_closed next (c ∷ cs) (here, later) = ground (arith, not_closed next cs later)

IsOpen-later :
    (next : ℕ) (closed : List ℕ) (x : Subscriber)
    → IsOpen next closed x
    → IsOpen (suc next) closed x
IsOpen-later next closed x (made, is_open) = (omega arith, is_open)

join-AllOpen : (h : Hub) → AllOpen h → AllOpen (subscribe h)
unfolding subscribe
join-AllOpen h (below, subs) = (
  All-map _ _ (λ c e. omega arith) h.closed below,
  (
    (omega arith, not_closed h.next h.closed below),
    All-map _ _ (λ x o. IsOpen-later h.next h.closed x o) h.subs subs,
  ),
)

keep-Open :
    (id next : ℕ) (closed : List ℕ) (subs : List Subscriber)
    → All (IsOpen next closed) subs
    → All (IsOpen next (id ∷ closed)) (keep (λ x. not (nat_eq id x.id)) subs)
keep-Open id next closed [] all = tt
keep-Open id next closed (x ∷ xs) ((made, is_open), later) = elim (Bool-cases (nat_eq id x.id)) [
  | inl e ↦ rw (e, keep, All) (keep-Open id next closed xs later)
  | inr e ↦ rw (e, keep, All) ((made, rw e is_open), keep-Open id next closed xs later)
]

subscribed-open :
    (id next : ℕ) (closed : List ℕ) (subs : List Subscriber)
    → subscribed id subs ≡ true
    → All (IsOpen next closed) subs
    → (id < next) × (is_closed id closed ≡ false)
subscribed-open id next closed [] e all = absurd (cc)
subscribed-open id next closed (x ∷ xs) e (here, later) = elim (Bool-cases (nat_eq id x.id)) [
  | inl same ↦
      let own : x.id ≡ id = ground arith in
      subst (λ i. (i < next) × (is_closed i closed ≡ false)) own here
  | inr other ↦ subscribed-open id next closed xs (rw other at e) later
]

-- What an action leaves, where it can be taken.
abbrev OpenIf : Option Hub → Type 0
OpenIf none = Unit
OpenIf (some h) = AllOpen h

on_leave-Open :
    (h : Hub) (id : ℕ) (b : Bool) → subscribed id h.subs ≡ b → AllOpen h → OpenIf (on_leave h id b)
unfolding unsubscribe
on_leave-Open h id true e (below, subs) = (
  ((subscribed-open id h.next h.closed h.subs e subs).0, below),
  keep-Open id h.next h.closed h.subs subs,
)
on_leave-Open h id false e all = tt

-- The actions that change no channel's identity.
map-Open :
    (f : Subscriber → Subscriber)
    → ((x : Subscriber) → (f x).id ≡ x.id)
    → (next : ℕ) (closed : List ℕ) (subs : List Subscriber) → All (IsOpen next closed) subs
    → All (IsOpen next closed) (map f subs)
map-Open f same next closed [] all = tt
map-Open f same next closed (x ∷ xs) (here, later) = (
  subst (λ i. (i < next) × (is_closed i closed ≡ false)) (sym (same x)) here,
  map-Open f same next closed xs later,
)

read_one-id : (id : ℕ) (x : Subscriber) → (read_one id x).id ≡ x.id
read_one-id id x = ground arith

offer_into-id : (payload : ℕ) (x : Subscriber) (b : Option ℕ) → (offer_into payload x b).id ≡ x.id
offer_into-id payload x none = refl
offer_into-id payload x (some old) = refl

offer-id : (payload : ℕ) (x : Subscriber) → (offer payload x).id ≡ x.id
unfolding offer
offer-id payload x = offer_into-id payload x x.buffer

at_select-Open : (p : Phase) (h : Hub) → AllOpen h → OpenIf (at_select p h)
at_select-Open waiting h all = all
at_select-Open counting h all = tt
at_select-Open taking h all = tt
at_select-Open (sending payload) h all = tt

counted-Open : (h : Hub) (subs : List Subscriber) → AllOpen h → AllOpen (counted h subs)
counted-Open h [] all = all
counted-Open h (x ∷ xs) all = all

on_count-Open : (h : Hub) (p : Phase) → AllOpen h → OpenIf (on_count h p)
on_count-Open h waiting all = tt
on_count-Open h counting all = counted-Open h h.subs all
on_count-Open h taking all = tt
on_count-Open h (sending payload) all = tt

on_snapshot-Open : (h : Hub) (p : Phase) → AllOpen h → OpenIf (on_snapshot h p)
on_snapshot-Open h waiting all = tt
on_snapshot-Open h counting all = tt
on_snapshot-Open h taking all = all
on_snapshot-Open h (sending payload) all = tt

on_send-Open : (h : Hub) (p : Phase) → AllOpen h → OpenIf (on_send h p)
on_send-Open h waiting all = tt
on_send-Open h counting all = tt
on_send-Open h taking all = tt
on_send-Open h (sending payload) (below, subs) =
    (below, map-Open (offer payload) (offer-id payload) h.next h.closed h.subs subs)

on_dirty-Open : (h : Hub) (b : Bool) → AllOpen h → OpenIf (on_dirty h b)
on_dirty-Open h true all = at_select-Open h.phase (record h { dirty = false; timer = true }) all
on_dirty-Open h false all = tt

on_timer-Open : (h : Hub) (b : Bool) → AllOpen h → OpenIf (on_timer h b)
on_timer-Open h true all = at_select-Open h.phase (record h { timer = false; phase = counting }) all
on_timer-Open h false all = tt

step-Open : (a : Action) (h : Hub) → AllOpen h → OpenIf (step a h)
unfolding step mark_dirty receive
step-Open mark h all = all
step-Open join h all = join-AllOpen h all
step-Open (leave id) h all = on_leave-Open h id (subscribed id h.subs) refl all
step-Open (get_next id) h (below, subs) =
    (below, map-Open (read_one id) (read_one-id id) h.next h.closed h.subs subs)
step-Open take_dirty h all = on_dirty-Open h h.dirty all
step-Open timer_fires h all = on_timer-Open h h.timer all
step-Open heartbeat h all = at_select-Open h.phase (record h { phase = counting }) all
step-Open count h all = on_count-Open h h.phase all
step-Open snapshot h all = on_snapshot-Open h h.phase all
step-Open send h all = on_send-Open h h.phase all

Reachable-Open : (h : Hub) → Reachable h → AllOpen h
Reachable-Open _ start = (tt, tt)
Reachable-Open _ (next_step {h} {h'} a r e) = subst OpenIf e (step-Open a h (Reachable-Open h r))

-- In every interleaving: no channel that a subscriber still has is closed, so that no snapshot is sent on a
-- closed one; and a handler that can leave closes a channel that is not closed yet.
pub channels_open :
    (h : Hub)
    → Reachable h
    → All (λ x. is_closed x.id h.closed ≡ false) h.subs
      × ((id : ℕ) → subscribed id h.subs ≡ true → is_closed id h.closed ≡ false)
channels_open h r =
    let (below, subs) = Reachable-Open h r in
    (
      All-map _ _ (λ x o. o.1) h.subs subs,
      λ id e. (subscribed-open id h.next h.closed h.subs e subs).1,
    )
