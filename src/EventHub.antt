-- ===== src/EventHub.antt =====
-- internal/api/server.go, type hub: one goroutine sends snapshots of the cluster to every subscriber of
-- the event stream. Each action is what a goroutine does between two waits or under the lock, so the
-- sequences of actions are the interleavings. The children hold the proofs.
pub mod Fresh
pub mod Buffers
pub mod Open
pub mod Settles
use paas_controlplane.Base.{
  ℕ, suc, Bool, true, false, Option, none, some, List, [], ◌∷◌, map, keep, any, not, nat_eq,
  if◌then◌else◌, ◌≡◌,
}

-- A channel of subs with its buffer of one: a snapshot is named by the number of events that were
-- marked when it was taken. `seen` is ghost state: the newest snapshot that the subscriber was
-- offered, or that its handler sent first, after it had subscribed.
pub record Subscriber : Type 0 where
  pub id : ℕ
  pub buffer : Option ℕ
  pub seen : ℕ

-- Where the goroutine of run is: in its select, or in broadcast: before it counts the subscribers,
-- before it takes the snapshot, or before it sends one.
pub data Phase : Type 0 where
  waiting counting taking : Phase
  sending : ℕ → Phase

-- `dirty` says that the channel dirty is full, `timer` that the debounce timer runs. `events` counts the calls of
-- markDirty, `next` the calls of subscribe, `closed` the channels that are closed: ghost state, the
-- second for the identity of a channel.
pub record Hub : Type 0 where
  pub dirty : Bool
  pub timer : Bool
  pub phase : Phase
  pub subs : List Subscriber
  pub events : ℕ
  pub next : ℕ
  pub closed : List ℕ

-- newHub, and run at its start.
abbrev pub new_hub : Hub
new_hub = record {
  dirty = false;
  timer = false;
  phase = waiting;
  subs = [];
  events = 0;
  next = 0;
  closed = [];
}

unfoldable pub mark_dirty : Hub → Hub
mark_dirty h = record h { dirty = true; events = suc h.events }

unfoldable pub subscribe : Hub → Hub
subscribe h = record h {
  subs = record { id = h.next; buffer = none; seen = h.events } ∷ h.subs;
  next = suc h.next;
}

unfoldable pub unsubscribe : ℕ → Hub → Hub
unsubscribe id h = record h {
  subs = keep (λ x. not (nat_eq id x.id)) h.subs;
  closed = id ∷ h.closed;
}

abbrev pub read_one : ℕ → Subscriber → Subscriber
read_one id x = if nat_eq id x.id then record x { buffer = none } else x

-- The handler of a subscriber receives what its buffer holds.
unfoldable pub receive : ℕ → Hub → Hub
receive id h = record h { subs = map (read_one id) h.subs }

-- The nested selects, by what the buffer holds: into an empty one, or in place of an old snapshot.
abbrev pub offer_into : ℕ → Subscriber → Option ℕ → Subscriber
offer_into payload x none = record x { buffer = some payload; seen = payload }
offer_into payload x (some old) = record x { buffer = some payload; seen = payload }

unfoldable pub offer : ℕ → Subscriber → Subscriber
offer payload x = offer_into payload x x.buffer

pub data Action : Type 0 where
  mark join take_dirty timer_fires heartbeat count snapshot send : Action
  leave get_next : ℕ → Action

-- What only the select of run does.
abbrev pub at_select : Phase → Hub → Option Hub
at_select waiting h = some h
at_select _ h = none

abbrev pub counted : Hub → List Subscriber → Hub
counted h [] = record h { phase = waiting }
counted h (x ∷ xs) = record h { phase = taking }

abbrev pub on_count : Hub → Phase → Option Hub
on_count h counting = some (counted h h.subs)
on_count h _ = none

abbrev pub on_snapshot : Hub → Phase → Option Hub
on_snapshot h taking = some (record h { phase = sending h.events })
on_snapshot h _ = none

abbrev pub on_send : Hub → Phase → Option Hub
on_send h (sending payload) = some (record h { phase = waiting; subs = map (offer payload) h.subs })
on_send h _ = none

-- A handler unsubscribes once, by its `defer`: it is one that has subscribed and not left.
abbrev pub subscribed : ℕ → List Subscriber → Bool
subscribed id subs = any (λ x. nat_eq id x.id) subs

abbrev pub on_leave : Hub → ℕ → Bool → Option Hub
on_leave h id true = some (unsubscribe id h)
on_leave h id false = none

-- The case of the dirty channel: a timer that runs already goes on.
abbrev pub on_dirty : Hub → Bool → Option Hub
on_dirty h true = at_select h.phase (record h { dirty = false; timer = true })
on_dirty h false = none

abbrev pub on_timer : Hub → Bool → Option Hub
on_timer h true = at_select h.phase (record h { timer = false; phase = counting })
on_timer h false = none

-- The hub after an action; `none` where the goroutine cannot take it.
unfoldable pub step : Action → Hub → Option Hub
unfolding mark_dirty subscribe unsubscribe receive offer
step mark h = some (mark_dirty h)
step join h = some (subscribe h)
step (leave id) h = on_leave h id (subscribed id h.subs)
step (get_next id) h = some (receive id h)
step take_dirty h = on_dirty h h.dirty
step timer_fires h = on_timer h h.timer
step heartbeat h = at_select h.phase (record h { phase = counting })
step count h = on_count h h.phase
step snapshot h = on_snapshot h h.phase
step send h = on_send h h.phase

-- The hubs that some sequence of actions leads to.
pub data Reachable : Hub → Type 0 where
  start : Reachable new_hub
  next_step : {h h' : Hub} (a : Action) → Reachable h → step a h ≡ some h' → Reachable h'
