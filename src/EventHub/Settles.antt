-- ===== src/EventHub/Settles.antt =====
-- The goroutine of run comes to rest when events stop: internal/api/server.go, type hub.
use paas_controlplane.Base.{ℕ, Bool, true, false, some, List, [], ◌∷◌, map, ◌≡◌, refl}
use paas_controlplane.EventHub.{
  Subscriber, Phase, waiting, counting, taking, sending, Hub, offer, Action, take_dirty,
  timer_fires, count, snapshot, send, step,
}

-- The actions that the goroutine takes by itself, but for the heartbeat.
abbrev is_run : Action → Bool
is_run take_dirty = true
is_run timer_fires = true
is_run count = true
is_run snapshot = true
is_run send = true
is_run _ = false

pub data Runs : Hub → Hub → Type 0 where
  rest : {h : Hub} → Runs h h
  then_run :
      {h h' h'' : Hub} (a : Action)
      → is_run a ≡ true
      → step a h ≡ some h'
      → Runs h' h''
      → Runs h h''

abbrev pub AtRest : Hub → Type 0
AtRest h = (h.phase ≡ waiting) × (h.dirty ≡ false) × (h.timer ≡ false)

abbrev pub Settles : Hub → Type 0
Settles h = (h' : Hub) × Runs h h' × AtRest h'

after : (a : Action) (h h' : Hub) → is_run a ≡ true → step a h ≡ some h' → Settles h' → Settles h
after a h h' own e (h'', runs, at_rest) = (h'', then_run a own e runs, at_rest)

module _ (events next : ℕ) (closed : List ℕ) where
  abbrev hub : Bool → Bool → Phase → List Subscriber → Hub
  hub dirty timer phase subs = record {
    dirty = dirty;
    timer = timer;
    phase = phase;
    subs = subs;
    events = events;
    next = next;
    closed = closed;
  }

  clean_waiting : (subs : List Subscriber) → Settles (hub false false waiting subs)
  clean_waiting subs = (hub false false waiting subs, rest, (refl, refl, refl))

  clean_counting : (subs : List Subscriber) → Settles (hub false false counting subs)
  unfolding step
  clean_counting [] = after count _ _ refl refl (clean_waiting [])
  clean_counting (x ∷ xs) =
      let subs = x ∷ xs in
      after count (hub false false counting subs) (hub false false taking subs) refl refl (
        after snapshot _ (hub false false (sending events) subs) refl refl (
          after send _ (hub false false waiting (map (offer events) subs)) refl refl
            (clean_waiting (map (offer events) subs))))

  timer_waiting : (subs : List Subscriber) → Settles (hub false true waiting subs)
  unfolding step
  timer_waiting subs =
      after timer_fires _ (hub false false counting subs) refl refl (clean_counting subs)

  any_waiting : (d t : Bool) (subs : List Subscriber) → Settles (hub d t waiting subs)
  unfolding step
  any_waiting true t subs =
      after take_dirty _ (hub false true waiting subs) refl refl (timer_waiting subs)
  any_waiting false true subs = timer_waiting subs
  any_waiting false false subs = clean_waiting subs

  any_sending : (d t : Bool) (p : ℕ) (subs : List Subscriber) → Settles (hub d t (sending p) subs)
  unfolding step
  any_sending d t p subs =
      after send _ (hub d t waiting (map (offer p) subs)) refl refl
        (any_waiting d t (map (offer p) subs))

  any_taking : (d t : Bool) (subs : List Subscriber) → Settles (hub d t taking subs)
  unfolding step
  any_taking d t subs =
      after snapshot _ (hub d t (sending events) subs) refl refl (any_sending d t events subs)

  any_counting : (d t : Bool) (subs : List Subscriber) → Settles (hub d t counting subs)
  unfolding step
  any_counting d t [] = after count _ (hub d t waiting []) refl refl (any_waiting d t [])
  any_counting d t (x ∷ xs) =
      after count _ (hub d t taking (x ∷ xs)) refl refl (any_taking d t (x ∷ xs))

  any_phase : (d t : Bool) (p : Phase) (subs : List Subscriber) → Settles (hub d t p subs)
  any_phase d t waiting subs = any_waiting d t subs
  any_phase d t counting subs = any_counting d t subs
  any_phase d t taking subs = any_taking d t subs
  any_phase d t (sending p) subs = any_sending d t p subs

-- From every state of the hub the goroutine can come to rest by its own actions, where no event, no heartbeat and no
-- subscriber comes in between: it is never stuck with work to do.
pub settles : (h : Hub) → Settles h
settles h = any_phase h.events h.next h.closed h.dirty h.timer h.phase h.subs
