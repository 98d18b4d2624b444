-- ===== src/Tests/Hubs.antt =====
-- The event hub through one event and one subscriber.
use paas_controlplane.Base.{true, false, none, some, [], ◌∷◌, refl, ◌≡◌, All, ℕ}
use paas_controlplane.EventHub.{
  subscribed, waiting, counting, taking, sending, Hub, new_hub, Subscriber, mark, join, take_dirty,
  timer_fires, count, snapshot, send, step, Reachable, start, next_step,
}
use paas_controlplane.EventHub.Fresh.{AllSeen, no_event_lost}
use paas_controlplane.EventHub.Buffers.{AllNewest}
use paas_controlplane.EventHub.Open.{is_closed, channels_open}
use paas_controlplane.EventHub.Settles.{Settles, settles}

abbrev reader : Subscriber
reader = record { id = 0; buffer = none; seen = 0 }

abbrev joined : Hub
joined = record new_hub { subs = reader ∷ []; next = 1 }

abbrev marked : Hub
marked = record joined { dirty = true; events = 1 }

abbrev armed : Hub
armed = record marked { dirty = false; timer = true }

abbrev fired : Hub
fired = record armed { timer = false; phase = counting }

abbrev seen : Hub
seen = record fired { phase = waiting; subs = record reader { buffer = some 1; seen = 1 } ∷ [] }

marked-Reachable : Reachable marked
unfolding step
marked-Reachable = next_step {h = joined} mark (next_step {h = new_hub} join start refl) refl

seen-Reachable : Reachable seen
unfolding step
seen-Reachable =
    next_step {h = record fired { phase = sending 1 }} send
      (next_step {h = record fired { phase = taking }} snapshot
        (next_step {h = fired} count
          (next_step {h = armed} timer_fires
            (next_step {h = marked} take_dirty marked-Reachable refl) refl)
          refl)
        refl)
      refl

no_event_lost_example :
    AllNewest seen.subs
    × (seen.phase ≡ waiting → seen.dirty ≡ false → seen.timer ≡ false → AllSeen 1 seen.subs)
no_event_lost_example = no_event_lost seen seen-Reachable

channels_open_example :
    All (λ x. is_closed x.id seen.closed ≡ false) seen.subs
    × ((id : ℕ) → subscribed id seen.subs ≡ true → is_closed id seen.closed ≡ false)
channels_open_example = channels_open seen seen-Reachable

settles_example : Settles marked
settles_example = settles marked
