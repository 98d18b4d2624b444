-- ===== src/EventHub/Fresh.antt =====
-- No event is lost: internal/api/server.go, type hub.
use paas_controlplane.Base.{
  ℕ, Bool, true, false, Option, none, some, List, [], ◌∷◌, map, keep, nat_eq, ◌≡◌, refl, sym, ◌∙◌,
  subst, ◌⊎◌, inl, inr, All, Bool-cases,
}
use paas_controlplane.EventHub.Buffers.{AllNewest, buffers_newest}
use paas_controlplane.EventHub.{
  Subscriber, Phase, waiting, counting, taking, sending, Hub, mark_dirty, subscribe, unsubscribe,
  read_one, receive, offer, offer_into, Action, mark, join, take_dirty, timer_fires, heartbeat,
  count, snapshot, send, leave, get_next, at_select, counted, on_count, on_snapshot, on_send,
  on_leave, subscribed, on_dirty, on_timer, step, Reachable, start, next_step,
}

-- Every subscriber was offered a snapshot that has all events.
abbrev pub AllSeen : ℕ → List Subscriber → Type 0
AllSeen n subs = All (λ x. x.seen ≡ n) subs

-- What keeps an event from being lost, by where the goroutine is.
abbrev Covered : Hub → Phase → Type 0
Covered h waiting = (h.dirty ≡ true) ⊎ ((h.timer ≡ true) ⊎ AllSeen h.events h.subs)
Covered h counting = Unit
Covered h taking = Unit
Covered h (sending p) = (h.dirty ≡ true) ⊎ (p ≡ h.events)

mark-Covered : (h : Hub) (p : Phase) → Covered (mark_dirty h) p
unfolding mark_dirty
mark-Covered h waiting = inl refl
mark-Covered h counting = tt
mark-Covered h taking = tt
mark-Covered h (sending p) = inl refl

join-Covered : (h : Hub) (p : Phase) → Covered h p → Covered (subscribe h) p
unfolding subscribe
join-Covered h waiting (inl d) = inl d
join-Covered h waiting (inr (inl t)) = inr (inl t)
join-Covered h waiting (inr (inr all)) = inr (inr (refl, all))
join-Covered h counting c = tt
join-Covered h taking c = tt
join-Covered h (sending p) c = c

AllSeen-keep :
    (n : ℕ) (q : Subscriber → Bool) (subs : List Subscriber)
    → AllSeen n subs
    → AllSeen n (keep q subs)
AllSeen-keep n q [] all = tt
AllSeen-keep n q (x ∷ xs) all = elim (Bool-cases (q x)) [
  | inl e ↦ rw (e, keep, All) (all.0, AllSeen-keep n q xs all.1)
  | inr e ↦ rw (e, keep, All) (AllSeen-keep n q xs all.1)
]

leave-Covered : (id : ℕ) (h : Hub) (p : Phase) → Covered h p → Covered (unsubscribe id h) p
unfolding unsubscribe
leave-Covered id h waiting (inl d) = inl d
leave-Covered id h waiting (inr (inl t)) = inr (inl t)
leave-Covered id h waiting (inr (inr all)) = inr (inr (AllSeen-keep h.events _ h.subs all))
leave-Covered id h counting c = tt
leave-Covered id h taking c = tt
leave-Covered id h (sending p) c = c

seen-read_one : (id : ℕ) (x : Subscriber) → (read_one id x).seen ≡ x.seen
seen-read_one id x = elim (Bool-cases (nat_eq id x.id)) [ inl e ↦ rw e | inr e ↦ rw e ]

AllSeen-read :
    (n id : ℕ) (subs : List Subscriber) → AllSeen n subs → AllSeen n (map (read_one id) subs)
AllSeen-read n id [] all = tt
AllSeen-read n id (x ∷ xs) all = (seen-read_one id x ∙ all.0, AllSeen-read n id xs all.1)

receive-Covered : (id : ℕ) (h : Hub) (p : Phase) → Covered h p → Covered (receive id h) p
unfolding receive
receive-Covered id h waiting (inl d) = inl d
receive-Covered id h waiting (inr (inl t)) = inr (inl t)
receive-Covered id h waiting (inr (inr all)) = inr (inr (AllSeen-read h.events id h.subs all))
receive-Covered id h counting c = tt
receive-Covered id h taking c = tt
receive-Covered id h (sending p) c = c

seen-offer_into :
    (payload : ℕ) (x : Subscriber) (b : Option ℕ) → (offer_into payload x b).seen ≡ payload
seen-offer_into payload x none = refl
seen-offer_into payload x (some old) = refl

seen-offer : (payload : ℕ) (x : Subscriber) → (offer payload x).seen ≡ payload
unfolding offer
seen-offer payload x = seen-offer_into payload x x.buffer

AllSeen-offer : (payload : ℕ) (subs : List Subscriber) → AllSeen payload (map (offer payload) subs)
AllSeen-offer payload [] = tt
AllSeen-offer payload (x ∷ xs) = (seen-offer payload x, AllSeen-offer payload xs)

count-Covered :
    (h : Hub) (subs : List Subscriber)
    → h.subs ≡ subs
    → Covered (counted h subs) (counted h subs).phase
count-Covered h [] e = inr (inr (subst (AllSeen h.events) (sym e) tt))
count-Covered h (x ∷ xs) e = tt

-- What an action of the goroutine leaves, where it can take it.
abbrev CoveredIf : Option Hub → Type 0
CoveredIf none = Unit
CoveredIf (some h) = Covered h h.phase

send-Covered : (h : Hub) (p : Phase) → Covered h p → CoveredIf (on_send h p)
send-Covered h waiting c = tt
send-Covered h counting c = tt
send-Covered h taking c = tt
send-Covered h (sending payload) (inl d) = inl d
send-Covered h (sending payload) (inr e) =
    inr (inr (subst (λ n. AllSeen n (map (offer payload) h.subs)) e (AllSeen-offer payload h.subs)))

snapshot-Covered : (h : Hub) (p : Phase) → CoveredIf (on_snapshot h p)
snapshot-Covered h waiting = tt
snapshot-Covered h counting = tt
snapshot-Covered h taking = inr refl
snapshot-Covered h (sending payload) = tt

on_count-Covered : (h : Hub) (p : Phase) → CoveredIf (on_count h p)
on_count-Covered h waiting = tt
on_count-Covered h counting = count-Covered h h.subs refl
on_count-Covered h taking = tt
on_count-Covered h (sending payload) = tt

at_select-Covered :
    (p : Phase) (h : Hub) → (p ≡ waiting → Covered h h.phase) → CoveredIf (at_select p h)
at_select-Covered waiting h c = c refl
at_select-Covered counting h c = tt
at_select-Covered taking h c = tt
at_select-Covered (sending payload) h c = tt

dirty-Covered : (h : Hub) (b : Bool) → CoveredIf (on_dirty h b)
dirty-Covered h true =
    at_select-Covered h.phase (record h { dirty = false; timer = true })
      (λ e. subst (Covered (record h { dirty = false; timer = true })) (sym e) (inr (inl refl)))
dirty-Covered h false = tt

timer-Covered : (h : Hub) (b : Bool) → CoveredIf (on_timer h b)
timer-Covered h true =
    at_select-Covered h.phase (record h { timer = false; phase = counting }) (λ e. tt)
timer-Covered h false = tt

on_leave-Covered : (h : Hub) (id : ℕ) (b : Bool) → Covered h h.phase → CoveredIf (on_leave h id b)
unfolding unsubscribe
on_leave-Covered h id true c = leave-Covered id h h.phase c
on_leave-Covered h id false c = tt

step-Covered : (a : Action) (h : Hub) → Covered h h.phase → CoveredIf (step a h)
unfolding step
step-Covered mark h c = mark-Covered h h.phase
step-Covered join h c = join-Covered h h.phase c
step-Covered (leave id) h c = on_leave-Covered h id (subscribed id h.subs) c
step-Covered (get_next id) h c = receive-Covered id h h.phase c
step-Covered take_dirty h c = dirty-Covered h h.dirty
step-Covered timer_fires h c = timer-Covered h h.timer
step-Covered heartbeat h c = at_select-Covered h.phase (record h { phase = counting }) (λ e. tt)
step-Covered count h c = on_count-Covered h h.phase
step-Covered snapshot h c = snapshot-Covered h h.phase
step-Covered send h c = send-Covered h h.phase c

Reachable-Covered : (h : Hub) → Reachable h → Covered h h.phase
Reachable-Covered _ start = inr (inr tt)
Reachable-Covered _ (next_step {h} {h'} a r e) =
    subst CoveredIf e (step-Covered a h (Reachable-Covered h r))

Covered-at_rest :
    (h : Hub) → Covered h waiting → h.dirty ≡ false → h.timer ≡ false → AllSeen h.events h.subs
Covered-at_rest h (inl d) e f = absurd (cc)
Covered-at_rest h (inr (inl t)) e f = absurd (cc)
Covered-at_rest h (inr (inr all)) e f = all

-- In every interleaving: the buffer of each subscriber is empty or holds the newest snapshot that it was
-- offered; and where the hub is at rest, with its goroutine in the select, no event pending and no
-- timer running, the newest snapshot that each subscriber was offered, or that its handler sent when
-- it had subscribed, was taken after the last event.
pub no_event_lost :
    (h : Hub)
    → Reachable h
    → AllNewest h.subs
      × (h.phase ≡ waiting → h.dirty ≡ false → h.timer ≡ false → AllSeen h.events h.subs)
no_event_lost h r = (
  buffers_newest h r,
  λ waits. Covered-at_rest h (subst (Covered h) waits (Reachable-Covered h r)),
)
