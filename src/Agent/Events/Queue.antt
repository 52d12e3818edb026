-- ===== src/Agent/Events/Queue.antt =====
-- The outbox of crates/amcp-agent/src/main.rs under appends and acknowledgements.
use mathlib.Core.List.{append-nil, append_assoc}
use agent_memory_control_pla.Prelude.{
  ◌≤◌, String, ◌≡◌, refl, sym, ◌∙◌, true, ◌||◌, Option, none, some, List, [], ◌∷◌, ◌++◌, arith,
  eq_iff, length, Bool-cases, inl, inr,
}
use agent_memory_control_pla.Prelude.Keyed.{
  length-keep_last-le, has_key, Distinct, has_key-append, Distinct-keep_last, Distinct-append_one,
}
use agent_memory_control_pla.Domain.Records.{RuntimeEvent}
use agent_memory_control_pla.Agent.Store.{Error, Stored}
use agent_memory_control_pla.Agent.Events.{
  Outbox, event_id, push_missing, max_queued, append_loaded, append_runtime_event_outbox,
}

-- No event is queued twice, and at most 256 are.
pub record IsQueue (events : List RuntimeEvent) : Type 0 where
  pub distinct : Distinct event_id events
  pub bounded : length events ≤ max_queued

abbrev pub IsOutbox : Outbox → Type 0
IsOutbox Stored.absent = Unit {0}
IsOutbox (Stored.holds events) = IsQueue events
IsOutbox (Stored.broken e) = Unit {0}

pub push_missing-Distinct :
    (events queued : List RuntimeEvent)
    → Distinct event_id queued
    → Distinct event_id (push_missing queued events)
unfolding push_missing
push_missing-Distinct [] queued d = d
push_missing-Distinct (event ∷ events) queued d =
    elim (Bool-cases (has_key event_id event.event_id queued)) [
      | inl old ↦ rw old (push_missing-Distinct events queued d)
      | inr new ↦ rw new (
          push_missing-Distinct events (queued ++ event ∷ [])
            (Distinct-append_one event_id queued event d new))
    ]

pub has_key-push_missing :
    (k : String) (events queued : List RuntimeEvent)
    → has_key event_id k (push_missing queued events)
      ≡ (has_key event_id k queued || has_key event_id k events)
unfolding push_missing
has_key-push_missing k [] queued = ground arith
has_key-push_missing k (event ∷ events) queued = ground (
  arith,
  has_key-push_missing k events queued,
  has_key-push_missing k events (queued ++ event ∷ []),
  has_key-append event_id k queued (event ∷ []),
  eq_iff event.event_id k,
)

-- The queued events stay in front, in their order.
pub push_missing_prefix :
    (events queued : List RuntimeEvent)
    → (new : List RuntimeEvent) × (push_missing queued events ≡ queued ++ new)
unfolding push_missing
push_missing_prefix [] queued = ([], sym (append-nil queued))
push_missing_prefix (event ∷ events) queued =
    elim (Bool-cases (has_key event_id event.event_id queued)) [
      | inl old ↦ rw old (push_missing_prefix events queued)
      | inr new ↦
          let (more, e) = push_missing_prefix events (queued ++ event ∷ []) in
          (event ∷ more, rw new (e ∙ append_assoc queued (event ∷ []) more))
    ]

abbrev AllQueued : List RuntimeEvent → List RuntimeEvent → Type 0
AllQueued [] queued = Unit {0}
AllQueued (event ∷ events) queued =
    (has_key event_id event.event_id queued ≡ true) × AllQueued events queued

push_missing_known :
    (events queued : List RuntimeEvent)
    → AllQueued events queued
    → push_missing queued events ≡ queued
unfolding push_missing
push_missing_known [] queued h = refl
push_missing_known (event ∷ events) queued h = rw h.0 (push_missing_known events queued h.1)

AllQueued-cons :
    (event : RuntimeEvent) (events queued : List RuntimeEvent)
    → AllQueued events queued
    → AllQueued events (queued ++ event ∷ [])
AllQueued-cons event [] queued h = tt
AllQueued-cons event (e ∷ events) queued h = (
  ground (arith, has_key-append event_id e.event_id queued (event ∷ [])),
  AllQueued-cons event events queued h.1,
)

AllQueued-of :
    (events queued : List RuntimeEvent)
    → ((k : String) → has_key event_id k events ≡ true → has_key event_id k queued ≡ true)
    → AllQueued events queued
AllQueued-of [] queued h = tt
AllQueued-of (e ∷ events) queued h = (
  h e.event_id (ground (arith, eq_iff e.event_id e.event_id)),
  AllQueued-of events queued (λ k m. h k (ground arith)),
)

-- Appending the same events again adds nothing.
pub push_missing_twice :
    (queued events : List RuntimeEvent)
    → push_missing (push_missing queued events) events ≡ push_missing queued events
push_missing_twice queued events = push_missing_known events (push_missing queued events) (
    AllQueued-of events (push_missing queued events)
      (λ k m. ground (arith, has_key-push_missing k events queued)))

-- Whether it succeeds or fails, an append leaves an outbox of at most 256 events in which no event is
-- queued twice, if it was given one.
pub append-IsOutbox :
    (fault : Option Error) (events : List RuntimeEvent) (file : Outbox)
    → IsOutbox file
    → IsOutbox (append_runtime_event_outbox fault events file).1
unfolding append_runtime_event_outbox append_loaded
append-IsOutbox fault [] file h = h
append-IsOutbox (some e) (event ∷ events) Stored.absent h = tt
append-IsOutbox (some e) (event ∷ events) (Stored.holds queued) h = h
append-IsOutbox fault (event ∷ events) (Stored.broken e) h = tt
append-IsOutbox none (event ∷ events) Stored.absent h = record {
  distinct =
      Distinct-keep_last event_id max_queued _ (push_missing-Distinct (event ∷ events) [] tt);
  bounded = length-keep_last-le max_queued (push_missing [] (event ∷ events));
}
append-IsOutbox none (event ∷ events) (Stored.holds queued) h = record {
  distinct =
      Distinct-keep_last event_id max_queued _
        (push_missing-Distinct (event ∷ events) queued h.distinct);
  bounded = length-keep_last-le max_queued (push_missing queued (event ∷ events));
}
