-- ===== src/Agent/Stream/Flow.antt =====
-- The flow control of `serve_event_stream` of crates/amcp-agent/src/main.rs: a stream never has more
-- events in flight than it was opened for.
use agent_memory_control_pla.Prelude.{
  ℕ, ◌+◌, ◌-◌, ◌≤◌, ◌<◌, String, ◌≡◌, refl, ◌⊎◌, true, not, ◌||◌, Option, List, [], ◌∷◌, arith, ltb,
  leb, ◌=ₜ◌, eq_iff, length, keep, All, length-keep-le, Bool-cases, inl, inr, All-keep,
}
use agent_memory_control_pla.Prelude.Keyed.{has_key}
use agent_memory_control_pla.Prelude.Result.{Result, ok, err}
use agent_memory_control_pla.Prelude.Texts.{contains}
use agent_memory_control_pla.Domain.Records.{RuntimeEvent}
use agent_memory_control_pla.Protocol.{RequestMethod, RequestEnvelope}
use agent_memory_control_pla.Agent.Store.{Error, load_list}
use agent_memory_control_pla.Agent.Events.{
  Outbox, event_id, acknowledge_runtime_events, runtime_event_stream_page,
}
use agent_memory_control_pla.Agent.Events.Paging.{stream_page_fits}
use agent_memory_control_pla.Agent.Stream.{
  start, EventStreamConfig, Stream, Input, Round, insert_all, remove_all, acknowledged, on_method,
  on_line, rest, send_page, on_tick, step,
}

load_cases :
    (r : Result Error (List RuntimeEvent))
    → ((events : List RuntimeEvent) × (r ≡ ok events)) ⊎ ((e : Error) × (r ≡ err e))
load_cases (ok events) = inl (events, refl)
load_cases (err e) = inr (e, refl)

-- No more events are in flight than the stream allows, and all of them were sent.
pub record IsStream (config : EventStreamConfig) (s : Stream) : Type 0 where
  pub bounded : length s.in_flight ≤ config.max_in_flight
  pub sent : All (λ id. contains s.sent_ids id ≡ true) s.in_flight

-- The stream that is opened has nothing in flight.
pub start-IsStream : (config : EventStreamConfig) (now : ℕ) → IsStream config (start config now)
unfolding start
start-IsStream config now = record { bounded = omega arith; sent = tt }

length-insert_all-le :
    (events : List RuntimeEvent) (set : List String)
    → length (insert_all events set) ≤ length set + length events
unfolding insert_all
length-insert_all-le [] set = omega arith
length-insert_all-le (e ∷ events) set =
    ground (arith, length-insert_all-le events set, length-insert_all-le events (e.event_id ∷ set))

pub contains-insert_all :
    (k : String) (events : List RuntimeEvent) (set : List String)
    → contains (insert_all events set) k ≡ (contains set k || has_key event_id k events)
unfolding insert_all
contains-insert_all k [] set = ground arith
contains-insert_all k (e ∷ events) set = ground (
  arith,
  contains-insert_all k events set,
  contains-insert_all k events (e.event_id ∷ set),
  eq_iff e.event_id k,
)

length-remove_all-le : (ids set : List String) → length (remove_all ids set) ≤ length set
unfolding remove_all
length-remove_all-le [] set = omega arith
length-remove_all-le (id ∷ ids) set = omega (
  arith,
  length-remove_all-le ids (keep (λ s. not (s =ₜ id)) set),
  length-keep-le (λ s. not (s =ₜ id)) set,
)

All-remove_all :
    (P : String → Type 0) (ids set : List String) → All P set → All P (remove_all ids set)
unfolding remove_all
All-remove_all P [] set h = h
All-remove_all P (id ∷ ids) set h =
    All-remove_all P ids (keep (λ s. not (s =ₜ id)) set) (All-keep P (λ s. not (s =ₜ id)) set h)

All-weaken :
    (P Q : String → Type 0)
    → ((id : String) → P id → Q id)
    → (xs : List String) → All P xs
    → All Q xs
All-weaken P Q f [] h = tt
All-weaken P Q f (x ∷ xs) h = (f x h.0, All-weaken P Q f xs h.1)

All-insert_all :
    (P : String → Type 0) (events : List RuntimeEvent) (set : List String)
    → All P set
    → All (λ (e : RuntimeEvent). P e.event_id) events
    → All P (insert_all events set)
unfolding insert_all
All-insert_all P [] set h k = h
All-insert_all P (e ∷ events) set h k = elim (Bool-cases (contains set e.event_id)) [
  | inl old ↦ rw old (All-insert_all P events set h k.1)
  | inr new ↦ rw new (All-insert_all P events (e.event_id ∷ set) (k.0, h) k.1)
]

events_known :
    (all events : List RuntimeEvent) (set : List String)
    → ((k : String) → has_key event_id k events ≡ true → has_key event_id k all ≡ true)
    → All (λ (e : RuntimeEvent). contains (insert_all all set) e.event_id ≡ true) events
events_known all [] set sub = tt
events_known all (e ∷ events) set sub = (
  ground
      (arith, contains-insert_all e.event_id all set, sub e.event_id, eq_iff e.event_id e.event_id),
  events_known all events set (λ k h. sub k (ground arith)),
)

module _ (config : EventStreamConfig) (round : Round) (s : Stream) (file : Outbox) where
  acknowledged-IsStream :
      (request_id : String) (allowed : List String) (r : Result Error ℕ × Outbox)
      → IsStream config s
      → IsStream config (acknowledged request_id allowed s r).stream
  acknowledged-IsStream request_id allowed (ok n, f) h = record {
    bounded = omega (arith, h.bounded, length-remove_all-le allowed s.in_flight);
    sent = All-remove_all _ allowed s.in_flight h.sent;
  }
  acknowledged-IsStream request_id allowed (err e, f) h = h

  on_method-IsStream :
      (request_id : String) (method : RequestMethod)
      → IsStream config s
      → IsStream config (on_method config round request_id method s file).stream
  unfolding on_method
  on_method-IsStream request_id (RequestMethod.ack_events ids) h =
      let allowed = keep (λ id. contains s.in_flight id) ids in
      acknowledged-IsStream request_id allowed (acknowledge_runtime_events round.fault allowed file)
        h
  on_method-IsStream request_id (RequestMethod.close_event_stream id) h =
      elim (Bool-cases (id =ₜ config.stream_id)) [ inl e ↦ rw e h | inr e ↦ rw e h ]
  on_method-IsStream request_id _ h = h

  on_line-IsStream :
      (request : RequestEnvelope)
      → IsStream config s
      → IsStream config (on_line config round request s file).stream
  unfolding on_line
  on_line-IsStream request h =
      ground (arith, h, on_method-IsStream request.request_id request.method h)

  rest-IsStream : IsStream config s → IsStream config (rest config round s file).stream
  unfolding rest
  rest-IsStream h = elim (Bool-cases (leb config.heartbeat (round.now - s.last_heartbeat))) [
    | inl due ↦ rw due (record { bounded = h.bounded; sent = h.sent })
    | inr early ↦ rw early h
  ]

  send_page-IsStream :
      (page : Result Error (List RuntimeEvent))
      → ((events : List RuntimeEvent)
          → page ≡ ok events
          → length s.in_flight + length events ≤ config.max_in_flight)
      → IsStream config s
      → IsStream config (send_page config round s file page).stream
  unfolding send_page
  send_page-IsStream (err e) room h = h
  send_page-IsStream (ok []) room h = rest-IsStream h
  send_page-IsStream (ok (event ∷ events)) room h =
      let all : List RuntimeEvent = event ∷ events in
      record {
        bounded = omega (arith, room all refl, length-insert_all-le all s.in_flight);
        sent =
            All-insert_all (λ id. contains (insert_all all s.sent_ids) id ≡ true) all s.in_flight
              (All-weaken _ _
                (λ id known. ground (arith, contains-insert_all id all s.sent_ids, known))
                s.in_flight h.sent)
              (events_known all all s.sent_ids (λ k m. m));
      }

module _ (payload_project : String → Option String) (config : EventStreamConfig)
    (round : Round) where
  stream_page_room :
      (s : Stream) (file : Outbox) (events : List RuntimeEvent)
      → 0 < config.max_in_flight - length s.in_flight
      → runtime_event_stream_page payload_project file s.cursor config.scope s.sent_ids
          (config.max_in_flight - length s.in_flight)
        ≡ ok events
      → length events ≤ config.max_in_flight - length s.in_flight
  unfolding runtime_event_stream_page
  stream_page_room s file events positive h = elim (load_cases (load_list file)) [
    | inr (e, failed) ↦ absurd (ground arith)
    | inl (queued, loaded) ↦
        let fits =
          stream_page_fits payload_project s.cursor config.scope s.sent_ids
            (config.max_in_flight - length s.in_flight) queued in
        ground (arith, fits.0)
  ]

  -- Every round, whatever it receives and finds in the outbox, keeps at most `max_in_flight` events in
  -- flight, all of them sent before on this stream.
  pub step-IsStream :
      (input : Input) (s : Stream) (file : Outbox)
      → IsStream config s
      → IsStream config (step payload_project config round input s file).stream
  unfolding step on_tick
  step-IsStream (Input.garbage e) s file h = h
  step-IsStream (Input.line request) s file h = on_line-IsStream config round s file request h
  step-IsStream Input.tick s file h =
      elim (Bool-cases (ltb 0 (config.max_in_flight - length s.in_flight))) [
        | inr full ↦ rw full (rest-IsStream config round s file h)
        | inl free ↦ rw free (
            send_page-IsStream config round s file
              (runtime_event_stream_page payload_project file s.cursor config.scope s.sent_ids
                (config.max_in_flight - length s.in_flight))
              (λ events e. omega (arith, stream_page_room s file events (ground arith) e)) h)
      ]
