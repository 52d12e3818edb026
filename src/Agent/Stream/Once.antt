-- ===== src/Agent/Stream/Once.antt =====
-- What a whole event stream of crates/amcp-agent/src/main.rs sends.
use mathlib.Core.Path.{subst}
use mathlib.Core.List.{append-nil}
use agent_memory_control_pla.Prelude.{
  ℕ, ◌-◌, String, ◌≡◌, refl, ◌⊎◌, true, false, not, ◌||◌, Option, none, some, List, [], ◌∷◌, ◌++◌,
  arith, ltb, leb, ◌==◌, eq_iff, length, drop, keep, All, Bool-cases, inl, inr, All-take,
  All-keep_sound,
}
use agent_memory_control_pla.Prelude.Keyed.{
  has_key, Distinct, Distinct-append, Distinct-take, Distinct-keep, Distinct-drop, has_key-append,
}
use agent_memory_control_pla.Prelude.Result.{Result, ok, err, ok_injective}
use agent_memory_control_pla.Prelude.Texts.{contains}
use agent_memory_control_pla.Domain.Records.{RuntimeEvent}
use agent_memory_control_pla.Protocol.{
  RequestMethod, RequestEnvelope, ResponsePayload, ResponseEnvelope, ProtocolError,
  protocol_version,
}
use agent_memory_control_pla.Agent.Store.{Error, Stored}
use agent_memory_control_pla.Agent.Auth.{accepts}
use agent_memory_control_pla.Agent.Events.{
  Outbox, event_id, start_of, clamp, acknowledge_runtime_events, runtime_event_stream_page,
  stream_page_of,
}
use agent_memory_control_pla.Agent.Events.Queue.{IsOutbox}
use agent_memory_control_pla.Agent.Stream.{
  EventStreamConfig, Stream, Input, Round, Status, Outcome, acknowledged, on_method, on_line, rest,
  send_page, on_tick, step,
}
use agent_memory_control_pla.Agent.Stream.Flow.{contains-insert_all}

-- The events that a reply carries.
abbrev pub payload_events : Result ProtocolError ResponsePayload → List RuntimeEvent
payload_events (ok (ResponsePayload.event_stream_page id events next beat)) = events
payload_events (ok _) = []
payload_events (err e) = []

abbrev pub events_of : Option ResponseEnvelope → List RuntimeEvent
events_of none = []
events_of (some response) = payload_events response.result

-- A round as the stream lives it, with the outbox that it finds: other requests change it.
abbrev pub Turn : Type 0
Turn = Round × Input × Outbox

-- The rounds that follow, if the stream goes on.
abbrev pub while_running : Status → List RuntimeEvent → List RuntimeEvent
while_running Status.running later = later
while_running Status.closed later = []
while_running (Status.failed e) later = []

module _ (payload_project : String → Option String) (config : EventStreamConfig) where
  -- All events sent by the rounds until the stream ends.
  unfoldable pub sent_by : List Turn → Stream → List RuntimeEvent
  sent_by [] s = []
  sent_by ((round, input, file) ∷ turns) s =
      let outcome = step payload_project config round input s file in
      let later = sent_by turns outcome.stream in
      events_of outcome.reply ++ while_running outcome.status later

-- What a round sends: each event once, none that was sent before, and it is noted as sent.
record Sends (s : Stream) (o : Outcome) : Type 0 where
  distinct : Distinct event_id (events_of o.reply)
  fresh :
      (k : String) → contains s.sent_ids k ≡ true → has_key event_id k (events_of o.reply) ≡ false
  noted :
      (k : String)
      → contains o.stream.sent_ids k
        ≡ (contains s.sent_ids k || has_key event_id k (events_of o.reply))

Sends-nothing :
    (s : Stream) (o : Outcome) → events_of o.reply ≡ [] → o.stream.sent_ids ≡ s.sent_ids → Sends s o
Sends-nothing s o e same = record {
  distinct = rw e tt;
  fresh = λ k h. rw e refl;
  noted = λ k. rw (e, same) (ground arith);
}

status_cases :
    (status : Status) (later : List RuntimeEvent)
    → (while_running status later ≡ later) ⊎ (while_running status later ≡ [])
status_cases Status.running later = inl refl
status_cases Status.closed later = inr refl
status_cases (Status.failed e) later = inr refl

fresh_keys :
    (set : List String) (events : List RuntimeEvent) (k : String)
    → All (λ (e : RuntimeEvent). contains set e.event_id ≡ false) events
    → contains set k ≡ true
    → has_key event_id k events ≡ false
fresh_keys set [] k h m = refl
fresh_keys set (e ∷ events) k h m =
    ground (arith, eq_iff e.event_id k, fresh_keys set events k h.1 m, h.0)

acknowledged-Sends :
    (request_id : String) (allowed : List String) (s : Stream) (r : Result Error ℕ × Outbox)
    → Sends s (acknowledged request_id allowed s r)
acknowledged-Sends request_id allowed s (ok n, f) = Sends-nothing s _ refl refl
acknowledged-Sends request_id allowed s (err e, f) = Sends-nothing s _ refl refl

on_method-Sends :
    (config : EventStreamConfig) (round : Round) (request_id : String) (method : RequestMethod)
    (s : Stream) (file : Outbox)
    → Sends s (on_method config round request_id method s file)
unfolding on_method
on_method-Sends config round request_id (RequestMethod.ack_events ids) s file =
    acknowledged-Sends request_id (keep (λ id. contains s.in_flight id) ids) s
      (acknowledge_runtime_events round.fault (keep (λ id. contains s.in_flight id) ids) file)
on_method-Sends config round request_id (RequestMethod.close_event_stream id) s file =
    Sends-nothing s _ (ground arith) (ground arith)
on_method-Sends config round request_id _ s file = Sends-nothing s _ refl refl

on_line-Sends :
    (config : EventStreamConfig) (round : Round) (request : RequestEnvelope) (s : Stream)
    (file : Outbox)
    → Sends s (on_line config round request s file)
unfolding on_line
on_line-Sends config round request s file =
    let inner = on_method-Sends config round request.request_id request.method s file in
    elim (Bool-cases (not (request.protocol_version == protocol_version))) [
      | inl other ↦ Sends-nothing s _ (rw other refl) (rw other refl)
      | inr same ↦ elim (Bool-cases (not (accepts round.auth round.wall request.token))) [
        | inl bad ↦ Sends-nothing s _ (rw (same, bad) refl) (rw (same, bad) refl)
        | inr good ↦ rw (same, good) inner
      ]
    ]

rest-Sends :
    (config : EventStreamConfig) (round : Round) (s : Stream) (file : Outbox)
    → Sends s (rest config round s file)
unfolding rest
rest-Sends config round s file =
    elim (Bool-cases (leb config.heartbeat (round.now - s.last_heartbeat))) [
      | inl due ↦ Sends-nothing s _ (rw due refl) (rw due refl)
      | inr early ↦ Sends-nothing s _ (rw early refl) (rw early refl)
    ]

-- A page that can be sent: distinct events, none of them sent before.
record IsFresh (s : Stream) (events : List RuntimeEvent) : Type 0 where
  distinct : Distinct event_id events
  new : All (λ (e : RuntimeEvent). contains s.sent_ids e.event_id ≡ false) events

send_page-Sends :
    (config : EventStreamConfig) (round : Round) (s : Stream) (file : Outbox)
    (page : Result Error (List RuntimeEvent))
    → ((events : List RuntimeEvent) → page ≡ ok events → IsFresh s events)
    → Sends s (send_page config round s file page)
unfolding send_page
send_page-Sends config round s file (err e) h = Sends-nothing s _ refl refl
send_page-Sends config round s file (ok []) h = rest-Sends config round s file
send_page-Sends config round s file (ok (event ∷ events)) h =
    let fresh = h (event ∷ events) refl in
    record {
      distinct = fresh.distinct;
      fresh = λ k m. fresh_keys s.sent_ids (event ∷ events) k fresh.new m;
      noted = λ k. contains-insert_all k (event ∷ events) s.sent_ids;
    }

module _ (payload_project : String → Option String) (config : EventStreamConfig) where
  page-IsFresh :
      (s : Stream) (file : Outbox) (limit : ℕ)
      → IsOutbox file
      → (events : List RuntimeEvent)
      → runtime_event_stream_page payload_project file s.cursor config.scope s.sent_ids limit
        ≡ ok events
      → IsFresh s events
  unfolding runtime_event_stream_page stream_page_of
  page-IsFresh s Stored.absent limit h events e = subst (IsFresh s) (ok_injective e) (record {
    distinct =
        Distinct-take event_id _ _
          (Distinct-keep event_id _ _ (Distinct-drop event_id (start_of s.cursor []) [] tt));
    new =
        All-take _ (clamp 1 64 limit) _
          (All-keep_sound _ _ (λ event m. ground arith) (drop (start_of s.cursor []) []));
  })
  page-IsFresh s (Stored.broken x) limit h events e = absurd (ground arith)
  page-IsFresh s (Stored.holds queued) limit h events e =
      subst (IsFresh s) (ok_injective e) (record {
        distinct = Distinct-take event_id _ _ (
            Distinct-keep event_id _ _
              (Distinct-drop event_id (start_of s.cursor queued) queued h.distinct));
        new =
            All-take _ (clamp 1 64 limit) _ (
              All-keep_sound _ _ (λ event m. ground arith)
                (drop (start_of s.cursor queued) queued));
      })

  step-Sends :
      (round : Round) (input : Input) (s : Stream) (file : Outbox)
      → IsOutbox file
      → Sends s (step payload_project config round input s file)
  unfolding step on_tick
  step-Sends round (Input.garbage e) s file h = Sends-nothing s _ refl refl
  step-Sends round (Input.line request) s file h = on_line-Sends config round request s file
  step-Sends round Input.tick s file h =
      elim (Bool-cases (ltb 0 (config.max_in_flight - length s.in_flight))) [
        | inl free ↦ rw free (
            send_page-Sends config round s file _
              (page-IsFresh s file (config.max_in_flight - length s.in_flight) h))
        | inr full ↦ rw full (rest-Sends config round s file)
      ]

  sent_by-fresh :
      (turns : List Turn) (s : Stream)
      → All (λ (t : Turn). IsOutbox t.2) turns
      → Distinct event_id (sent_by payload_project config turns s)
        × ((k : String)
            → contains s.sent_ids k ≡ true
            → has_key event_id k (sent_by payload_project config turns s) ≡ false)
  unfolding sent_by
  sent_by-fresh [] s h = (tt, λ k m. refl)
  sent_by-fresh ((round, input, file) ∷ turns) s h =
      let sends = step-Sends round input s file h.0 in
      let outcome = step payload_project config round input s file in
      let now = events_of outcome.reply in
      let ih = sent_by-fresh turns outcome.stream h.1 in
      elim (status_cases outcome.status (sent_by payload_project config turns outcome.stream)) [
        | inl goes_on ↦ rw goes_on (
          Distinct-append event_id now (sent_by payload_project config turns outcome.stream)
              sends.distinct ih.0 (λ k m. ih.1 k (ground (arith, sends.noted k))),
          λ k m. ground (
            arith,
            has_key-append event_id k now (sent_by payload_project config turns outcome.stream),
            sends.fresh k,
            ih.1 k,
            sends.noted k,
          ),
        )
        | inr ends ↦ rw (ends, append-nil) (sends.distinct, sends.fresh)
      ]

  none_of :
      (set : List String) (events : List RuntimeEvent)
      → ((k : String) → contains set k ≡ true → has_key event_id k events ≡ false)
      → All (λ event. contains set event.event_id ≡ false) events
  none_of set [] h = tt
  none_of set (event ∷ events) h = (
    elim (Bool-cases (contains set event.event_id)) [
      | inl old ↦
          absurd
            (let e = h event.event_id old in ground (arith, eq_iff event.event_id event.event_id))
      | inr new ↦ new
    ],
    none_of set events (λ k old. let e = h k old in ground arith),
  )

  -- As long as no outbox that a round finds holds an event twice, a stream sends no event twice, and
  -- none that it had sent before, whatever it receives, acknowledges or finds in the outbox.
  pub sent_by-Distinct :
      (turns : List Turn) (s : Stream)
      → All (λ (t : Turn). IsOutbox t.2) turns
      → Distinct event_id (sent_by payload_project config turns s)
        × All
            (λ event. contains s.sent_ids event.event_id ≡ false)
            (sent_by payload_project config turns s)
  sent_by-Distinct turns s h =
      let (distinct, fresh) = sent_by-fresh turns s h in
      (distinct, none_of s.sent_ids (sent_by payload_project config turns s) fresh)
