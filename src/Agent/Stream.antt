-- ===== src/Agent/Stream.antt =====
-- Event streams of crates/amcp-agent/src/main.rs: `open_event_stream` and the loop of
-- `serve_event_stream` as a step on its variables. A set of ids is a list without repetitions.
-- Instants and durations are in milliseconds.
pub mod Flow
pub mod Once
use agent_memory_control_pla.Prelude.{
  ℕ, ◌-◌, String, Bool, true, false, not, ◌&&◌, Option, none, some, List, [], ◌∷◌, leb, ltb, ◌==◌,
  ◌=ₜ◌, if◌then◌else◌, length, keep,
}
use agent_memory_control_pla.Prelude.Result.{Result, ok, err}
use agent_memory_control_pla.Prelude.Texts.{contains}
use agent_memory_control_pla.Domain.Kinds.{Scope, HostIdentity}
use agent_memory_control_pla.Domain.Records.{RuntimeEvent}
use agent_memory_control_pla.Domain.Approval.{new_id}
use agent_memory_control_pla.Protocol
use agent_memory_control_pla.Protocol.{
  RequestMethod, RequestEnvelope, ResponsePayload, ResponseEnvelope, ProtocolError,
  protocol_version,
}
use agent_memory_control_pla.Agent.Store.{Error, Stored, load_list}
use agent_memory_control_pla.Agent.Auth.{AgentAuth, accepts}
use agent_memory_control_pla.Agent.Events.{
  Outbox, clamp, next_id, is_none_or_same, acknowledge_runtime_events, runtime_event_stream_page,
}

pub record EventStreamConfig : Type 0 where
  pub stream_id : String
  pub after_event_id : Option String
  pub scope : Option Scope
  pub max_in_flight : ℕ
  pub heartbeat : ℕ

abbrev pub respond : String → Result ProtocolError ResponsePayload → ResponseEnvelope
respond request_id result = record {
  protocol_version = protocol_version;
  request_id = request_id;
  result = result;
}

abbrev pub refuse : String → String → String → ResponseEnvelope
refuse request_id code message = respond request_id (err (Protocol.error code message))

-- `scope.as_ref().and_then(|scope| scope.host_id).is_some_and(|host_id| host_id != own)`
abbrev pub names_other_host : Option Scope → String → Bool
names_other_host none own = false
names_other_host (some scope) own = not (is_none_or_same scope.host_id own)

-- The arguments in front are the host's identity, the clock and the random part of the new id.
unfoldable pub open_event_stream :
    HostIdentity
    → ℕ
    → String
    → RequestEnvelope
    → AgentAuth
    → ResponseEnvelope × Option EventStreamConfig
open_event_stream host now uuid request auth = elim request.method [
  | RequestMethod.open_event_stream after_event_id scope max_in_flight heartbeat_ms ↦
      if not (request.protocol_version == protocol_version)
      then (
        refuse request.request_id "protocol_version_mismatch" "unsupported protocol version",
        none,
      )
      else if not (accepts auth now request.token)
      then (refuse request.request_id "unauthorized" "invalid Agent token", none)
      else if names_other_host scope host.host_id
      then (refuse request.request_id "scope_denied" "requested host is not this Agent", none)
      else (
        respond request.request_id (
            ok (
              ResponsePayload.event_stream_opened (new_id "event-stream" uuid)
                (clamp 1 64 max_in_flight) (clamp 250 30000 heartbeat_ms))),
        some (record {
          stream_id = new_id "event-stream" uuid;
          after_event_id = after_event_id;
          scope = scope;
          max_in_flight = clamp 1 64 max_in_flight;
          heartbeat = clamp 250 30000 heartbeat_ms;
        }),
      )
  | _ ↦ (
    refuse request.request_id "invalid_event_stream_request" "not an event stream open request",
    none,
  )
]

-- The variables of the loop.
pub record Stream : Type 0 where
  pub cursor : Option String
  pub in_flight : List String
  pub sent_ids : List String
  pub last_heartbeat : ℕ

unfoldable pub start : EventStreamConfig → ℕ → Stream
start config now = record {
  cursor = config.after_event_id;
  in_flight = [];
  sent_ids = [];
  last_heartbeat = now;
}

-- `set.insert`, `set.remove` and their loops over the events of a page or the ids of a request.
abbrev pub insert : String → List String → List String
insert id set = if contains set id then set else id ∷ set

unfoldable pub insert_all : List RuntimeEvent → List String → List String
insert_all [] set = set
insert_all (event ∷ events) set = insert_all events (insert event.event_id set)

unfoldable pub remove_all : List String → List String → List String
remove_all [] set = set
remove_all (id ∷ ids) set = remove_all ids (keep (λ s. not (s =ₜ id)) set)

-- What a round of the loop receives: a line that is no request, a request, or the timer.
pub data Input : Type 0 where
  garbage : Error → Input
  line : RequestEnvelope → Input
  tick : Input

-- What the round finds around it: the clocks, the shared authentication state, the error of the
-- outbox's replacement if it fails, and the random part of a new id.
pub record Round : Type 0 where
  pub wall : ℕ
  pub now : ℕ
  pub auth : AgentAuth
  pub fault : Option Error
  pub uuid : String

pub data Status : Type 0 where
  running closed : Status
  failed : Error → Status

pub record Outcome : Type 0 where
  pub stream : Stream
  pub file : Outbox
  pub reply : Option ResponseEnvelope
  pub status : Status

-- The loop goes on, with an answer.
abbrev pub answer : Stream → Outbox → ResponseEnvelope → Outcome
answer s file response = record {
  stream = s;
  file = file;
  reply = some response;
  status = Status.running;
}

abbrev pub acknowledged : String → List String → Stream → Result Error ℕ × Outbox → Outcome
acknowledged request_id allowed s (ok removed, file) =
    answer (record s { in_flight = remove_all allowed s.in_flight }) file
      (respond request_id (ok (ResponsePayload.runtime_events_acked removed)))
acknowledged request_id allowed s (err e, file) = record {
  stream = s;
  file = file;
  reply = none;
  status = Status.failed e;
}

unfoldable pub on_method :
    EventStreamConfig → Round → String → RequestMethod → Stream → Outbox → Outcome
on_method config round request_id (RequestMethod.ack_events event_ids) s file =
    let allowed = keep (λ id. contains s.in_flight id) event_ids in
    acknowledged request_id allowed s (acknowledge_runtime_events round.fault allowed file)
on_method config round request_id (RequestMethod.close_event_stream stream_id) s file =
    if stream_id =ₜ config.stream_id
    then record {
      stream = s;
      file = file;
      reply = some (
          respond request_id
            (ok (ResponsePayload.event_stream_closed config.stream_id "client_closed")));
      status = Status.closed;
    }
    else answer s file (
        refuse request_id "event_stream_request_not_supported"
          "only AckEvents, CloseEventStream and Shutdown are accepted on an event stream")
on_method config round request_id RequestMethod.shutdown s file = record {
  stream = s;
  file = file;
  reply = some (respond request_id (ok ResponsePayload.shutdown_ack));
  status = Status.closed;
}
on_method config round request_id _ s file = answer s file (
    refuse request_id "event_stream_request_not_supported"
      "only AckEvents, CloseEventStream and Shutdown are accepted on an event stream")

unfoldable pub on_line : EventStreamConfig → Round → RequestEnvelope → Stream → Outbox → Outcome
unfolding on_method
on_line config round request s file =
    if not (request.protocol_version == protocol_version)
    then answer s file
        (refuse request.request_id "protocol_version_mismatch" "unsupported protocol version")
    else if not (accepts round.auth round.wall request.token)
    then answer s file (refuse request.request_id "unauthorized" "invalid Agent token")
    else on_method config round request.request_id request.method s file

-- A round of the timer that sends no events: a heartbeat, if one is due.
unfoldable pub rest : EventStreamConfig → Round → Stream → Outbox → Outcome
rest config round s file =
    if leb config.heartbeat (round.now - s.last_heartbeat)
    then answer (record s { last_heartbeat = round.now }) file
        (respond (new_id "event-stream-heartbeat" round.uuid)
          (ok (ResponsePayload.event_stream_page config.stream_id [] s.cursor true)))
    else record { stream = s; file = file; reply = none; status = Status.running }

unfoldable pub send_page :
    EventStreamConfig → Round → Stream → Outbox → Result Error (List RuntimeEvent) → Outcome
unfolding rest
send_page config round s file (err e) = record {
  stream = s;
  file = file;
  reply = none;
  status = Status.failed e;
}
send_page config round s file (ok []) = rest config round s file
send_page config round s file (ok (event ∷ events)) =
    answer
      (record {
        cursor = next_id (event ∷ events);
        in_flight = insert_all (event ∷ events) s.in_flight;
        sent_ids = insert_all (event ∷ events) s.sent_ids;
        last_heartbeat = round.now;
      })
      file
      (respond (new_id "event-stream-page" round.uuid) (
        ok (
          ResponsePayload.event_stream_page config.stream_id (event ∷ events)
            (next_id (event ∷ events)) false)))

module _ (payload_project : String → Option String) (config : EventStreamConfig) where
  unfoldable pub on_tick : Round → Stream → Outbox → Outcome
  unfolding send_page
  on_tick round s file =
      let available = config.max_in_flight - length s.in_flight in
      if ltb 0 available
      then send_page config round s file (
          runtime_event_stream_page payload_project file s.cursor config.scope s.sent_ids available)
      else rest config round s file

  unfoldable pub step : Round → Input → Stream → Outbox → Outcome
  unfolding on_line on_tick
  step round (Input.garbage e) s file = answer s file (refuse "unknown" "invalid_json" e)
  step round (Input.line request) s file = on_line config round request s file
  step round Input.tick s file = on_tick round s file
