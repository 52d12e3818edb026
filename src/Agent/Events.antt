-- ===== src/Agent/Events.antt =====
-- The outbox of runtime events of crates/amcp-agent/src/main.rs: a queue in a file, which requests
-- append to, read by pages and acknowledge. A lock makes each change of the file one step.
pub mod Queue
pub mod Exact
pub mod Paging
use agent_memory_control_pla.Prelude.{
  ℕ, suc, ◌-◌, min, max, String, Bool, true, false, not, ◌&&◌, ◌||◌, Option, none, some, List, [],
  ◌∷◌, ◌++◌, ◌==◌, ◌=ₜ◌, is_some_text, if◌then◌else◌, length, take, drop, keep, last?,
}
use agent_memory_control_pla.Prelude.Keyed.{keep_last, has_key, position}
use agent_memory_control_pla.Prelude.Result.{Result, ok, err}
use agent_memory_control_pla.Prelude.Texts.{contains}
use agent_memory_control_pla.Domain.Kinds.{Scope}
use agent_memory_control_pla.Domain.Records.{RuntimeEvent}
use agent_memory_control_pla.Agent.Store.{Error, Stored, load_list, replace}

abbrev pub Outbox : Type 0
Outbox = Stored (List RuntimeEvent)

abbrev pub event_id : RuntimeEvent → String
event_id event = event.event_id

-- `x.clamp(lo, hi)`
abbrev pub clamp : ℕ → ℕ → ℕ → ℕ
clamp lo hi x = min (max x lo) hi

-- The loop of `append_runtime_event_outbox`.
unfoldable pub push_missing : List RuntimeEvent → List RuntimeEvent → List RuntimeEvent
push_missing queued [] = queued
push_missing queued (event ∷ events) =
    push_missing (if has_key event_id event.event_id queued then queued else queued ++ event ∷ [])
      events

abbrev pub max_queued : ℕ
max_queued = 256

unfoldable pub append_loaded :
    Option Error
    → List RuntimeEvent
    → Outbox
    → Result Error (List RuntimeEvent)
    → Result Error (Unit {0}) × Outbox
append_loaded fault events file (err e) = (err e, file)
append_loaded fault events file (ok queued) =
    replace fault (keep_last max_queued (push_missing queued events)) file

unfoldable pub append_runtime_event_outbox :
    Option Error → List RuntimeEvent → Outbox → Result Error (Unit {0}) × Outbox
append_runtime_event_outbox fault [] file = (ok tt, file)
append_runtime_event_outbox fault (event ∷ events) file =
    append_loaded fault (event ∷ events) file (load_list file)

-- The events that stay when these ids are acknowledged.
abbrev pub unacknowledged : List String → List RuntimeEvent → List RuntimeEvent
unacknowledged event_ids queued = keep (λ event. not (contains event_ids event.event_id)) queued

unfoldable pub acknowledge_write :
    Option Error → List RuntimeEvent → List RuntimeEvent → Outbox → Result Error ℕ × Outbox
acknowledge_write none queued rest file = (ok (length queued - length rest), Stored.holds rest)
acknowledge_write (some e) queued rest file = (err e, file)

unfoldable pub acknowledge_loaded :
    Option Error → List String → Outbox → Result Error (List RuntimeEvent) → Result Error ℕ × Outbox
acknowledge_loaded fault event_ids file (err e) = (err e, file)
acknowledge_loaded fault event_ids file (ok queued) =
    let rest = unacknowledged event_ids queued in
    if length rest == length queued then (ok 0, file) else acknowledge_write fault queued rest file

unfoldable pub acknowledge_runtime_events :
    Option Error → List String → Outbox → Result Error ℕ × Outbox
acknowledge_runtime_events fault [] file = (ok 0, file)
acknowledge_runtime_events fault (id ∷ ids) file =
    acknowledge_loaded fault (id ∷ ids) file (load_list file)

-- Where reading starts: behind the event of the cursor, or at the front if that is not queued.
unfoldable pub start_of : Option String → List RuntimeEvent → ℕ
start_of none events = 0
start_of (some id) events = elim (position event_id id events) [ none ↦ 0 | some p ↦ suc p ]

abbrev pub id_of : Option RuntimeEvent → Option String
id_of none = none
id_of (some event) = some event.event_id

abbrev pub next_id : List RuntimeEvent → Option String
next_id events = id_of (last? events)

-- The page of `runtime_event_page`, and of the request `ReplayEvents`.
unfoldable pub page_of : Option String → ℕ → List RuntimeEvent → List RuntimeEvent
page_of after limit events = take (clamp 1 256 limit) (drop (start_of after events) events)

unfoldable pub runtime_event_page :
    Outbox → Option String → ℕ → Result Error (List RuntimeEvent × Option String)
runtime_event_page file after limit = elim (load_list file) [
  | err e ↦ err e
  | ok events ↦ ok (page_of after limit events, next_id (page_of after limit events))
]

abbrev pub is_none_or_same : Option String → String → Bool
is_none_or_same none value = true
is_none_or_same (some id) value = id =ₜ value

-- The argument in front is serde_json's: the text under `project_id` of a payload, if the payload is
-- a JSON object that has one.
module _ (payload_project : String → Option String) where
  unfoldable pub event_matches_scope : RuntimeEvent → Option Scope → Bool
  event_matches_scope event none = true
  event_matches_scope event (some scope) =
      if not (is_none_or_same scope.host_id event.host_id)
        || not (is_none_or_same scope.provider_id event.provider_id)
      then false
      else elim scope.project_id [
        | none ↦ true
        | some project ↦ is_some_text (payload_project event.payload_json) project
      ]

  unfoldable pub stream_page_of :
      Option String → Option Scope → List String → ℕ → List RuntimeEvent → List RuntimeEvent
  stream_page_of after scope sent_ids limit events = take (clamp 1 64 limit) (
      keep (λ event. not (contains sent_ids event.event_id) && event_matches_scope event scope)
        (drop (start_of after events) events))

  unfoldable pub runtime_event_stream_page :
      Outbox → Option String → Option Scope → List String → ℕ → Result Error (List RuntimeEvent)
  runtime_event_stream_page file after scope sent_ids limit = elim (load_list file) [
    | err e ↦ err e
    | ok events ↦ ok (stream_page_of after scope sent_ids limit events)
  ]
