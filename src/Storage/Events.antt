-- ===== src/Storage/Events.antt =====
-- `ingest_runtime_events` of crates/amcp-storage/src/lib.rs: one transaction, which an error rolls back.
pub mod Turn
pub mod Delivered
pub mod Consistent
use Prim.Native.Char.{code}
use Prim.Native.String
use agent_memory_control_pla.Prelude.{
  ℕ, suc, String, Bool, true, false, ◌&&◌, Option, none, some, List, [], ◌∷◌, ◌++◌, any, ◌==◌, ◌=ₜ◌,
  if◌then◌else◌, map,
}
use agent_memory_control_pla.Prelude.Result.{Result, ok, err, ◌>>=◌}
use agent_memory_control_pla.Domain.Kinds.{LifecycleState}
use agent_memory_control_pla.Domain.Records.{RuntimeEvent, SessionRecord}
use agent_memory_control_pla.Agent.Store.{Error}
use agent_memory_control_pla.Rag.Config.{done_unless}
use agent_memory_control_pla.Storage.Catalog.{Catalog, ArtifactRow, has_host, has_row}
use agent_memory_control_pla.Storage.Key
use agent_memory_control_pla.Storage.Ingest.{each}
use agent_memory_control_pla.Storage.Paths.{
  is_absolute_source_root, is_safe_relative_source_path, join_source_reference,
}

-- What is read of a JSON payload: a field that is missing or of another type is none, and of the paths
-- the texts are left.
pub record RuntimePayload : Type 0 where
  pub root : Option String
  pub paths : Option (List String)
  pub thread_id : Option String
  pub title : Option String
  pub cwd : Option String
  pub model : Option String
  pub project_id : Option String
  pub archived : Option Bool
  pub created_at : Option ℕ

abbrev pub is_at : RuntimeEvent → String → ArtifactRow → Bool
is_at event source_reference row =
    row.host_id =ₜ event.host_id
    && row.provider_id =ₜ event.provider_id
    && row.source_reference =ₜ source_reference

-- `UPDATE artifacts SET lifecycle = ?1`
abbrev pub mark : RuntimeEvent → String → ArtifactRow → ArtifactRow
mark event source_reference row =
    if is_at event source_reference row
    then record row { lifecycle = LifecycleState.stale }
    else row

abbrev pub mark_paths : RuntimeEvent → String → List String → List ArtifactRow → List ArtifactRow
mark_paths event root [] rows = rows
mark_paths event root (path ∷ paths) rows = mark_paths event root paths (
    if is_safe_relative_source_path path
    then map (mark event (join_source_reference root path)) rows
    else rows)

abbrev pub mark_below :
    RuntimeEvent → Option String → Option (List String) → List ArtifactRow → List ArtifactRow
mark_below event none paths rows = rows
mark_below event (some root) none rows = rows
mark_below event (some root) (some paths) rows =
    if is_absolute_source_root root then mark_paths event root paths rows else rows

abbrev pub mark_payload : RuntimeEvent → Option RuntimePayload → List ArtifactRow → List ArtifactRow
mark_payload event none rows = rows
mark_payload event (some payload) rows = mark_below event payload.root payload.paths rows

-- `COALESCE(excluded.x, sessions.x)`
abbrev pub coalesce : {A : Type 0} → Option A → Option A → Option A
coalesce none old = old
coalesce (some new) old = some new

abbrev pub merge : SessionRecord → SessionRecord → SessionRecord
merge new old = record new {
  project_id = coalesce new.project_id old.project_id;
  title = coalesce new.title old.title;
  cwd = coalesce new.cwd old.cwd;
  model = coalesce new.model old.model;
  branch = old.branch;
  started_at = coalesce new.started_at old.started_at;
  ended_at = old.ended_at;
}

-- `replace('/', "%2F")`
abbrev pub escape_slashes : String → String
escape_slashes String.[] = ""
escape_slashes (String.◌∷◌ c s) =
    let rest = escape_slashes s in
    if code c == 47 then String.◌++◌ "%2F" rest else String.◌∷◌ c rest

abbrev pub is_true : Option Bool → Bool
is_true none = false
is_true (some b) = b

unfoldable pub session_of : RuntimeEvent → RuntimePayload → String → SessionRecord
session_of event payload thread_id = record {
  session_id = thread_id;
  host_id = event.host_id;
  provider_id = event.provider_id;
  project_id = payload.project_id;
  title = payload.title;
  cwd = payload.cwd;
  model = payload.model;
  branch = none;
  started_at = payload.created_at;
  ended_at = none;
  archived = is_true payload.archived;
  source_reference =
      String.◌++◌ event.provider_id (String.◌++◌ "://thread/" (escape_slashes thread_id));
  source_hash = event.event_id;
  metadata_json = event.payload_json;
  observed_at = event.occurred_at;
}

unfoldable pub put_session :
    Bool → SessionRecord → List SessionRecord → Result Error (List SessionRecord)
put_session parent new rows =
    if has_row Key.session new rows
    then ok (map (λ old. if Key.session old new then merge new old else old) rows)
    else if parent
    then ok (rows ++ new ∷ [])
    else err "FOREIGN KEY constraint failed"

unfoldable pub project_runtime_session :
    RuntimeEvent → Option RuntimePayload → Catalog → Result Error Catalog
project_runtime_session event none c = err "decode runtime session metadata"
project_runtime_session event (some payload) c = elim payload.thread_id [
  | none ↦ ok c
  | some thread_id ↦ do
    rows ← put_session (has_host c event.host_id) (session_of event payload thread_id) c.sessions
    ok (record c { sessions = rows })
]

-- The argument is `serde_json::from_str` with the fields above.
module _ (from_str : String → Option RuntimePayload) where
  -- A new event, and what it marks.
  unfoldable pub add_event : RuntimeEvent → Catalog → Catalog
  add_event event c = record c {
    runtime_events = c.runtime_events ++ event ∷ [];
    artifacts =
        if event.event_type =ₜ "source.changed"
        then mark_payload event (from_str event.payload_json) c.artifacts
        else c.artifacts;
  }

  -- `INSERT OR IGNORE`
  unfoldable pub put_event : RuntimeEvent → ℕ × Catalog → Result Error (ℕ × Catalog)
  put_event event (inserted, c) =
      if has_row Key.event event c.runtime_events
      then ok (inserted, c)
      else if has_host c event.host_id
      then ok (suc inserted, add_event event c)
      else err "FOREIGN KEY constraint failed"

  -- The session of an event, which an event that is known updates again.
  unfoldable pub project_event : RuntimeEvent → Catalog → Result Error Catalog
  project_event event c =
      if event.event_type =ₜ "session.updated"
      then project_runtime_session event (from_str event.payload_json) c
      else ok c

  -- The body of the loop.
  unfoldable pub ingest_event : RuntimeEvent → ℕ × Catalog → Result Error (ℕ × Catalog)
  ingest_event event s = do
    (inserted, c) ← put_event event s
    c' ← project_event event c
    ok (inserted, c')

  unfoldable pub ingest_runtime_events :
      Option Error → Option Error → List RuntimeEvent → Catalog → Result Error ℕ × Catalog
  unfolding ingest_event
  ingest_runtime_events (some e) restrict events c = (err e, c)
  ingest_runtime_events none restrict events c = elim (each ingest_event events (0, c)) [
    | err e ↦ (err e, c)
    | ok (inserted, c') ↦ (done_unless restrict inserted, c')
  ]
