-- ===== src/Examples/Confined.antt =====
-- An approved change set applied by a request to an agent whose adapter is the Codex one.
use agent_memory_control_pla.Prelude.{◌≡◌, refl, ◌⊎◌, true, none, some, [], ◌∷◌}
use agent_memory_control_pla.Prelude.Texts.{as_bytes, is_blank}
use agent_memory_control_pla.Domain.Approval.{new_id}
use agent_memory_control_pla.Codex.Files
use agent_memory_control_pla.Codex.Files.{FilePath, Bytes, Os, Contents, same_path, write}
use agent_memory_control_pla.Codex.Paths.{
  authorized_path, discovery_roots, unique_roots, sort_roots, is_excluded, is_supported,
  ensure_project_is_writable,
}
use agent_memory_control_pla.Codex.Propose.{
  read_optional, redact_text, validate_replacement, is_config_document_name,
}
use agent_memory_control_pla.Codex.Apply.{
  apply_change, apply_operations, apply_from, apply_operation, replace_target, perform, put,
  write_fault, verify, back_up, check_operations, check_operation,
}
use agent_memory_control_pla.Codex.Provider.{SomeChanges, codex_provider, process_request_confined}
use agent_memory_control_pla.Providers
use agent_memory_control_pla.Providers.{inventory_adapter}
use agent_memory_control_pla.Protocol.{RequestMethod, RequestEnvelope, protocol_version}
use agent_memory_control_pla.Domain.Approval.{
  issue, is_valid, signature, change_set_operations_hash,
}
use agent_memory_control_pla.Agent.Store.{Stored}
use agent_memory_control_pla.Agent.Auth.{accepts}
use agent_memory_control_pla.Agent.Approvals.{
  consume_approval, replay_key, is_bound, check_file, commit,
}
use agent_memory_control_pla.Agent.Requests.Context.{Env, Agent}
use agent_memory_control_pla.Agent.Requests.Change.{guarded, on_apply}
use agent_memory_control_pla.Agent.Requests.{authenticated, dispatch, process_request}
use agent_memory_control_pla.Agent.Requests.Guards.{Approves}
use agent_memory_control_pla.Agent.Requests.World.{Approved, process_request-Approved}
use agent_memory_control_pla.Examples.Data.{mac, ledger, approval, change_set, foreign}
use agent_memory_control_pla.Examples.Codex.{adapter, guidance_path, empty}

abbrev env : Env Contents
env = record {
  foreign = foreign;
  failure_payload = λ e. e;
  host = mac;
  now = 5;
  uuid = "u";
  registry = codex_provider adapter 5 "u" "v" (inventory_adapter "u" "codex" "Codex" "1") ∷ [];
  agent_version = "1";
  backup_dir = "/b";
  credential_fault = none;
  approval_fault = none;
  event_fault = none;
  cache_fault = none;
  outbox_fault = none;
}

abbrev agent : Agent Contents
agent = record {
  ledger = ledger;
  events = Stored.absent;
  caches = λ id. Stored.absent;
  outboxes = λ id. Stored.absent;
  world = empty;
}

abbrev asking : RequestEnvelope
asking = record {
  protocol_version = protocol_version;
  request_id = "q";
  correlation_id = "c";
  host_id = none;
  deadline_ms = none;
  idempotency_key = none;
  pairing_code = none;
  method = RequestMethod.apply_change change_set (approval "1");
  token = some "token";
}

-- The request of the next theorem does change the file.
file_written : (process_request env asking agent).1.world guidance_path ≡ some (as_bytes "hi")
unfolding process_request authenticated dispatch on_apply guarded accepts consume_approval is_bound
    replay_key check_file commit is_valid signature issue new_id is_blank change_set_operations_hash
    Providers.get apply_change apply_operations apply_from apply_operation replace_target perform
    put write_fault verify back_up check_operations check_operation authorized_path Files.components
    Files.split_slashes Files.is_absolute Files.parent Files.file_name Files.starts_with
    Files.ends_with discovery_roots unique_roots sort_roots is_excluded is_supported same_path
    ensure_project_is_writable redact_text validate_replacement is_config_document_name
    read_optional write as_bytes
file_written = refl

process_request-Approved_example :
    ((process_request env asking agent).1.world ≡ empty)
    ⊎ ((protocol_version ≡ protocol_version)
        × (authenticated env asking agent.ledger.auth ≡ true)
        × Approved env asking.token asking.method agent (process_request env asking agent).1.world)
process_request-Approved_example = process_request-Approved env asking agent

process_request_confined_example :
    ((process_request env asking agent).1.world guidance_path ≡ none)
    ⊎ ((protocol_version ≡ protocol_version)
        × (authenticated env asking agent.ledger.auth ≡ true)
        × ((a : Approves env asking.token asking.method agent) × SomeChanges adapter "/b"
              guidance_path a.change_set))
process_request_confined_example =
    process_request_confined env adapter 5 "u" "v" (inventory_adapter "u" "codex" "Codex" "1")
      asking agent guidance_path refl
