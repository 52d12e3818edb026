-- ===== src/Codex/Propose.antt =====
-- `propose_change` of crates/amcp-codex/src/lib.rs, and what it shares with `apply_change` and
-- `rollback_change`. An error's text is given without the values that the source puts in.
use Prim.Native.String.{◌++◌}
use agent_memory_control_pla.Prelude.{
  ℕ, String, Bool, true, false, not, ◌||◌, Option, none, some, [], ◌∷◌, ltb, ◌=ₜ◌, option_text_eq,
  if◌then◌else◌,
}
use agent_memory_control_pla.Prelude.Result.{Result, ok, ◌>>=◌, ◌>>◌, refuse_if}
use agent_memory_control_pla.Prelude.Texts.{is_blank, byte_len, as_bytes}
use agent_memory_control_pla.Domain.Kinds.{ArtifactRef, ChangeStatus, ChangeOperationKind}
use agent_memory_control_pla.Domain.Change.{ChangeRequest, ChangeOperation, ChangeSet}
use agent_memory_control_pla.Domain.Approval.{new_id}
use agent_memory_control_pla.Agent.Store.{Error}
use agent_memory_control_pla.Codex.Files.{
  FilePath, Bytes, Os, Call, Contents, attempt, file_name, ends_with, path_text,
}
use agent_memory_control_pla.Codex.Paths.{
  Libraries, CodexAdapter, authorized_path, ensure_project_is_writable, or_refuse,
}

abbrev pub map_hash : (Bytes → String) → Option Bytes → Option String
map_hash hash_bytes none = none
map_hash hash_bytes (some bytes) = some (hash_bytes bytes)

abbrev pub hash_bytes : CodexAdapter → Bytes → String
hash_bytes adapter = adapter.libraries.foreign.sha256_hex

abbrev pub hash_of : CodexAdapter → Option Bytes → Option String
hash_of adapter = map_hash (hash_bytes adapter)

unfoldable pub redact_text : Libraries → String → String
redact_text libraries input = libraries.redact_bearer (libraries.redact_key_values input)

unfoldable pub read_optional : Os → FilePath → Contents → Result Error (Option Bytes)
read_optional os path files = attempt (os.fault (Call.reading path)) (files path)

unfoldable pub is_config_document_name : String → Bool
is_config_document_name name = name =ₜ "config.toml" || ends_with name ".config.toml"

abbrev is_config_document : Option String → Bool
is_config_document none = false
is_config_document (some name) = is_config_document_name name

unfoldable pub validate_replacement : Libraries → FilePath → String → Result Error (Unit {0})
validate_replacement libraries path replacement =
    if is_config_document (file_name path)
    then refuse_if (not (libraries.parses_as_toml replacement)) "replacement is not valid TOML"
    else ok tt

unfoldable pub text_diff : String → String → FilePath → String
text_diff before after path =
    if before =ₜ after
    then "no textual change: " ++ path_text path
    else "--- "
      ++ (path_text path
          ++ ("\n+++ "
              ++ (path_text path ++ ("\n@@\n-" ++ (before ++ ("\n+" ++ (after ++ "\n")))))))

abbrev pub is_delete_file : ChangeOperationKind → Bool
is_delete_file ChangeOperationKind.delete_file = true
is_delete_file _ = false

abbrev pub bytes_or_empty : Option Bytes → Bytes
bytes_or_empty none = []
bytes_or_empty (some bytes) = bytes

abbrev pub differs : Option String → Option String → Bool
differs none before_hash = false
differs (some expected) before_hash = not (option_text_eq before_hash (some expected))

abbrev pub or_else : Option String → Option String → Option String
or_else none b = b
or_else (some a) b = some a

abbrev pub kind_for : Option Bytes → ChangeOperationKind
kind_for none = ChangeOperationKind.create_text
kind_for (some bytes) = ChangeOperationKind.replace_text

-- The only operation of a proposal: its id's random part, the target, the expected hash of the
-- request, the path, the file's contents and the replacement.
unfoldable pub proposed_operation :
    CodexAdapter
    → String
    → ArtifactRef
    → Option String
    → FilePath
    → Option Bytes
    → String
    → ChangeOperation
proposed_operation adapter op_uuid target expected_source_hash path current replacement =
    let before_hash = hash_of adapter current in
    let before_text =
      redact_text adapter.libraries (adapter.libraries.from_utf8_lossy (bytes_or_empty current)) in
    record {
      operation_id = new_id "op" op_uuid;
      target = target;
      operation = kind_for current;
      expected_source_hash = or_else expected_source_hash before_hash;
      before_hash = before_hash;
      after_hash = some (hash_bytes adapter (as_bytes replacement));
      replacement_content = some replacement;
      diff = text_diff before_text replacement path;
    }

-- The change set that a request becomes once it is accepted: the clock, the random parts of the two
-- ids, the request, the path, the file's contents and the replacement.
unfoldable pub proposal :
    CodexAdapter
    → ℕ
    → String
    → String
    → ChangeRequest
    → FilePath
    → Option Bytes
    → String
    → ChangeSet
unfolding proposed_operation
proposal adapter now change_uuid op_uuid request path current replacement = record {
  change_set_id = new_id "change" change_uuid;
  actor = request.actor;
  scope = request.scope;
  provider_id = request.target.provider_id;
  reason = request.reason;
  evidence_ids = request.evidence_ids;
  status = ChangeStatus.proposed;
  created_at = now;
  updated_at = now;
  operations =
      proposed_operation adapter op_uuid request.target request.expected_source_hash path current
        replacement
      ∷ [];
}

unfoldable pub propose_change :
    CodexAdapter → ℕ → String → String → ChangeRequest → Contents → Result Error ChangeSet
propose_change adapter now change_uuid op_uuid request files = do
  refuse_if (not (request.target.provider_id =ₜ "codex")) "unsupported provider"
  refuse_if (is_blank request.target.host_id) "change target has no host id"
  path ← authorized_path adapter request.target.source_reference
  ensure_project_is_writable adapter path
  refuse_if (is_delete_file request.operation)
      "Codex adapter does not allow file deletion in this release"
  current ← read_optional adapter.os path files
  refuse_if (differs request.expected_source_hash (hash_of adapter current)) "source hash conflict"
  replacement ← or_refuse request.replacement_content "replacement content is required"
  refuse_if (ltb 1000000 (byte_len replacement)) "replacement content exceeds 1 MiB safety limit"
  refuse_if (not (redact_text adapter.libraries replacement =ₜ replacement))
      "replacement content contains secret-like material"
  validate_replacement adapter.libraries path replacement
  ok (proposal adapter now change_uuid op_uuid request path current replacement)
