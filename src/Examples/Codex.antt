-- ===== src/Examples/Codex.antt =====
-- A home directory with one root, in which guidance is proposed, applied and rolled back.
use agent_memory_control_pla.Prelude.{
  String, ◌≡◌, refl, ◌⊎◌, ◌↔◌, true, false, none, some, [], ◌∷◌, option_text_eq,
}
use agent_memory_control_pla.Prelude.Result.{ok}
use agent_memory_control_pla.Prelude.Texts.{as_bytes, byte_len, is_blank}
use agent_memory_control_pla.Domain.Kinds.{ChangeStatus, ChangeOperationKind}
use agent_memory_control_pla.Domain.Change.{
  ChangeRequest, ChangeOperation, ChangeSet, ChangeReceipt,
}
use agent_memory_control_pla.Domain.Approval.{new_id}
use agent_memory_control_pla.Codex.Files
use agent_memory_control_pla.Codex.Files.{FilePath, Bytes, Os, Contents, same_path, write}
use agent_memory_control_pla.Codex.Paths.{
  CodexAdapter, authorized_path, discovery_roots, unique_roots, sort_roots, is_excluded,
  is_supported, ensure_project_is_writable,
}
use agent_memory_control_pla.Codex.Propose.{
  propose_change, proposal, proposed_operation, read_optional, redact_text, validate_replacement,
  is_config_document_name, hash_of, is_delete_file,
}
use agent_memory_control_pla.Codex.Apply.{
  apply_change, backup_path, check_operations, check_operation,
}
use agent_memory_control_pla.Codex.Rollback.{rollback_change}
use agent_memory_control_pla.Codex.Confinement.{SomeReaches, apply_change-SomeReaches}
use agent_memory_control_pla.Codex.Allowlist.{IsWritable, authorized_path_iff}
use agent_memory_control_pla.Codex.RoundTrip.{NoFault}
use agent_memory_control_pla.Codex.Applied.{apply_change-propose_change}
use agent_memory_control_pla.Codex.Restored.{rollback_change-apply_change}
use agent_memory_control_pla.Codex.Partial.{Fits, apply_change_partial}
use agent_memory_control_pla.Codex.Confinement.Rollback.{SomeNames, rollback_change-SomeNames}
use agent_memory_control_pla.Examples.Data.{foreign, scope, guidance}

abbrev os : Os
os = record {
  fault = λ call. none;
  left = λ call. none;
  write_uuid = λ index. "w";
  canonicalize = λ path. some path;
  exists = λ path. true;
  is_symlink = λ path. false;
  is_dir = λ path. true;
}

abbrev pub adapter : CodexAdapter
adapter = record {
  codex_home = "h" ∷ [];
  scan_roots = [];
  projects = [];
  os = os;
  libraries = record {
    foreign = foreign;
    redact_key_values = λ text. text;
    redact_bearer = λ text. text;
    parses_as_toml = λ text. true;
    from_utf8_lossy = λ bytes. "";
  };
}

abbrev pub guidance_path : FilePath
guidance_path = "h" ∷ "AGENTS.md" ∷ []

abbrev pub empty : Contents
empty = λ path. none

abbrev request : ChangeRequest
request = record {
  actor = "a";
  scope = scope;
  target = guidance;
  expected_source_hash = none;
  operation = ChangeOperationKind.create_text;
  replacement_content = some "hi";
  reason = "r";
  evidence_ids = [];
}

abbrev proposed : ChangeSet
proposed = proposal adapter 1 "u" "v" request guidance_path none "hi"

authorized : authorized_path adapter "/h/AGENTS.md" ≡ ok guidance_path
unfolding authorized_path Files.components Files.split_slashes Files.is_absolute Files.parent
    Files.file_name Files.starts_with Files.ends_with discovery_roots unique_roots sort_roots
    is_excluded is_supported same_path
authorized = refl

os-NoFault : NoFault os
os-NoFault = record {
  reads = λ p. refl;
  reads_back = λ p. refl;
  creates = λ p. refl;
  copies = λ p. refl;
  opens = λ p. refl;
  writes = λ p. refl;
  syncs = λ p. refl;
  renames = λ p. refl;
  removes = λ p. refl;
}

proposes : propose_change adapter 1 "u" "v" request empty ≡ ok proposed
unfolding propose_change authorized_path Files.components Files.split_slashes Files.is_absolute
    Files.parent Files.file_name Files.starts_with Files.ends_with discovery_roots unique_roots
    sort_roots is_excluded is_supported same_path ensure_project_is_writable read_optional
    redact_text validate_replacement is_config_document_name byte_len is_blank
proposes = refl

authorized_path_iff_example :
    (authorized_path adapter "/h/AGENTS.md" ≡ ok guidance_path)
    ↔ IsWritable adapter "/h/AGENTS.md" guidance_path
authorized_path_iff_example = authorized_path_iff adapter "/h/AGENTS.md" guidance_path

apply_change-SomeReaches_example :
    ((apply_change adapter 2 proposed "/b" empty).1 guidance_path ≡ none)
    ⊎ SomeReaches adapter proposed.change_set_id "/b" guidance_path proposed.operations
apply_change-SomeReaches_example =
    apply_change-SomeReaches adapter proposed "/b" 2 empty guidance_path

apply_change-propose_change_example :
    (receipt : ChangeReceipt) × (path : FilePath) × (replacement : String) × ((apply_change adapter
        2 proposed "/b" empty).0
      ≡ ok receipt)
    × (receipt.status ≡ ChangeStatus.applied)
    × (authorized_path adapter "/h/AGENTS.md" ≡ ok path)
    × (some "hi" ≡ some replacement)
    × ((apply_change adapter 2 proposed "/b" empty).1 path ≡ some (as_bytes replacement))
apply_change-propose_change_example =
    apply_change-propose_change adapter 1 2 "u" "v" request "/b" empty proposed os-NoFault proposes

backup_apart :
    same_path guidance_path (backup_path "/b" (new_id "change" "u") 0 guidance_path) ≡ false
unfolding same_path backup_path Files.join Files.components Files.split_slashes Files.is_absolute
    Files.file_name Files.show_number new_id
backup_apart = refl

rollback_change-apply_change_example :
    (receipt : ChangeReceipt) × ((rollback_change adapter proposed "/b" 3
        (apply_change adapter 2 proposed "/b" empty).1).0
      ≡ ok receipt)
    × (receipt.status ≡ ChangeStatus.rolled_back)
    × (((rollback_change adapter proposed "/b" 3 (apply_change adapter 2 proposed "/b" empty).1).1
            guidance_path
          ≡ none)
        ⊎ (guidance_path ≡ backup_path "/b" (new_id "change" "u") 0 guidance_path))
rollback_change-apply_change_example =
    rollback_change-apply_change adapter 1 2 3 "u" "v" request "/b" empty proposed guidance_path
      guidance_path os-NoFault proposes authorized backup_apart

abbrev first : ChangeOperation
first = proposed_operation adapter "v" guidance none guidance_path none "hi"

abbrev override_path : FilePath
override_path = "h" ∷ "AGENTS.override.md" ∷ []

abbrev second : ChangeOperation
second = record first {
  target = record guidance { source_reference = "/h/AGENTS.override.md" };
  expected_source_hash = some "stale";
}

abbrev both : ChangeSet
both = record proposed { operations = first ∷ second ∷ [] }

both_checked : check_operations adapter (first ∷ second ∷ []) ≡ ok tt
unfolding check_operations check_operation authorized_path Files.components Files.split_slashes
    Files.is_absolute Files.parent Files.file_name Files.starts_with Files.ends_with discovery_roots
    unique_roots sort_roots is_excluded is_supported same_path ensure_project_is_writable
    redact_text validate_replacement is_config_document_name proposed_operation
both_checked = refl

first-Fits : Fits adapter first guidance_path "hi" empty
unfolding proposed_operation
first-Fits = record {
  keeps = refl;
  authorized = authorized;
  expected = refl;
  given = refl;
  after = refl;
}

second_authorized : authorized_path adapter "/h/AGENTS.override.md" ≡ ok override_path
unfolding authorized_path Files.components Files.split_slashes Files.is_absolute Files.parent
    Files.file_name Files.starts_with Files.ends_with discovery_roots unique_roots sort_roots
    is_excluded is_supported same_path
second_authorized = refl

second_stale :
    option_text_eq
      (some "stale")
      (hash_of adapter (write guidance_path (some (as_bytes "hi")) empty override_path))
    ≡ false
unfolding write same_path
second_stale = refl

second_keeps : is_delete_file second.operation ≡ false
unfolding proposed_operation
second_keeps = refl

apply_change_partial_example :
    (receipt : ChangeReceipt) × ((apply_change adapter 2 both "/b" empty).0 ≡ ok receipt)
    × (receipt.status ≡ ChangeStatus.conflict)
    × (receipt.backup_references ≡ [])
    × ((apply_change adapter 2 both "/b" empty).1 guidance_path ≡ some (as_bytes "hi"))
apply_change_partial_example =
    apply_change_partial adapter 2 both "/b" empty first second guidance_path override_path "hi"
      os-NoFault refl both_checked first-Fits second_keeps second_authorized second_stale

rollback_change-SomeNames_example :
    ((rollback_change adapter proposed "/b" 3 (write guidance_path (some (as_bytes "hi")) empty)).1
        guidance_path
      ≡ write guidance_path (some (as_bytes "hi")) empty guidance_path)
    ⊎ SomeNames adapter proposed.change_set_id guidance_path proposed.operations
rollback_change-SomeNames_example =
    rollback_change-SomeNames adapter proposed "/b" 3
      (write guidance_path (some (as_bytes "hi")) empty) guidance_path
