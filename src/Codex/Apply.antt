-- ===== src/Codex/Apply.antt =====
-- `apply_change` of crates/amcp-codex/src/lib.rs. A replacement goes through a temporary file beside
-- the target, which the rename consumes; if a call fails between, the temporary file stays.
use Prim.Native.String.{◌++◌}
use mathlib.Core.List
use agent_memory_control_pla.Prelude.{
  ℕ, suc, String, not, Option, none, some, List, [], ◌∷◌, ◌=ₜ◌, is_some_text, option_text_eq,
  if◌then◌else◌,
}
use agent_memory_control_pla.Prelude.Result.{Result, ok, err, ◌>>=◌, ◌>>◌, refuse_if}
use agent_memory_control_pla.Prelude.Texts.{as_bytes}
use agent_memory_control_pla.Domain.Kinds.{ChangeStatus}
use agent_memory_control_pla.Domain.Change.{ChangeOperation, ChangeSet, ChangeReceipt}
use agent_memory_control_pla.Domain.Approval.{new_id}
use agent_memory_control_pla.Agent.Store.{Error}
use agent_memory_control_pla.Codex.Files.{
  FilePath, Bytes, Os, Call, Contents, write, leave, with_file_name, components, join, parent,
  file_name, path_text, show_number,
}
use agent_memory_control_pla.Codex.Paths.{
  CodexAdapter, authorized_path, ensure_project_is_writable, or_refuse,
}
use agent_memory_control_pla.Codex.Propose.{
  hash_bytes, hash_of, redact_text, read_optional, validate_replacement, is_delete_file,
  bytes_or_empty,
}

abbrev name_or_source : Option String → String
name_or_source none = "source"
name_or_source (some name) = name

unfoldable pub backup_path : String → String → ℕ → FilePath → FilePath
backup_path backup_dir change_set_id index path = join (components backup_dir) (
    change_set_id
    ++ ("-" ++ (show_number index ++ ("-" ++ (name_or_source (file_name path) ++ ".bak")))))

-- What becomes of one operation.
pub data Outcome : Type 0 where
  -- the backup, if there was a file, the hash before and the hash after
  done : Option FilePath → Option String → Option String → Outcome
  -- the file, as the receipt names it, and the hash that was found in place of the expected one
  conflicted : String → Option String → Outcome

abbrev pub keep_option : {A : Type 0} → Option A → List A
keep_option none = []
keep_option (some a) = a ∷ []

abbrev pub parent_fault : Os → Option FilePath → Option Error
parent_fault os none = none
parent_fault os (some dir) = os.fault (Call.creating_dir dir)

abbrev pub first_fault : Option Error → Option Error → Option Error
first_fault none e = e
first_fault (some e) _ = some e

-- `fs::copy` of the file to its backup, if there is a file.
unfoldable pub back_up :
    Os → FilePath → Option Bytes → Contents → Result Error (Option FilePath) × Contents
back_up os backup none files = (ok none, files)
back_up os backup (some bytes) files = elim (os.fault (Call.copying backup)) [
  | some e ↦ (err e, leave backup (os.left (Call.copying backup)) files)
  | none ↦ (ok (some backup), write backup (some bytes) files)
]

-- The temporary file of an operation, `prefix` being `.amcp-` or `.amcp-rollback-`.
unfoldable pub temp_path : Os → String → String → ℕ → FilePath → FilePath
temp_path os prefix change_set_id index path = with_file_name path (
    prefix
    ++ (change_set_id
        ++ ("-"
            ++ (show_number index ++ ("-" ++ (new_id "write" (os.write_uuid index) ++ ".tmp"))))))

-- The first call that fails from opening the temporary file to the rename, and what is left of the
-- temporary file then.
unfoldable pub write_fault : Os → FilePath → FilePath → Bytes → Option (Error × Option Bytes)
write_fault os temp path bytes = elim (os.fault (Call.opening temp)) [
  | some e ↦ some (e, none)
  | none ↦ elim (os.fault (Call.writing temp)) [
    | some e ↦ some (e, os.left (Call.writing temp))
    | none ↦ elim (first_fault (os.fault (Call.syncing temp)) (os.fault (Call.renaming path))) [
      | some e ↦ some (e, some bytes)
      | none ↦ none
    ]
  ]
]

-- From `read` to the comparison of the hash after.
unfoldable pub verify :
    CodexAdapter
    → FilePath
    → Option String
    → Option FilePath
    → Option String
    → Contents
    → Result Error Outcome
verify adapter path before_hash backup after_hash files =
    elim (adapter.os.fault (Call.reading_back path)) [
      | some e ↦ err e
      | none ↦
          let written = hash_bytes adapter (bytes_or_empty (files path)) in
          if is_some_text after_hash written
          then ok (Outcome.done backup before_hash (some written))
          else err "post-write hash verification failed"
    ]

-- The directory of the file is created, the temporary file written and renamed, and the file read
-- again.
unfoldable pub put :
    CodexAdapter
    → ChangeOperation
    → FilePath
    → FilePath
    → Option String
    → String
    → Result Error (Option FilePath)
    → Contents
    → Result Error Outcome × Contents
put adapter op temp path before_hash replacement (err e) files = (err e, files)
put adapter op temp path before_hash replacement (ok backup) files =
    elim (parent_fault adapter.os (parent path)) [
      | some e ↦ (err e, files)
      | none ↦ elim (write_fault adapter.os temp path (as_bytes replacement)) [
        | some (e, left) ↦ (err e, leave temp left files)
        | none ↦
            let written = write path (some (as_bytes replacement)) files in
            (verify adapter path before_hash backup op.after_hash written, written)
      ]
    ]

-- The operation, once it is known what it replaces and by what.
unfoldable pub perform :
    CodexAdapter
    → ChangeOperation
    → String
    → FilePath
    → FilePath
    → FilePath
    → Option Bytes
    → String
    → Contents
    → Result Error Outcome × Contents
unfolding put
perform adapter op backup_dir backup temp path current replacement files =
    elim (adapter.os.fault (Call.creating_dir (components backup_dir))) [
      | some e ↦ (err e, files)
      | none ↦
          let (backed_up, files') = back_up adapter.os backup current files in
          put adapter op temp path (hash_of adapter current) replacement backed_up files'
    ]

abbrev pub checked_target :
    CodexAdapter → ChangeOperation → Contents → Result Error (FilePath × Option Bytes)
checked_target adapter op files = do
  refuse_if (is_delete_file op.operation)
      "Codex adapter does not allow file deletion in this release"
  path ← authorized_path adapter op.target.source_reference
  current ← read_optional adapter.os path files
  ok (path, current)

-- The second part of one round of the second loop, from the comparison with the expected hash.
unfoldable pub replace_target :
    CodexAdapter
    → String
    → String
    → ℕ
    → ChangeOperation
    → Result Error (FilePath × Option Bytes)
    → Contents
    → Result Error Outcome × Contents
replace_target adapter change_set_id backup_dir index op (err e) files = (err e, files)
replace_target adapter change_set_id backup_dir index op (ok (path, current)) files =
    if not (option_text_eq op.expected_source_hash (hash_of adapter current))
    then (ok (Outcome.conflicted op.target.source_reference (hash_of adapter current)), files)
    else elim op.replacement_content [
      | none ↦ (err "replacement content is required", files)
      | some replacement ↦
          perform adapter op backup_dir (backup_path backup_dir change_set_id index path)
            (temp_path adapter.os ".amcp-" change_set_id index path) path current replacement files
    ]

unfoldable pub apply_operation :
    CodexAdapter
    → String
    → String
    → ℕ
    → ChangeOperation
    → Contents
    → Result Error Outcome × Contents
unfolding replace_target
apply_operation adapter change_set_id backup_dir index op files =
    replace_target adapter change_set_id backup_dir index op (checked_target adapter op files) files

-- What the second loop has gathered: `backups`, `before_hashes` and `after_hashes`.
pub record Gathered : Type 0 where
  pub backups : List String
  pub before_hashes : List String
  pub after_hashes : List String

abbrev pub nothing : Gathered
nothing = record { backups = []; before_hashes = []; after_hashes = [] }

abbrev pub path_texts : Option FilePath → List String
path_texts none = []
path_texts (some path) = path_text path ∷ []

abbrev pub gather : Option FilePath → Option String → Option String → Gathered → Gathered
gather backup before after g = record {
  backups = List.◌++◌ g.backups (path_texts backup);
  before_hashes = List.◌++◌ g.before_hashes (keep_option before);
  after_hashes = List.◌++◌ g.after_hashes (keep_option after);
}

abbrev pub conflict_receipt : ChangeSet → ℕ → Option String → String → ChangeReceipt
conflict_receipt cs now current_hash message = record {
  change_set_id = cs.change_set_id;
  status = ChangeStatus.conflict;
  applied_at = now;
  backup_references = [];
  before_hashes = keep_option current_hash;
  after_hashes = [];
  message = message;
}

abbrev pub applied_receipt : ChangeSet → ℕ → Gathered → ChangeReceipt
applied_receipt cs now g = record {
  change_set_id = cs.change_set_id;
  status = ChangeStatus.applied;
  applied_at = now;
  backup_references = g.backups;
  before_hashes = g.before_hashes;
  after_hashes = g.after_hashes;
  message = "change set applied and verified";
}

module _ (adapter : CodexAdapter) (cs : ChangeSet) (backup_dir : String) (now : ℕ) where
  -- The second loop, from the index on.
  unfoldable pub apply_from :
      ℕ → List ChangeOperation → Gathered → Contents → Result Error ChangeReceipt × Contents
  apply_from index [] g files = (ok (applied_receipt cs now g), files)
  apply_from index (op ∷ ops) g files =
      let (outcome, files') = apply_operation adapter cs.change_set_id backup_dir index op files in
      elim outcome [
        | err e ↦ (err e, files')
        | ok (Outcome.conflicted target current_hash) ↦ (
          ok (conflict_receipt cs now current_hash ("source changed before apply for " ++ target)),
          files',
        )
        | ok (Outcome.done backup before after) ↦
            apply_from (suc index) ops (gather backup before after g) files'
      ]

-- One round of the first loop, which changes nothing.
unfoldable pub check_operation : CodexAdapter → ChangeOperation → Result Error (Unit {0})
check_operation adapter op = do
  path ← authorized_path adapter op.target.source_reference
  ensure_project_is_writable adapter path
  replacement ← or_refuse op.replacement_content "replacement content is required"
  refuse_if (not (redact_text adapter.libraries replacement =ₜ replacement))
      "replacement content contains secret-like material"
  validate_replacement adapter.libraries path replacement

unfoldable pub check_operations : CodexAdapter → List ChangeOperation → Result Error (Unit {0})
check_operations adapter [] = ok tt
check_operations adapter (op ∷ ops) = check_operation adapter op >> check_operations adapter ops

module _ (adapter : CodexAdapter) (cs : ChangeSet) (backup_dir : String) (now : ℕ) where
  -- The second loop starts if the first one has found nothing.
  abbrev pub after_check :
      List ChangeOperation
      → Result Error (Unit {0})
      → Contents
      → Result Error ChangeReceipt × Contents
  after_check ops (err e) files = (err e, files)
  after_check ops (ok _) files = apply_from adapter cs backup_dir now 0 ops nothing files

  unfoldable pub apply_operations :
      List ChangeOperation → Contents → Result Error ChangeReceipt × Contents
  apply_operations [] files = (err "change set contains no operations", files)
  apply_operations (op ∷ ops) files =
      after_check (op ∷ ops) (check_operations adapter (op ∷ ops)) files

unfoldable pub apply_change :
    CodexAdapter → ℕ → ChangeSet → String → Contents → Result Error ChangeReceipt × Contents
unfolding apply_operations
apply_change adapter now cs backup_dir files =
    apply_operations adapter cs backup_dir now cs.operations files
