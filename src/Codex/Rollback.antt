-- ===== src/Codex/Rollback.antt =====
-- `rollback_change` of crates/amcp-codex/src/lib.rs. A restored file goes through a temporary file, as
-- a replacement does, and is read back as another one is.
use Prim.Native.String.{◌++◌}
use mathlib.Core.List
use agent_memory_control_pla.Prelude.{
  ℕ, suc, String, not, Option, none, some, List, [], ◌∷◌, ◌=ₜ◌, option_text_eq, if◌then◌else◌,
}
use agent_memory_control_pla.Prelude.Result.{Result, ok, err, ◌>>=◌}
use agent_memory_control_pla.Domain.Kinds.{ChangeStatus}
use agent_memory_control_pla.Domain.Change.{ChangeOperation, ChangeSet, ChangeReceipt}
use agent_memory_control_pla.Agent.Store.{Error}
use agent_memory_control_pla.Codex.Files.{
  FilePath, Bytes, Os, Call, Contents, write, leave, path_text,
}
use agent_memory_control_pla.Codex.Paths.{CodexAdapter, authorized_path}
use agent_memory_control_pla.Codex.Propose.{hash_bytes, hash_of, read_optional}
use agent_memory_control_pla.Codex.Apply.{
  Outcome, Gathered, nothing, gather, conflict_receipt, backup_path, temp_path,
}

-- The contents that the backup gives back, if the operation replaced a file.
unfoldable pub backup_contents : CodexAdapter → FilePath → String → Contents → Result Error Bytes
backup_contents adapter backup expected files = elim (files backup) [
  | none ↦ err "backup is missing"
  | some restored ↦ elim (adapter.os.fault (Call.reading backup)) [
    | some e ↦ err e
    | none ↦
        if hash_bytes adapter restored =ₜ expected
        then ok restored
        else err "backup hash verification failed"
  ]
]

-- The same for a rollback, which writes the temporary file by `fs::write`.
unfoldable pub restore_fault : Os → FilePath → FilePath → Bytes → Option (Error × Option Bytes)
restore_fault os temp path bytes = elim (os.fault (Call.writing temp)) [
  | some e ↦ some (e, os.left (Call.writing temp))
  | none ↦ elim (os.fault (Call.renaming path)) [ some e ↦ some (e, some bytes) | none ↦ none ]
]

-- The file is replaced by the backup, by way of the temporary file, or removed.
unfoldable pub restore :
    CodexAdapter
    → FilePath
    → FilePath
    → FilePath
    → Option String
    → Option Bytes
    → Contents
    → Result Error (Unit {0}) × Contents
restore adapter backup temp path (some expected) current files =
    elim (backup_contents adapter backup expected files) [
      | err e ↦ (err e, files)
      | ok restored ↦ elim (restore_fault adapter.os temp path restored) [
        | some (e, left) ↦ (err e, leave temp left files)
        | none ↦ (ok tt, write path (some restored) files)
      ]
    ]
restore adapter backup temp path none none files = (ok tt, files)
restore adapter backup temp path none (some bytes) files =
    elim (adapter.os.fault (Call.removing path)) [
      | some e ↦ (err e, files)
      | none ↦ (ok tt, write path none files)
    ]

-- The hashes before and after, if what is there now is what was there before the change.
unfoldable pub verify_restored :
    CodexAdapter → FilePath → Option String → Option String → Contents → Result Error Outcome
verify_restored adapter path before_hash current_hash files =
    elim (adapter.os.fault (Call.reading_back path)) [
      | some e ↦ err e
      | none ↦
          let restored_hash = hash_of adapter (files path) in
          if option_text_eq restored_hash before_hash
          then ok (Outcome.done none current_hash restored_hash)
          else err "post-rollback hash verification failed"
    ]

-- A round of the loop, from the comparison with the hash after the change.
unfoldable pub restore_target :
    CodexAdapter
    → String
    → String
    → ℕ
    → ChangeOperation
    → Result Error (FilePath × Option Bytes)
    → Contents
    → Result Error Outcome × Contents
restore_target adapter change_set_id backup_dir index op (err e) files = (err e, files)
restore_target adapter change_set_id backup_dir index op (ok (path, current)) files =
    if not (option_text_eq op.after_hash (hash_of adapter current))
    then (ok (Outcome.conflicted (path_text path) (hash_of adapter current)), files)
    else let (result, files') =
        restore adapter (backup_path backup_dir change_set_id index path)
          (temp_path adapter.os ".amcp-rollback-" change_set_id index path) path op.before_hash
          current files in
      elim result [
        | err e ↦ (err e, files')
        | ok _ ↦
            (verify_restored adapter path op.before_hash (hash_of adapter current) files', files')
      ]

abbrev pub rollback_target :
    CodexAdapter → ChangeOperation → Contents → Result Error (FilePath × Option Bytes)
rollback_target adapter op files = do
  path ← authorized_path adapter op.target.source_reference
  current ← read_optional adapter.os path files
  ok (path, current)

unfoldable pub rollback_operation :
    CodexAdapter
    → String
    → String
    → ℕ
    → ChangeOperation
    → Contents
    → Result Error Outcome × Contents
unfolding restore_target
rollback_operation adapter change_set_id backup_dir index op files =
    restore_target adapter change_set_id backup_dir index op (rollback_target adapter op files)
      files

module _ (adapter : CodexAdapter) (cs : ChangeSet) (backup_dir : String) (now : ℕ) where
  abbrev existing_backup : ℕ → ChangeOperation → Contents → List String
  existing_backup index op files = elim (authorized_path adapter op.target.source_reference) [
    | err e ↦ []
    | ok path ↦
        let backup = backup_path backup_dir cs.change_set_id index path in
        elim (files backup) [ none ↦ [] | some _ ↦ path_text backup ∷ [] ]
  ]

  -- The backups that are there at the end, from the index on.
  unfoldable pub existing_backups : ℕ → List ChangeOperation → Contents → List String
  existing_backups index [] files = []
  existing_backups index (op ∷ ops) files =
      List.◌++◌ (existing_backup index op files) (existing_backups (suc index) ops files)

  abbrev pub restored_receipt : Gathered → Contents → ChangeReceipt
  restored_receipt g files = record {
    change_set_id = cs.change_set_id;
    status = ChangeStatus.rolled_back;
    applied_at = now;
    backup_references = existing_backups 0 cs.operations files;
    before_hashes = g.before_hashes;
    after_hashes = g.after_hashes;
    message = "pre-change backups restored and verified";
  }

  unfoldable pub rollback_from :
      ℕ → List ChangeOperation → Gathered → Contents → Result Error ChangeReceipt × Contents
  rollback_from index [] g files = (ok (restored_receipt g files), files)
  rollback_from index (op ∷ ops) g files =
      let (outcome, files') =
        rollback_operation adapter cs.change_set_id backup_dir index op files in
      elim outcome [
        | err e ↦ (err e, files')
        | ok (Outcome.conflicted target current_hash) ↦ (
          ok (
              conflict_receipt cs now current_hash
                ("source changed before rollback for " ++ target)),
          files',
        )
        | ok (Outcome.done backup before after) ↦
            rollback_from (suc index) ops (gather backup before after g) files'
      ]

  unfoldable pub rollback_change : Contents → Result Error ChangeReceipt × Contents
  rollback_change files = elim cs.operations [
    | [] ↦ (err "change set contains no operations", files)
    | op ∷ ops ↦ rollback_from 0 (op ∷ ops) nothing files
  ]
