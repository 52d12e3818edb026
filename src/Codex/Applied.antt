-- ===== src/Codex/Applied.antt =====
-- A proposed change, applied: `propose_change` and then `apply_change` of
-- crates/amcp-codex/src/lib.rs.
use agent_memory_control_pla.Prelude.{
  ℕ, String, ◌≡◌, refl, ◌∙◌, ap, false, Option, none, some, [], ◌∷◌, option_text_eq_refl, eq_iff,
}
use agent_memory_control_pla.Prelude.Result.{ok}
use agent_memory_control_pla.Prelude.Texts.{as_bytes}
use agent_memory_control_pla.Domain.Kinds.{ChangeStatus}
use agent_memory_control_pla.Domain.Change.{
  ChangeRequest, ChangeOperation, ChangeSet, ChangeReceipt,
}
use agent_memory_control_pla.Domain.Approval.{new_id}
use agent_memory_control_pla.Codex.Files.{
  FilePath, Bytes, Contents, write, write-same, components, parent,
}
use agent_memory_control_pla.Codex.Paths.{CodexAdapter, authorized_path}
use agent_memory_control_pla.Codex.Propose.{
  hash_of, hash_bytes, read_optional, is_delete_file, proposal, propose_change, kind_for,
  proposed_operation,
}
use agent_memory_control_pla.Codex.Apply.{
  Outcome, backup_path, back_up, verify, put, perform, checked_target, replace_target,
  apply_operation, apply_from, apply_operations, apply_change, applied_receipt, gather, nothing,
  check_operation, check_operations, parent_fault, write_fault, temp_path,
}
use agent_memory_control_pla.Codex.RoundTrip.{NoFault, Proposed, propose_change-Proposed}

-- The files once the backup is made, and the backup that is made.
abbrev pub saved : FilePath → Option Bytes → Contents → Contents
saved backup none files = files
saved backup (some bytes) files = write backup (some bytes) files

abbrev pub backup_if : FilePath → Option Bytes → Option FilePath
backup_if backup none = none
backup_if backup (some bytes) = some backup

module _ (adapter : CodexAdapter) (fine : NoFault adapter.os) where
  back_up-saved :
      (backup : FilePath) (current : Option Bytes) (files : Contents)
      → back_up adapter.os backup current files
        ≡ (ok (backup_if backup current), saved backup current files)
  unfolding back_up
  back_up-saved backup none files = refl
  back_up-saved backup (some bytes) files = rw (fine.copies backup, back_up) refl

  no_parent_fault : (dir : Option FilePath) → parent_fault adapter.os dir ≡ none
  no_parent_fault none = refl
  no_parent_fault (some dir) = fine.creates dir

  write_fault-none :
      (temp path : FilePath) (bytes : Bytes) → write_fault adapter.os temp path bytes ≡ none
  unfolding write_fault
  write_fault-none temp path bytes =
      rw (fine.opens temp, write_fault)
        (rw (fine.writes temp, write_fault)
          (rw (fine.syncs temp) (rw (fine.renames path, write_fault) refl)))

  put-written :
      (op : ChangeOperation) (temp path : FilePath) (before : Option String) (replacement : String)
      (backup : Option FilePath) (files : Contents)
      → op.after_hash ≡ some (hash_bytes adapter (as_bytes replacement))
      → put adapter op temp path before replacement (ok backup) files ≡ (
        ok (Outcome.done backup before (some (hash_bytes adapter (as_bytes replacement)))),
        write path (some (as_bytes replacement)) files,
      )
  unfolding put verify
  put-written op temp path before replacement backup files after =
      let same =
        (eq_iff (hash_bytes adapter (as_bytes replacement))
            (hash_bytes adapter (as_bytes replacement))).1
          refl in
      rw (no_parent_fault (parent path), put)
        (rw (write_fault-none temp path (as_bytes replacement), put)
          (rw (fine.reads_back path, verify)
            (rw (write-same path (some (as_bytes replacement)) files, after) (rw same refl))))

  -- An operation whose file has the expected hash replaces it.
  pub apply_operation-written :
      (change_set_id backup_dir : String) (index : ℕ) (op : ChangeOperation) (path : FilePath)
      (replacement : String) (files : Contents)
      → is_delete_file op.operation ≡ false
      → authorized_path adapter op.target.source_reference ≡ ok path
      → op.expected_source_hash ≡ hash_of adapter (files path)
      → op.replacement_content ≡ some replacement
      → op.after_hash ≡ some (hash_bytes adapter (as_bytes replacement))
      → apply_operation adapter change_set_id backup_dir index op files ≡ (
        ok (
            Outcome.done
              (backup_if (backup_path backup_dir change_set_id index path) (files path))
              (hash_of adapter (files path))
              (some (hash_bytes adapter (as_bytes replacement)))),
        write path
            (some (as_bytes replacement))
            (saved (backup_path backup_dir change_set_id index path) (files path) files),
      )
  unfolding apply_operation read_optional perform
  apply_operation-written change_set_id backup_dir index op path replacement files keeps authorized
        expected given after =
      let backup = backup_path backup_dir change_set_id index path in
      let target : checked_target adapter op files ≡ ok (path, files path) =
        rw (keeps, authorized) (rw (fine.reads path) refl) in
      let same = option_text_eq_refl (hash_of adapter (files path)) in
      rw target (
        rw (expected, replace_target)
          (rw (same, replace_target)
            (rw (given, replace_target)
              (rw (fine.creates (components backup_dir), perform)
                (rw (back_up-saved backup (files path) files) (
                  put-written op (temp_path adapter.os ".amcp-" change_set_id index path) path
                    (hash_of adapter (files path)) replacement (backup_if backup (files path))
                    (saved backup (files path) files) after))))))

kind_for-keeps : (current : Option Bytes) → is_delete_file (kind_for current) ≡ false
kind_for-keeps none = refl
kind_for-keeps (some bytes) = refl

module _ (adapter : CodexAdapter) (fine : NoFault adapter.os) (now : ℕ)
    (change_uuid op_uuid : String) (request : ChangeRequest) (files : Contents) (cs : ChangeSet)
    (p : Proposed adapter now change_uuid op_uuid request files cs) where
  abbrev operation : ChangeOperation
  operation =
      proposed_operation adapter op_uuid request.target request.expected_source_hash p.path
        (files p.path) p.replacement

  check_operations-operation : check_operations adapter (operation ∷ []) ≡ ok tt
  unfolding check_operations check_operation proposed_operation
  check_operations-operation = rw p.authorized (rw p.writable (rw p.clean (rw p.valid refl)))

  abbrev pub backup_of : String → FilePath
  backup_of backup_dir = backup_path backup_dir (new_id "change" change_uuid) 0 p.path

  -- The receipt of a proposal that is applied, and the files after it.
  pub apply_change-written :
      (later : ℕ) (backup_dir : String)
      → (receipt : ChangeReceipt) × (receipt.status ≡ ChangeStatus.applied)
        × (apply_change adapter later cs backup_dir files ≡ (
          ok receipt,
          write p.path
              (some (as_bytes p.replacement))
              (saved (backup_of backup_dir) (files p.path) files),
        ))
  unfolding apply_change apply_operations apply_from proposal proposed_operation
  apply_change-written later backup_dir =
      let e =
        apply_operation-written adapter fine (new_id "change" change_uuid) backup_dir 0 operation
          p.path p.replacement files (kind_for-keeps (files p.path)) p.authorized p.expected refl
          refl in
      (
        applied_receipt cs later (
            gather (backup_if (backup_of backup_dir) (files p.path))
              (hash_of adapter (files p.path)) (some (hash_bytes adapter (as_bytes p.replacement)))
              nothing),
        refl,
        rw p.is (
            rw check_operations-operation
              (rw (ap (λ r. r.0) e, apply_from) (rw (ap (λ r. r.1) e) refl))),
      )

-- A change set that the adapter has proposed is applied, if the files are the same and no call of the
-- file system fails: the receipt says so, and the file holds the replacement.
pub apply_change-propose_change :
    (adapter : CodexAdapter) (now later : ℕ) (change_uuid op_uuid : String)
    (request : ChangeRequest) (backup_dir : String) (files : Contents) (cs : ChangeSet)
    → NoFault adapter.os
    → propose_change adapter now change_uuid op_uuid request files ≡ ok cs
    → (receipt : ChangeReceipt) × (path : FilePath) × (replacement : String) × ((apply_change
          adapter later cs backup_dir files).0
        ≡ ok receipt)
      × (receipt.status ≡ ChangeStatus.applied)
      × (authorized_path adapter request.target.source_reference ≡ ok path)
      × (request.replacement_content ≡ some replacement)
      × ((apply_change adapter later cs backup_dir files).1 path ≡ some (as_bytes replacement))
apply_change-propose_change adapter now later change_uuid op_uuid request backup_dir files cs fine
      h =
    let p = propose_change-Proposed adapter now change_uuid op_uuid request files cs h in
    let (receipt, applied, result) =
      apply_change-written adapter fine now change_uuid op_uuid request files cs p later
        backup_dir in
    (
      receipt,
      p.path,
      p.replacement,
      ap (λ r. r.0) result,
      applied,
      p.authorized,
      p.given,
      ap (λ r. r.1 p.path) result ∙ write-same p.path (some (as_bytes p.replacement)) _,
    )
