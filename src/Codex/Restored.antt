-- ===== src/Codex/Restored.antt =====
-- An applied proposal, rolled back: `rollback_change` after `apply_change` of
-- crates/amcp-codex/src/lib.rs.
use agent_memory_control_pla.Prelude.{
  ℕ, String, ◌≡◌, refl, sym, ◌∙◌, ap, ◌⊎◌, inl, inr, false, Option, none, some, option_text_eq_refl,
  eq_iff, Bool-cases,
}
use agent_memory_control_pla.Prelude.Result.{Result, ok}
use agent_memory_control_pla.Prelude.Texts.{as_bytes}
use agent_memory_control_pla.Domain.Kinds.{ChangeStatus}
use agent_memory_control_pla.Domain.Change.{
  ChangeRequest, ChangeOperation, ChangeSet, ChangeReceipt,
}
use agent_memory_control_pla.Domain.Approval.{new_id}
use agent_memory_control_pla.Codex.Files.{
  FilePath, Bytes, Contents, same_path, same_path→eq, write, write-same, write-other,
}
use agent_memory_control_pla.Codex.Paths.{CodexAdapter, authorized_path}
use agent_memory_control_pla.Codex.Propose.{
  hash_of, hash_bytes, read_optional, proposal, propose_change, proposed_operation,
}
use agent_memory_control_pla.Codex.Apply.{
  Outcome, backup_path, temp_path, apply_change, gather, nothing,
}
use agent_memory_control_pla.Codex.Rollback.{
  backup_contents, restore, restore_fault, verify_restored, restore_target, rollback_target,
  rollback_operation, rollback_from, restored_receipt, rollback_change,
}
use agent_memory_control_pla.Codex.RoundTrip.{NoFault, Proposed, propose_change-Proposed}
use agent_memory_control_pla.Codex.Applied.{saved, apply_change-written}

ok-injective : {A : Type 0} {E : Type 0} {a b : A} → Path (Result E A) (ok a) (ok b) → a ≡ b
ok-injective h = cc

module _ (adapter : CodexAdapter) (fine : NoFault adapter.os) where
  restore-restored :
      (backup temp path : FilePath) (current : Option Bytes) (now_there : Bytes) (files : Contents)
      → ((bytes : Bytes) → current ≡ some bytes → files backup ≡ some bytes)
      → restore adapter backup temp path (hash_of adapter current) (some now_there) files
        ≡ (ok tt, write path current files)
  unfolding restore restore_fault backup_contents
  restore-restored backup temp path none now_there files kept = rw (fine.removes path, restore) refl
  restore-restored backup temp path (some bytes) now_there files kept =
      let same = (eq_iff (hash_bytes adapter bytes) (hash_bytes adapter bytes)).1 refl in
      let contents : backup_contents adapter backup (hash_bytes adapter bytes) files ≡ ok bytes =
        rw (kept bytes refl, backup_contents) (rw (fine.reads backup) (rw same refl)) in
      rw (contents, restore) (rw (fine.writes temp, restore) (rw (fine.renames path, restore) refl))

  saved-kept :
      (backup path : FilePath) (replacement : Option Bytes) (current : Option Bytes)
      (files : Contents)
      → same_path path backup ≡ false
      → (bytes : Bytes) → current ≡ some bytes
      → write path replacement (saved backup current files) backup ≡ some bytes
  saved-kept backup path replacement none files apart bytes e = cc
  saved-kept backup path replacement (some b) files apart bytes e =
      write-other path backup replacement (saved backup (some b) files) apart
      ∙ (write-same backup (some b) files ∙ e)

  rollback_operation-restored :
      (change_set_id backup_dir : String) (index : ℕ) (op : ChangeOperation) (path : FilePath)
      (bytes : Bytes) (current : Option Bytes) (files : Contents)
      → authorized_path adapter op.target.source_reference ≡ ok path
      → files path ≡ some bytes
      → op.after_hash ≡ some (hash_bytes adapter bytes)
      → op.before_hash ≡ hash_of adapter current
      → ((b : Bytes)
          → current ≡ some b
          → files (backup_path backup_dir change_set_id index path) ≡ some b)
      → rollback_operation adapter change_set_id backup_dir index op files ≡ (
        ok (Outcome.done none (some (hash_bytes adapter bytes)) (hash_of adapter current)),
        write path current files,
      )
  unfolding rollback_operation restore_target read_optional verify_restored
  rollback_operation-restored change_set_id backup_dir index op path bytes current files authorized
        there after before kept =
      let target : rollback_target adapter op files ≡ ok (path, some bytes) =
        rw authorized (rw (fine.reads path) (rw there refl)) in
      let same = (eq_iff (hash_bytes adapter bytes) (hash_bytes adapter bytes)).1 refl in
      let backup = backup_path backup_dir change_set_id index path in
      let temp = temp_path adapter.os ".amcp-rollback-" change_set_id index path in
      let restored : restore adapter backup temp path op.before_hash (some bytes) files
          ≡ (ok tt, write path current files) =
        rw before (restore-restored backup temp path current bytes files kept) in
      rw target (
        rw (after, restore_target)
          (rw same (
            rw (ap (λ r. r.0) restored) (
              rw (ap (λ r. r.1) restored) (
                rw (fine.reads_back path, verify_restored)
                  (rw (write-same path current files)
                    (rw before (rw (option_text_eq_refl (hash_of adapter current)) refl))))))))

module _ (adapter : CodexAdapter) (fine : NoFault adapter.os) (now : ℕ)
    (change_uuid op_uuid : String) (request : ChangeRequest) (files : Contents) (cs : ChangeSet)
    (p : Proposed adapter now change_uuid op_uuid request files cs) where
  abbrev backup_at : String → FilePath
  backup_at backup_dir = backup_path backup_dir (new_id "change" change_uuid) 0 p.path

  abbrev changed : String → Contents
  changed backup_dir =
      write p.path (some (as_bytes p.replacement))
        (saved (backup_at backup_dir) (files p.path) files)

  rollback_change-restored :
      (last : ℕ) (backup_dir : String)
      → same_path p.path (backup_at backup_dir) ≡ false
      → (receipt : ChangeReceipt) × (receipt.status ≡ ChangeStatus.rolled_back)
        × (rollback_change adapter cs backup_dir last (changed backup_dir)
            ≡ (ok receipt, write p.path (files p.path) (changed backup_dir)))
  unfolding rollback_change rollback_from proposal proposed_operation
  rollback_change-restored last backup_dir apart =
      let e =
        rollback_operation-restored adapter fine (new_id "change" change_uuid) backup_dir 0
          (proposed_operation adapter op_uuid request.target request.expected_source_hash p.path
            (files p.path) p.replacement)
          p.path (as_bytes p.replacement) (files p.path) (changed backup_dir) p.authorized
          (write-same p.path (some (as_bytes p.replacement))
            (saved (backup_at backup_dir) (files p.path) files))
          refl refl
          (saved-kept adapter fine (backup_at backup_dir) p.path (some (as_bytes p.replacement))
            (files p.path) files apart) in
      (
        restored_receipt adapter cs backup_dir last
            (gather none (some (hash_bytes adapter (as_bytes p.replacement)))
              (hash_of adapter (files p.path)) nothing)
            (write p.path (files p.path) (changed backup_dir)),
        refl,
        rw p.is (rw (ap (λ r. r.0) e, rollback_from) (rw (ap (λ r. r.1) e) refl)),
      )

  restored_or_backup :
      (backup_dir : String) (q : FilePath)
      → (write p.path (files p.path) (changed backup_dir) q ≡ files q) ⊎ (q ≡ backup_at backup_dir)
  restored_or_backup backup_dir q =
      let replaced = write-other p.path q in
      elim (Bool-cases (same_path p.path q)) [
        | inl here ↦ inl (
            ap (write p.path (files p.path) (changed backup_dir)) (sym (same_path→eq p.path q here))
            ∙ (write-same p.path (files p.path) (changed backup_dir)
                ∙ ap files (same_path→eq p.path q here)))
        | inr other ↦ elim (saved_or_backup (backup_at backup_dir) (files p.path)) [
          | inr backup ↦ inr backup
          | inl kept ↦
              inl (replaced (files p.path) (changed backup_dir) other ∙ (replaced _ _ other ∙ kept))
        ]
      ]
    where
      saved_or_backup :
          (backup : FilePath) (current : Option Bytes)
          → (saved backup current files q ≡ files q) ⊎ (q ≡ backup)
      saved_or_backup backup none = inl refl
      saved_or_backup backup (some bytes) = elim (Bool-cases (same_path backup q)) [
        | inl here ↦ inr (sym (same_path→eq backup q here))
        | inr other ↦ inl (write-other backup q (some bytes) files other)
      ]

-- Rolling a proposal back after it was applied, with no other change of the files between, gives each
-- file except the backup the contents it had, and the receipt says so, if no call of the file system
-- fails and the backup is not the file itself.
pub rollback_change-apply_change :
    (adapter : CodexAdapter) (now later last : ℕ) (change_uuid op_uuid : String)
    (request : ChangeRequest) (backup_dir : String) (files : Contents) (cs : ChangeSet)
    (path q : FilePath)
    → NoFault adapter.os
    → propose_change adapter now change_uuid op_uuid request files ≡ ok cs
    → authorized_path adapter request.target.source_reference ≡ ok path
    → same_path path (backup_path backup_dir (new_id "change" change_uuid) 0 path) ≡ false
    → (receipt : ChangeReceipt) × ((rollback_change adapter cs backup_dir last
          (apply_change adapter later cs backup_dir files).1).0
        ≡ ok receipt)
      × (receipt.status ≡ ChangeStatus.rolled_back)
      × (((rollback_change adapter cs backup_dir last
                (apply_change adapter later cs backup_dir files).1).1
              q
            ≡ files q)
          ⊎ (q ≡ backup_path backup_dir (new_id "change" change_uuid) 0 path))
rollback_change-apply_change adapter now later last change_uuid op_uuid request backup_dir files cs
      path q fine h authorized apart =
    let p = propose_change-Proposed adapter now change_uuid op_uuid request files cs h in
    let same : p.path ≡ path = ok-injective (sym p.authorized ∙ authorized) in
    let apart' : same_path p.path (backup_path backup_dir (new_id "change" change_uuid) 0 p.path)
        ≡ false =
      rw same apart in
    let (applied_receipt, _, applied) =
      apply_change-written adapter fine now change_uuid op_uuid request files cs p later
        backup_dir in
    let (receipt, status, restored) =
      rollback_change-restored adapter fine now change_uuid op_uuid request files cs p last
        backup_dir apart' in
    rw (ap (λ r. r.1) applied) (
      receipt,
      ap (λ r. r.0) restored,
      status,
      rw (ap (λ r. r.1) restored) (
          rw (sym same) (
            restored_or_backup adapter fine now change_uuid op_uuid request files cs p backup_dir
              q)),
    )
