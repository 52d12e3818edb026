-- ===== src/Codex/Partial.antt =====
-- What `apply_change` of crates/amcp-codex/src/lib.rs leaves behind if the second of two operations
-- finds a file that was changed.
use Prim.Native.String.{◌++◌}
use agent_memory_control_pla.Prelude.{
  ℕ, String, ◌≡◌, refl, ◌∙◌, ap, false, some, [], ◌∷◌, option_text_eq,
}
use agent_memory_control_pla.Prelude.Result.{ok}
use agent_memory_control_pla.Prelude.Texts.{as_bytes}
use agent_memory_control_pla.Domain.Kinds.{ChangeStatus}
use agent_memory_control_pla.Domain.Change.{ChangeOperation, ChangeSet, ChangeReceipt}
use agent_memory_control_pla.Codex.Files.{FilePath, Contents, write, write-same}
use agent_memory_control_pla.Codex.Paths.{CodexAdapter, authorized_path}
use agent_memory_control_pla.Codex.Propose.{hash_of, hash_bytes, read_optional, is_delete_file}
use agent_memory_control_pla.Codex.Apply.{
  Outcome, backup_path, checked_target, replace_target, apply_operation, apply_from,
  apply_operations, apply_change, check_operations, conflict_receipt,
}
use agent_memory_control_pla.Codex.RoundTrip.{NoFault}
use agent_memory_control_pla.Codex.Applied.{saved, apply_operation-written}

-- An operation that finds its file as expected and replaces it.
pub record Fits (adapter : CodexAdapter) (op : ChangeOperation) (path : FilePath)
    (replacement : String) (files : Contents) : Type 0 where
  pub keeps : is_delete_file op.operation ≡ false
  pub authorized : authorized_path adapter op.target.source_reference ≡ ok path
  pub expected : op.expected_source_hash ≡ hash_of adapter (files path)
  pub given : op.replacement_content ≡ some replacement
  pub after : op.after_hash ≡ some (hash_bytes adapter (as_bytes replacement))

conflicts :
    (adapter : CodexAdapter) (change_set_id backup_dir : String) (index : ℕ) (op : ChangeOperation)
    (path : FilePath) (files : Contents)
    → NoFault adapter.os
    → is_delete_file op.operation ≡ false
    → authorized_path adapter op.target.source_reference ≡ ok path
    → option_text_eq op.expected_source_hash (hash_of adapter (files path)) ≡ false
    → apply_operation adapter change_set_id backup_dir index op files
      ≡ (ok (Outcome.conflicted op.target.source_reference (hash_of adapter (files path))), files)
unfolding apply_operation replace_target read_optional
conflicts adapter change_set_id backup_dir index op path files fine keeps authorized stale =
    let target : checked_target adapter op files ≡ ok (path, files path) =
      rw (keeps, authorized) (rw (fine.reads path) refl) in
    rw target (rw (stale, replace_target) refl)

-- If a change set has two operations that both pass the checks made in advance, of which the
-- first fits its file and the second one, which is no deletion, then finds another hash than it
-- expects, and no call of the file system fails, the receipt is a conflict that names no backup,
-- while the file of the first operation holds its replacement: the change set is applied by half.
pub apply_change_partial :
    (adapter : CodexAdapter) (now : ℕ) (cs : ChangeSet) (backup_dir : String) (files : Contents)
    (first second : ChangeOperation) (path other : FilePath) (replacement : String)
    → NoFault adapter.os
    → cs.operations ≡ first ∷ second ∷ []
    → check_operations adapter (first ∷ second ∷ []) ≡ ok tt
    → Fits adapter first path replacement files
    → is_delete_file second.operation ≡ false
    → authorized_path adapter second.target.source_reference ≡ ok other
    → option_text_eq second.expected_source_hash (
        hash_of adapter (
          write path
            (some (as_bytes replacement))
            (saved (backup_path backup_dir cs.change_set_id 0 path) (files path) files)
            other))
      ≡ false
    → (receipt : ChangeReceipt) × ((apply_change adapter now cs backup_dir files).0 ≡ ok receipt)
      × (receipt.status ≡ ChangeStatus.conflict)
      × (receipt.backup_references ≡ [])
      × ((apply_change adapter now cs backup_dir files).1 path ≡ some (as_bytes replacement))
unfolding apply_change apply_operations apply_from
apply_change_partial adapter now cs backup_dir files first second path other replacement fine
      operations checked fits keeps authorized stale =
    let written =
      write path (some (as_bytes replacement))
        (saved (backup_path backup_dir cs.change_set_id 0 path) (files path) files) in
    let e =
      apply_operation-written adapter fine cs.change_set_id backup_dir 0 first path replacement
        files fits.keeps fits.authorized fits.expected fits.given fits.after in
    let f : apply_operation adapter cs.change_set_id backup_dir 1 second written ≡ (
      ok (Outcome.conflicted second.target.source_reference (hash_of adapter (written other))),
      written,
    ) =
      conflicts adapter cs.change_set_id backup_dir 1 second other written fine keeps authorized
        stale in
    let result : apply_change adapter now cs backup_dir files ≡ (
      ok (
          conflict_receipt cs now (hash_of adapter (written other))
            ("source changed before apply for " ++ second.target.source_reference)),
      written,
    ) =
      rw operations (
        rw checked (
          rw (ap (λ r. r.0) e, apply_from)
            (rw (ap (λ r. r.1) e) (
              rw (ap (λ r. r.0) f, apply_from)
                (rw (ap (λ r. r.1) e) (rw (ap (λ r. r.1) f) refl)))))) in
    (
      conflict_receipt cs now (hash_of adapter (written other))
          ("source changed before apply for " ++ second.target.source_reference),
      ap (λ r. r.0) result,
      refl,
      refl,
      ap (λ r. r.1 path) result ∙ write-same path (some (as_bytes replacement)) _,
    )
