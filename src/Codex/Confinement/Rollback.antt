-- ===== src/Codex/Confinement/Rollback.antt =====
-- Which files `rollback_change` of crates/amcp-codex/src/lib.rs can change.
use agent_memory_control_pla.Prelude.{
  ℕ, suc, String, ◌≡◌, refl, ◌∙◌, ◌⊎◌, inl, inr, Option, none, some, List, [], ◌∷◌, arith,
  option_text_eq, Bool-cases, Option-cases,
}
use agent_memory_control_pla.Prelude.Result.{Result, ok, err, Result-cases}
use agent_memory_control_pla.Domain.Change.{ChangeOperation, ChangeSet}
use agent_memory_control_pla.Codex.Files.{FilePath, Bytes, Call, Contents}
use agent_memory_control_pla.Codex.Paths.{CodexAdapter, authorized_path}
use agent_memory_control_pla.Codex.Propose.{hash_of, read_optional}
use agent_memory_control_pla.Codex.Apply.{Gathered, gather, nothing, backup_path, temp_path}
use agent_memory_control_pla.Codex.Rollback.{
  backup_contents, restore, restore_fault, restore_target, rollback_target, rollback_operation,
  rollback_from, rollback_change,
}
use agent_memory_control_pla.Codex.Confinement.{
  write_or_same, leave_or_same, at_path, at_temp, Outcome-cases,
}

rollback_target-path :
    (adapter : CodexAdapter) (op : ChangeOperation) (files : Contents) (t : FilePath × Option Bytes)
    → rollback_target adapter op files ≡ ok t
    → authorized_path adapter op.target.source_reference ≡ ok t.0
unfolding read_optional
rollback_target-path adapter op files t h = ground arith

restore_or_same :
    (adapter : CodexAdapter) (backup temp path q : FilePath) (before : Option String)
    (current : Option Bytes) (files : Contents)
    → ((restore adapter backup temp path before current files).1 q ≡ files q)
      ⊎ ((q ≡ path) ⊎ (q ≡ temp))
unfolding restore
restore_or_same adapter backup temp path q (some expected) current files =
    elim (Result-cases (backup_contents adapter backup expected files)) [
      | inl (e, missing) ↦ inl (rw (missing, restore) refl)
      | inr (restored, found) ↦ elim (Option-cases (restore_fault adapter.os temp path restored)) [
        | inr ((e, left), fault) ↦
            rw (found, restore) (rw (fault, restore) (at_temp (leave_or_same temp q left files)))
        | inl fine ↦
            rw (found, restore)
              (rw (fine, restore) (at_path (write_or_same path q (some restored) files)))
      ]
    ]
restore_or_same adapter backup temp path q none none files = inl refl
restore_or_same adapter backup temp path q none (some bytes) files =
    elim (Option-cases (adapter.os.fault (Call.removing path))) [
      | inr (e, fault) ↦ inl (rw (fault, restore) refl)
      | inl fine ↦ rw (fine, restore) (at_path (write_or_same path q none files))
    ]

-- The file of an operation, or the temporary file of its rollback.
abbrev pub Names : CodexAdapter → String → FilePath → ChangeOperation → Type 0
Names adapter change_set_id q op =
    (path : FilePath) × (authorized_path adapter op.target.source_reference ≡ ok path)
    × ((q ≡ path)
        ⊎ ((index : ℕ) × (q ≡ temp_path adapter.os ".amcp-rollback-" change_set_id index path)))

abbrev pub SomeNames : CodexAdapter → String → FilePath → List ChangeOperation → Type 0
SomeNames adapter change_set_id q [] = ⊥
SomeNames adapter change_set_id q (op ∷ ops) =
    Names adapter change_set_id q op ⊎ SomeNames adapter change_set_id q ops

named_or_same :
    {A : Type 0} (adapter : CodexAdapter) (change_set_id : String) (index : ℕ)
    (op : ChangeOperation) (path q : FilePath)
    → authorized_path adapter op.target.source_reference ≡ ok path
    → A ⊎ ((q ≡ path) ⊎ (q ≡ temp_path adapter.os ".amcp-rollback-" change_set_id index path))
    → A ⊎ Names adapter change_set_id q op
named_or_same adapter change_set_id index op path q there (inl kept) = inl kept
named_or_same adapter change_set_id index op path q there (inr (inl same)) =
    inr (path, there, inl same)
named_or_same adapter change_set_id index op path q there (inr (inr temp)) =
    inr (path, there, inr (index, temp))

rollback_operation-SomeNames :
    (adapter : CodexAdapter) (change_set_id backup_dir : String) (index : ℕ) (op : ChangeOperation)
    (files : Contents) (q : FilePath)
    → ((rollback_operation adapter change_set_id backup_dir index op files).1 q ≡ files q)
      ⊎ Names adapter change_set_id q op
unfolding rollback_operation restore_target
rollback_operation-SomeNames adapter change_set_id backup_dir index op files q =
    target (rollback_target adapter op files) refl
  where
    target :
        (t : Result String (FilePath × Option Bytes))
        → rollback_target adapter op files ≡ t
        → ((restore_target adapter change_set_id backup_dir index op t files).1 q ≡ files q)
          ⊎ Names adapter change_set_id q op
    target (err e) h = inl refl
    target (ok (path, current)) h =
        let there = rollback_target-path adapter op files (path, current) h in
        let backup = backup_path backup_dir change_set_id index path in
        let temp = temp_path adapter.os ".amcp-rollback-" change_set_id index path in
        let restored = restore adapter backup temp path op.before_hash current files in
        elim (Bool-cases (option_text_eq op.after_hash (hash_of adapter current))) [
          | inr stale ↦ inl (rw (stale, restore_target) refl)
          | inl fresh ↦ elim (Result-cases restored.0) [
            | inl (e, failed) ↦
                rw (fresh, restore_target)
                  (rw (failed, restore_target)
                    (named_or_same adapter change_set_id index op path q there
                      (restore_or_same adapter backup temp path q op.before_hash current files)))
            | inr (u, done) ↦
                rw (fresh, restore_target)
                  (rw (done, restore_target)
                    (named_or_same adapter change_set_id index op path q there
                      (restore_or_same adapter backup temp path q op.before_hash current files)))
          ]
        ]

list_cases : {A : Type 0} (xs : List A) → (xs ≡ []) ⊎ ((y : A) × (ys : List A) × (xs ≡ y ∷ ys))
list_cases [] = inl refl
list_cases (y ∷ ys) = inr (y, ys, refl)

module _ (adapter : CodexAdapter) (cs : ChangeSet) (backup_dir : String) (now : ℕ) where
  rollback_from-SomeNames :
      (index : ℕ) (ops : List ChangeOperation) (g : Gathered) (files : Contents) (q : FilePath)
      → ((rollback_from adapter cs backup_dir now index ops g files).1 q ≡ files q)
        ⊎ SomeNames adapter cs.change_set_id q ops
  unfolding rollback_from
  rollback_from-SomeNames index [] g files q = inl refl
  rollback_from-SomeNames index (op ∷ ops) g files q =
      let step = rollback_operation adapter cs.change_set_id backup_dir index op files in
      let here =
        rollback_operation-SomeNames adapter cs.change_set_id backup_dir index op files q in
      elim (Outcome-cases step.0) [
        | inl (e, failed) ↦ rw (failed, rollback_from) (first step.1 here)
        | inr (inl (target, found, conflict)) ↦ rw (conflict, rollback_from) (first step.1 here)
        | inr (inr (backup, before, after, fine)) ↦
            rw (fine, rollback_from)
              (elim (rollback_from-SomeNames (suc index) ops (gather backup before after g) step.1
                q) [
                  | inr later ↦ inr (inr later)
                  | inl kept ↦ elim here [
                    | inl kept' ↦ inl (kept ∙ kept')
                    | inr named ↦ inr (inl named)
                  ]
                ])
      ]
    where
      first :
          (files' : Contents)
          → (files' q ≡ files q) ⊎ Names adapter cs.change_set_id q op
          → (files' q ≡ files q) ⊎ SomeNames adapter cs.change_set_id q (op ∷ ops)
      first files' (inl kept) = inl kept
      first files' (inr named) = inr (inl named)

  -- A file that rolling a change set back changes is the authorized path of one of its operations or
  -- a temporary file for it, named after the change set, whichever calls of the file system fail, and
  -- whether the rollback succeeds, is in conflict or is refused.
  pub rollback_change-SomeNames :
      (files : Contents) (q : FilePath)
      → ((rollback_change adapter cs backup_dir now files).1 q ≡ files q)
        ⊎ SomeNames adapter cs.change_set_id q cs.operations
  unfolding rollback_change
  rollback_change-SomeNames files q = elim (list_cases cs.operations) [
    | inl e ↦ inl (rw (e, rollback_change) refl)
    | inr (op, ops, e) ↦
        rw (e, rollback_change) (rollback_from-SomeNames 0 (op ∷ ops) nothing files q)
  ]
