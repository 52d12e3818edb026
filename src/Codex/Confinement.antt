-- ===== src/Codex/Confinement.antt =====
-- Which files `apply_change` of crates/amcp-codex/src/lib.rs can change.
pub mod Rollback
use agent_memory_control_pla.Prelude.{
  ℕ, suc, String, ◌≡◌, refl, sym, ◌∙◌, ◌⊎◌, inl, inr, Option, none, some, List, [], ◌∷◌, arith,
  option_text_eq, Bool-cases, Option-cases,
}
use agent_memory_control_pla.Prelude.Result.{Result, ok, err}
use agent_memory_control_pla.Domain.Change.{ChangeOperation, ChangeSet}
use agent_memory_control_pla.Agent.Store.{Error}
use agent_memory_control_pla.Codex.Files.{
  FilePath, Bytes, Os, Call, Contents, parent, same_path, same_path→eq, write, write-other,
  components, leave,
}
use agent_memory_control_pla.Codex.Paths.{CodexAdapter, authorized_path}
use agent_memory_control_pla.Codex.Propose.{hash_of, read_optional}
use agent_memory_control_pla.Prelude.Texts.{as_bytes}
use agent_memory_control_pla.Codex.Apply.{
  parent_fault, write_fault, temp_path, Outcome, Gathered, backup_path, back_up, put, perform,
  checked_target, replace_target, apply_operation, apply_from, after_check, apply_operations,
  apply_change, gather, check_operations, nothing,
}

pub checked_target-path :
    (adapter : CodexAdapter) (op : ChangeOperation) (files : Contents) (t : FilePath × Option Bytes)
    → checked_target adapter op files ≡ ok t
    → authorized_path adapter op.target.source_reference ≡ ok t.0
unfolding read_optional
checked_target-path adapter op files t h = ground arith

-- The file of an operation, a backup of it, or a temporary file for it.
abbrev pub Reaches : CodexAdapter → String → String → FilePath → ChangeOperation → Type 0
Reaches adapter backup_dir change_set_id p op =
    (path : FilePath) × (authorized_path adapter op.target.source_reference ≡ ok path)
    × ((p ≡ path)
        ⊎ ((index : ℕ) × ((p ≡ backup_path backup_dir change_set_id index path)
              ⊎ (p ≡ temp_path adapter.os ".amcp-" change_set_id index path))))

pub write_or_same :
    (p q : FilePath) (bytes : Option Bytes) (files : Contents)
    → (write p bytes files q ≡ files q) ⊎ (q ≡ p)
write_or_same p q bytes files = elim (Bool-cases (same_path p q)) [
  | inl same ↦ inr (sym (same_path→eq p q same))
  | inr other ↦ inl (write-other p q bytes files other)
]

pub leave_or_same :
    (p q : FilePath) (left : Option Bytes) (files : Contents)
    → (leave p left files q ≡ files q) ⊎ (q ≡ p)
unfolding leave
leave_or_same p q none files = inl refl
leave_or_same p q (some bytes) files = write_or_same p q (some bytes) files

back_up_or_same :
    (os : Os) (backup q : FilePath) (current : Option Bytes) (files : Contents)
    → ((back_up os backup current files).1 q ≡ files q) ⊎ (q ≡ backup)
unfolding back_up
back_up_or_same os backup q none files = inl refl
back_up_or_same os backup q (some bytes) files =
    elim (Option-cases (os.fault (Call.copying backup))) [
      | inr (e, fault) ↦
          rw (fault, back_up) (leave_or_same backup q (os.left (Call.copying backup)) files)
      | inl fine ↦ rw (fine, back_up) (write_or_same backup q (some bytes) files)
    ]

pub at_path : {A B C : Type 0} → A ⊎ B → A ⊎ (B ⊎ C)
at_path (inl a) = inl a
at_path (inr b) = inr (inl b)

pub at_temp : {A B C : Type 0} → A ⊎ C → A ⊎ (B ⊎ C)
at_temp (inl a) = inl a
at_temp (inr c) = inr (inr c)

put_or_same :
    (adapter : CodexAdapter) (op : ChangeOperation) (temp path q : FilePath)
    (before : Option String) (replacement : String) (r : Result Error (Option FilePath))
    (files : Contents)
    → ((put adapter op temp path before replacement r files).1 q ≡ files q)
      ⊎ ((q ≡ path) ⊎ (q ≡ temp))
unfolding put
put_or_same adapter op temp path q before replacement (err e) files = inl refl
put_or_same adapter op temp path q before replacement (ok backup) files =
    elim (Option-cases (parent_fault adapter.os (parent path))) [
      | inr (e, fault) ↦ inl (rw (fault, put) refl)
      | inl made ↦ elim (Option-cases (write_fault adapter.os temp path (as_bytes replacement))) [
        | inr ((e, left), fault) ↦
            rw (made, put) (rw (fault, put) (at_temp (leave_or_same temp q left files)))
        | inl fine ↦
            rw (made, put)
              (rw (fine, put) (at_path (write_or_same path q (some (as_bytes replacement)) files)))
      ]
    ]

perform_or_same :
    (adapter : CodexAdapter) (op : ChangeOperation) (backup_dir : String)
    (backup temp path q : FilePath) (current : Option Bytes) (replacement : String)
    (files : Contents)
    → ((perform adapter op backup_dir backup temp path current replacement files).1 q ≡ files q)
      ⊎ ((q ≡ path) ⊎ ((q ≡ backup) ⊎ (q ≡ temp)))
unfolding perform
perform_or_same adapter op backup_dir backup temp path q current replacement files =
    let b = back_up adapter.os backup current files in
    elim (Option-cases (adapter.os.fault (Call.creating_dir (components backup_dir)))) [
      | inr (e, fault) ↦ inl (rw (fault, perform) refl)
      | inl fine ↦
          rw (fine, perform)
            (elim (put_or_same adapter op temp path q (hash_of adapter current) replacement b.0
              b.1) [
                | inr (inl here) ↦ inr (inl here)
                | inr (inr here) ↦ inr (inr (inr here))
                | inl kept ↦ elim (back_up_or_same adapter.os backup q current files) [
                  | inr here ↦ inr (inr (inl here))
                  | inl kept' ↦ inl (kept ∙ kept')
                ]
              ])
    ]

module _ (adapter : CodexAdapter) (change_set_id backup_dir : String) where
  apply_operation-Reaches :
      (index : ℕ) (op : ChangeOperation) (files : Contents) (q : FilePath)
      → ((apply_operation adapter change_set_id backup_dir index op files).1 q ≡ files q)
        ⊎ Reaches adapter backup_dir change_set_id q op
  unfolding apply_operation replace_target
  apply_operation-Reaches index op files q = target (checked_target adapter op files) refl
    where
      target :
          (t : Result Error (FilePath × Option Bytes))
          → checked_target adapter op files ≡ t
          → ((replace_target adapter change_set_id backup_dir index op t files).1 q ≡ files q)
            ⊎ Reaches adapter backup_dir change_set_id q op
      target (err e) h = inl refl
      target (ok (path, current)) h =
          let there = checked_target-path adapter op files (path, current) h in
          let backup = backup_path backup_dir change_set_id index path in
          let temp = temp_path adapter.os ".amcp-" change_set_id index path in
          elim (Bool-cases (option_text_eq op.expected_source_hash (hash_of adapter current))) [
            | inr stale ↦ inl (rw stale refl)
            | inl fresh ↦ elim (Option-cases op.replacement_content) [
              | inl missing ↦ inl (rw (fresh, missing) refl)
              | inr (replacement, given) ↦
                  rw (fresh, given)
                    (elim (perform_or_same adapter op backup_dir backup temp path q current
                      replacement files) [
                        | inl kept ↦ inl kept
                        | inr (inl here) ↦ inr (path, there, inl here)
                        | inr (inr here) ↦ inr (path, there, inr (index, here))
                      ])
            ]
          ]

  -- Reaching through one of several operations.
  abbrev pub SomeReaches : FilePath → List ChangeOperation → Type 0
  SomeReaches q [] = ⊥
  SomeReaches q (op ∷ ops) = Reaches adapter backup_dir change_set_id q op ⊎ SomeReaches q ops

-- To split on what an operation did and keep the equation.
pub Outcome-cases :
    (r : Result Error Outcome)
    → ((e : Error) × (r ≡ err e))
      ⊎ (((target : String) × (found : Option String) × (r ≡ ok (Outcome.conflicted target found)))
          ⊎ ((backup : Option FilePath) × (before : Option String) × (after : Option String) × (r
                ≡ ok (Outcome.done backup before after))))
Outcome-cases (err e) = inl (e, refl)
Outcome-cases (ok (Outcome.conflicted target found)) = inr (inl (target, found, refl))
Outcome-cases (ok (Outcome.done backup before after)) = inr (inr (backup, before, after, refl))

module _ (adapter : CodexAdapter) (cs : ChangeSet) (backup_dir : String) (now : ℕ) where
  apply_from-Reaches :
      (index : ℕ) (ops : List ChangeOperation) (g : Gathered) (files : Contents) (q : FilePath)
      → ((apply_from adapter cs backup_dir now index ops g files).1 q ≡ files q)
        ⊎ SomeReaches adapter cs.change_set_id backup_dir q ops
  unfolding apply_from
  apply_from-Reaches index [] g files q = inl refl
  apply_from-Reaches index (op ∷ ops) g files q =
      let step = apply_operation adapter cs.change_set_id backup_dir index op files in
      let here = apply_operation-Reaches adapter cs.change_set_id backup_dir index op files q in
      elim (Outcome-cases step.0) [
        | inl (e, failed) ↦ rw (failed, apply_from) (first step.1 here)
        | inr (inl (target, found, conflict)) ↦ rw (conflict, apply_from) (first step.1 here)
        | inr (inr (backup, before, after, fine)) ↦
            rw (fine, apply_from)
              (elim (apply_from-Reaches (suc index) ops (gather backup before after g) step.1 q) [
                | inr later ↦ inr (inr later)
                | inl kept ↦ elim here [
                  | inl kept' ↦ inl (kept ∙ kept')
                  | inr reached ↦ inr (inl reached)
                ]
              ])
      ]
    where
      first :
          (files' : Contents)
          → (files' q ≡ files q) ⊎ Reaches adapter backup_dir cs.change_set_id q op
          → (files' q ≡ files q) ⊎ SomeReaches adapter cs.change_set_id backup_dir q (op ∷ ops)
      first files' (inl kept) = inl kept
      first files' (inr reached) = inr (inl reached)

  -- A file that applying a change set changes is the authorized path of one of its operations, a
  -- backup of such a path or a temporary file for it, named after the change set, whichever calls of
  -- the file system fail, and whether the change set is applied, in conflict or refused.
  pub apply_change-SomeReaches :
      (files : Contents) (q : FilePath)
      → ((apply_change adapter now cs backup_dir files).1 q ≡ files q)
        ⊎ SomeReaches adapter cs.change_set_id backup_dir q cs.operations
  unfolding apply_change apply_operations
  apply_change-SomeReaches files q = within cs.operations
    where
      within :
          (ops : List ChangeOperation)
          → ((apply_operations adapter cs backup_dir now ops files).1 q ≡ files q)
            ⊎ SomeReaches adapter cs.change_set_id backup_dir q ops
      within [] = inl refl
      within (op ∷ ops) =
          elim (check_operations adapter (op ∷ ops))
            as (λ c.
              ((after_check adapter cs backup_dir now (op ∷ ops) c files).1 q ≡ files q)
              ⊎ SomeReaches adapter cs.change_set_id backup_dir q (op ∷ ops)) [
                | err e ↦ inl refl
                | ok _ ↦ apply_from-Reaches 0 (op ∷ ops) nothing files q
              ]
