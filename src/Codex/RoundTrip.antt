-- ===== src/Codex/RoundTrip.antt =====
-- A proposed change, its application and its rollback: `propose_change`, `apply_change` and
-- `rollback_change` of crates/amcp-codex/src/lib.rs, one after the other.
use agent_memory_control_pla.Prelude.{
  ℕ, String, ◌≡◌, refl, sym, inl, inr, true, false, Option, none, some, arith, ◌=ₜ◌,
  option_text_eq→eq, Option-cases,
}
use agent_memory_control_pla.Prelude.Result.{ok, Result-cases}
use agent_memory_control_pla.Domain.Change.{ChangeRequest, ChangeSet}
use agent_memory_control_pla.Codex.Files.{FilePath, Os, Call, Contents}
use agent_memory_control_pla.Codex.Paths.{CodexAdapter, authorized_path, ensure_project_is_writable}
use agent_memory_control_pla.Codex.Propose.{
  hash_of, read_optional, differs, redact_text, validate_replacement, proposal, propose_change,
  or_else,
}

-- No call of the file system fails.
pub record NoFault (os : Os) : Type 0 where
  pub reads : (p : FilePath) → os.fault (Call.reading p) ≡ none
  pub reads_back : (p : FilePath) → os.fault (Call.reading_back p) ≡ none
  pub creates : (p : FilePath) → os.fault (Call.creating_dir p) ≡ none
  pub copies : (p : FilePath) → os.fault (Call.copying p) ≡ none
  pub opens : (p : FilePath) → os.fault (Call.opening p) ≡ none
  pub writes : (p : FilePath) → os.fault (Call.writing p) ≡ none
  pub syncs : (p : FilePath) → os.fault (Call.syncing p) ≡ none
  pub renames : (p : FilePath) → os.fault (Call.renaming p) ≡ none
  pub removes : (p : FilePath) → os.fault (Call.removing p) ≡ none

-- What a proposal rests on.
pub record Proposed (adapter : CodexAdapter) (now : ℕ) (change_uuid op_uuid : String)
    (request : ChangeRequest) (files : Contents) (cs : ChangeSet) : Type 0 where
  pub path : FilePath
  pub replacement : String
  pub authorized : authorized_path adapter request.target.source_reference ≡ ok path
  pub writable : ensure_project_is_writable adapter path ≡ ok tt
  pub given : request.replacement_content ≡ some replacement
  pub clean : redact_text adapter.libraries replacement =ₜ replacement ≡ true
  pub valid : validate_replacement adapter.libraries path replacement ≡ ok tt
  pub expected :
      or_else request.expected_source_hash (hash_of adapter (files path))
      ≡ hash_of adapter (files path)
  pub is : cs ≡ proposal adapter now change_uuid op_uuid request path (files path) replacement

pub expected_of :
    (expected before : Option String)
    → differs expected before ≡ false
    → or_else expected before ≡ before
expected_of none before h = refl
expected_of (some a) before h = sym (option_text_eq→eq before (some a) (ground arith))

pub propose_change-Proposed :
    (adapter : CodexAdapter) (now : ℕ) (change_uuid op_uuid : String) (request : ChangeRequest)
    (files : Contents) (cs : ChangeSet)
    → propose_change adapter now change_uuid op_uuid request files ≡ ok cs
    → Proposed adapter now change_uuid op_uuid request files cs
unfolding propose_change read_optional
propose_change-Proposed adapter now change_uuid op_uuid request files cs h =
    elim (Result-cases (authorized_path adapter request.target.source_reference)) [
      | inl (e, denied) ↦ absurd (ground arith)
      | inr (path, authorized) ↦ elim (Option-cases request.replacement_content) [
        | inl missing ↦ absurd (ground arith)
        | inr (replacement, given) ↦ record {
          path = path;
          replacement = replacement;
          authorized = authorized;
          writable = ground arith;
          given = given;
          clean = ground arith;
          valid = ground arith;
          expected =
              expected_of request.expected_source_hash (hash_of adapter (files path))
                (ground arith);
          is = ground arith;
        }
      ]
    ]
