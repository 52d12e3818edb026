-- ===== src/Rag/Config.antt =====
-- `RagConfig::default`, `validate_rag_config`, `scope_matches`, `load_config` and `save_config` of
-- crates/amcp-rag/src/lib.rs. The row of `rag_configuration` holds the configuration itself: it is
-- stored as JSON, and a row that does not decode is given as such.
use agent_memory_control_pla.Prelude.{
  ℕ, String, Bool, true, false, not, ◌&&◌, ◌||◌, Option, none, some, List, [], ◌∷◌, any, ltb, leb,
  ◌=ₜ◌, is_some_text, length,
}
use agent_memory_control_pla.Prelude.Result.{Result, ok, err, ◌>>=◌, ◌>>◌, refuse_if}
use agent_memory_control_pla.Prelude.Texts.{is_blank, byte_len}
use agent_memory_control_pla.Domain.Kinds.{Scope}
use agent_memory_control_pla.Agent.Store.{Error, Stored}
use agent_memory_control_pla.Rag.Types.{RagConfig}

abbrev pub default : RagConfig
default = record {
  enabled = false;
  allowed_scopes = [];
  embedding_provider = none;
  embedding_model = none;
  retention_days = none;
  chunk_size = 800;
  retrieval_limit = 5;
}

-- `(low..=high).contains(&n)`
abbrev pub within : ℕ → ℕ → ℕ → Bool
within low high n = leb low n && leb n high

abbrev pub is_unsupported : Option String → Bool
is_unsupported none = false
is_unsupported (some provider) = not (provider =ₜ "local-hash" || provider =ₜ "openai")

abbrev pub is_bad_model : Option String → Bool
is_bad_model none = false
is_bad_model (some model) = is_blank model || ltb 160 (byte_len model)

unfoldable pub validate_rag_config : RagConfig → Result Error (Unit {0})
validate_rag_config config = do
  refuse_if (not (within 64 16384 config.chunk_size))
      "RAG chunk_size must be between 64 and 16384 bytes"
  refuse_if (not (within 1 20 config.retrieval_limit))
      "RAG retrieval_limit must be between 1 and 20"
  refuse_if (ltb 128 (length config.allowed_scopes))
      "RAG supports at most 128 explicitly allowed scopes"
  refuse_if (is_unsupported config.embedding_provider) "unsupported RAG embedding provider"
  refuse_if (is_bad_model config.embedding_model)
      "RAG embedding model must be between 1 and 160 characters"
  ok tt

-- `requested.is_none_or(|id| actual == Some(id))`
abbrev pub field_matches : Option String → Option String → Bool
field_matches none actual = true
field_matches (some id) actual = is_some_text actual id

unfoldable pub scope_matches : Scope → Scope → Bool
scope_matches requested actual =
    field_matches requested.host_id actual.host_id
    && field_matches requested.provider_id actual.provider_id
    && field_matches requested.project_id actual.project_id

abbrev pub is_empty : {A : Type 0} → List A → Bool
is_empty [] = true
is_empty (x ∷ xs) = false

unfoldable pub scope_allowed : RagConfig → Scope → Bool
scope_allowed config scope =
    is_empty config.allowed_scopes
    || any (λ allowed. scope_matches allowed scope) config.allowed_scopes

abbrev pub stored_or_default : Stored RagConfig → Result Error RagConfig
stored_or_default Stored.absent = ok default
stored_or_default (Stored.holds config) = ok config
stored_or_default (Stored.broken e) = err e

unfoldable pub load_config : Stored RagConfig → Result Error RagConfig
load_config row = do config ← stored_or_default row; validate_rag_config config; ok config

-- What is left to fail after a statement: `harden_database_files`.
abbrev pub done_unless {ℓ} : {A : Type ℓ} → Option Error → A → Result Error A
done_unless none a = ok a
done_unless (some e) a = err e

-- The two errors are those of the statement and of the file permissions set after it, if they fail.
unfoldable pub save_config :
    Option Error
    → Option Error
    → RagConfig
    → Stored RagConfig
    → Result Error (Unit {0}) × Stored RagConfig
save_config fault harden config row =
    elim (do
      validate_rag_config config
      refuse_if (config.enabled && is_empty config.allowed_scopes)
          "an enabled persisted RAG policy requires at least one allowed scope") [
            | err e ↦ (err e, row)
            | ok _ ↦ elim fault [
              | none ↦ (done_unless harden tt, Stored.holds config)
              | some e ↦ (err e, row)
            ]
          ]
