-- ===== src/Rag/Types.antt =====
-- The data of crates/amcp-rag/src/lib.rs. A floating point number is its bit pattern.
use agent_memory_control_pla.Prelude.{ℕ, String, Bool, Option, List}
use agent_memory_control_pla.Prelude.Result.{Result}
use agent_memory_control_pla.Domain.Kinds.{Scope, SensitivityClass, LifecycleState}
use agent_memory_control_pla.Agent.Store.{Error}

pub record RagConfig : Type 0 where
  pub enabled : Bool
  pub allowed_scopes : List Scope
  pub embedding_provider : Option String
  pub embedding_model : Option String
  pub retention_days : Option ℕ
  pub chunk_size : ℕ
  pub retrieval_limit : ℕ

pub record RagDocument : Type 0 where
  pub record_id : String
  pub scope : Scope
  pub title : String
  pub content : String
  pub source_reference : String
  pub source_hash : String
  pub sensitivity : SensitivityClass
  pub lifecycle : LifecycleState

pub record RagCitation : Type 0 where
  pub record_id : String
  pub source_reference : String
  pub source_hash : String
  pub chunk_index : ℕ
  pub embedding_provider : Option String
  pub embedding_model : Option String

pub record RetrievalContext : Type 0 where
  pub enabled : Bool
  pub query : String
  pub scope : Scope
  pub context : List String
  pub citations : List RagCitation
  pub policy_version : String
  pub warning : Option String

pub record EmbeddingProviderDescriptor : Type 0 where
  pub id : String
  pub model : String
  pub dimensions : ℕ

abbrev pub Embedding : Type 0
Embedding = List ℕ

pub record EmbeddingProvider : Type 0 where
  pub descriptor : EmbeddingProviderDescriptor
  pub embed : String → Result Error Embedding

pub record IndexedChunk : Type 0 where
  pub record_id : String
  pub title : String
  pub text : String
  pub scope : Scope
  pub source_reference : String
  pub source_hash : String
  pub sensitivity : SensitivityClass
  pub lifecycle : LifecycleState
  pub chunk_index : ℕ
  pub indexed_at : ℕ
  pub embedding : Option Embedding
  pub embedding_provider : Option String
  pub embedding_model : Option String

pub record LexicalRagManager : Type 0 where
  pub config : RagConfig
  pub chunks : List IndexedChunk
  pub embedding_provider : Option EmbeddingProvider

pub record RagEvaluationCase : Type 0 where
  pub id : String
  pub query : String
  pub scope : Scope
  pub expected_record_ids : List String
  pub forbidden_record_ids : List String

pub record RagEvaluationCaseResult : Type 0 where
  pub id : String
  pub context_item_count : ℕ
  pub citation_count : ℕ
  pub expected_record_hits : ℕ
  pub forbidden_record_hits : ℕ

pub record RagEvaluationReport : Type 0 where
  pub cases : List RagEvaluationCaseResult
  pub context_item_count : ℕ
  pub citation_count : ℕ
  pub expected_record_count : ℕ
  pub expected_record_hits : ℕ
  pub forbidden_record_hits : ℕ

abbrev pub rag_policy_version : String
rag_policy_version = "amcp-rag-v1"
