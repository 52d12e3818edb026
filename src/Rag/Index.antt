-- ===== src/Rag/Index.antt =====
-- `LexicalRagManager` of crates/amcp-rag/src/lib.rs as an index: `new`, `with_embedding_provider`,
-- `index`, `invalidate_source` and `purge_expired`.
pub mod Slices
pub mod Latest
use agent_memory_control_pla.Prelude.{
  ℕ, zero, suc, ◌-◌, ◌*◌, max, String, Bool, true, false, not, ◌&&◌, ◌||◌, Option, none, some, List,
  [], ◌∷◌, ◌++◌, leb, ◌=ₜ◌, if◌then◌else◌, length, take, drop, keep,
}
use agent_memory_control_pla.Prelude.Result.{Result, ok, err}
use agent_memory_control_pla.Prelude.Texts.{as_bytes}
use agent_memory_control_pla.Domain.Kinds.{Scope, SensitivityClass, LifecycleState}
use agent_memory_control_pla.Agent.Store.{Error}
use agent_memory_control_pla.Agent.Auth.{day}
use agent_memory_control_pla.Rag.Types.{
  RagConfig, RagDocument, Embedding, EmbeddingProvider, IndexedChunk, LexicalRagManager,
}
use agent_memory_control_pla.Rag.Config.{scope_allowed}

unfoldable pub new : RagConfig → LexicalRagManager
new config = record { config = config; chunks = []; embedding_provider = none }

unfoldable pub with_embedding_provider : RagConfig → EmbeddingProvider → LexicalRagManager
with_embedding_provider config provider = record {
  config = record config {
    embedding_provider = some provider.descriptor.id;
    embedding_model = some provider.descriptor.model;
  };
  chunks = [];
  embedding_provider = some provider;
}

-- `slice.chunks(size)`; the first argument is at least the length of the slice.
unfoldable pub slices : {A : Type 0} → ℕ → ℕ → List A → List (List A)
slices zero size xs = []
slices (suc fuel) size [] = []
slices (suc fuel) size (x ∷ xs) = take size (x ∷ xs) ∷ slices fuel size (drop size (x ∷ xs))

abbrev pub embed_text : Option EmbeddingProvider → String → Result Error (Option Embedding)
embed_text none text = ok none
embed_text (some provider) text = elim (provider.embed text) [
  | ok embedding ↦ ok (some embedding)
  | err e ↦ err e
]

abbrev pub provider_id : Option EmbeddingProvider → Option String
provider_id none = none
provider_id (some provider) = some provider.descriptor.id

abbrev pub provider_model : Option EmbeddingProvider → Option String
provider_model none = none
provider_model (some provider) = some provider.descriptor.model

-- The chunk of a document with the given index, text and embedding.
unfoldable pub chunk_of :
    Option EmbeddingProvider → ℕ → RagDocument → ℕ → String → Option Embedding → IndexedChunk
chunk_of provider now document index text embedding = record {
  record_id = document.record_id;
  title = document.title;
  text = text;
  scope = document.scope;
  source_reference = document.source_reference;
  source_hash = document.source_hash;
  sensitivity = document.sensitivity;
  lifecycle = document.lifecycle;
  chunk_index = index;
  indexed_at = now;
  embedding = embedding;
  embedding_provider = provider_id provider;
  embedding_model = provider_model provider;
}

abbrev pub is_active : LifecycleState → Bool
is_active LifecycleState.active = true
is_active _ = false

abbrev pub is_secret_like : SensitivityClass → Bool
is_secret_like SensitivityClass.secret_like = true
is_secret_like _ = false

-- The document is not skipped.
unfoldable pub is_indexable : RagConfig → RagDocument → Bool
is_indexable config document = not (
    not (scope_allowed config document.scope)
    || not (is_active document.lifecycle)
    || is_secret_like document.sensitivity)

abbrev pub is_of : String → IndexedChunk → Bool
is_of record_id chunk = chunk.record_id =ₜ record_id

abbrev pub slices_of : RagConfig → RagDocument → List (List ℕ)
slices_of config document =
    let bytes = as_bytes document.content in slices (length bytes) (max config.chunk_size 1) bytes

-- The argument is `String::from_utf8_lossy`, for slices that cut a character.
module _ (from_utf8_lossy : List ℕ → String) (provider : Option EmbeddingProvider) (now : ℕ) where
  -- The loop over the slices of a document. Its variables are `self.chunks` and `indexed`.
  unfoldable pub push_slices :
      RagDocument → ℕ → List (List ℕ) → List IndexedChunk → ℕ → Result Error ℕ × List IndexedChunk
  push_slices document index [] chunks indexed = (ok indexed, chunks)
  push_slices document index (bytes ∷ rest) chunks indexed =
      elim (embed_text provider (from_utf8_lossy bytes)) [
        | err e ↦ (err e, chunks)
        | ok embedding ↦
            push_slices document (suc index) rest
              (chunks
                ++ chunk_of provider now document index (from_utf8_lossy bytes) embedding ∷ [])
              (suc indexed)
      ]

  -- The loop over the documents.
  unfoldable pub index_documents :
      RagConfig → List RagDocument → List IndexedChunk → ℕ → Result Error ℕ × List IndexedChunk
  index_documents config [] chunks indexed = (ok indexed, chunks)
  index_documents config (document ∷ documents) chunks indexed =
      elim (is_indexable config document) [
        | false ↦ index_documents config documents chunks indexed
        | true ↦
            let (result, chunks') =
              push_slices document 0 (slices_of config document)
                (keep (λ chunk. not (is_of document.record_id chunk)) chunks) indexed in
            elim result [
              | err e ↦ (err e, chunks')
              | ok indexed' ↦ index_documents config documents chunks' indexed'
            ]
      ]

unfoldable pub index :
    (List ℕ → String)
    → ℕ
    → List RagDocument
    → LexicalRagManager
    → Result Error ℕ × LexicalRagManager
unfolding index_documents
index from_utf8_lossy now documents manager =
    if manager.config.enabled
    then (let (result, chunks) =
          index_documents from_utf8_lossy manager.embedding_provider now manager.config documents
            manager.chunks 0 in
        (result, record manager { chunks = chunks }))
    else (ok 0, manager)

unfoldable pub invalidate_source : String → LexicalRagManager → ℕ × LexicalRagManager
invalidate_source source_hash manager =
    let kept = keep (λ chunk. not (chunk.source_hash =ₜ source_hash)) manager.chunks in
    (length manager.chunks - length kept, record manager { chunks = kept })

-- Times are not before 1970, so a cutoff before it keeps every chunk, as a cutoff of 0 does.
unfoldable pub purge_expired : ℕ → LexicalRagManager → ℕ × LexicalRagManager
purge_expired now manager = elim manager.config.retention_days [
  | none ↦ (0, manager)
  | some days ↦
      let cutoff : ℕ = now - days * day in
      let kept = keep (λ chunk. leb cutoff chunk.indexed_at) manager.chunks in
      (length manager.chunks - length kept, record manager { chunks = kept })
]
