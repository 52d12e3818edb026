-- ===== src/Rag/Index/Latest.antt =====
-- What the index of crates/amcp-rag/src/lib.rs holds of each record: the chunks of the latest document
-- that was not skipped.
use agent_memory_control_pla.Prelude.{
  ℕ, suc, ◌+◌, String, ◌≡◌, refl, ◌∙◌, ap, Bool, true, false, not, ◌&&◌, Option, List, [], ◌∷◌,
  ◌++◌, arith, ◌=ₜ◌, if◌then◌else◌, length, keep, All, if_true, keep-append, keep_all, keep_none,
  eq_iff, inl, inr, Bool-cases,
}
use mathlib.Core.List.{append_assoc, append-nil}
use agent_memory_control_pla.Prelude.Result.{Result, ok}
use agent_memory_control_pla.Agent.Store.{Error}
use agent_memory_control_pla.Rag.Types.{
  RagConfig, RagDocument, Embedding, EmbeddingProvider, IndexedChunk, LexicalRagManager,
}
use agent_memory_control_pla.Rag.Index.{
  embed_text, chunk_of, is_indexable, is_of, push_slices, slices_of, index_documents, index,
}

module _ (from_utf8_lossy : List ℕ → String) (provider : Option EmbeddingProvider) (now : ℕ)
    (embedded : String → Option Embedding) where
  -- The chunks of a document, from the index on.
  unfoldable pub chunks_from : RagDocument → ℕ → List (List ℕ) → List IndexedChunk
  chunks_from document index [] = []
  chunks_from document index (bytes ∷ rest) =
      chunk_of provider now document index (from_utf8_lossy bytes)
        (embedded (from_utf8_lossy bytes))
      ∷ chunks_from document (suc index) rest

  unfoldable pub chunks_of : RagConfig → RagDocument → List IndexedChunk
  unfolding chunks_from
  chunks_of config document = chunks_from document 0 (slices_of config document)

  -- The abstract index: for each record its chunks, which a document replaces unless it is skipped.
  unfoldable pub latest :
      RagConfig → List RagDocument → String → List IndexedChunk → List IndexedChunk
  latest config [] record_id old = old
  latest config (document ∷ documents) record_id old = latest config documents record_id (
      if is_indexable config document && document.record_id =ₜ record_id
      then chunks_of config document
      else old)

  module _ (embeds : (text : String) → embed_text provider text ≡ ok (embedded text)) where
    push_slices-chunks_from :
        (document : RagDocument) (index : ℕ) (slices : List (List ℕ)) (chunks : List IndexedChunk)
        (indexed : ℕ)
        → push_slices from_utf8_lossy provider now document index slices chunks indexed
          ≡ (ok (indexed + length slices), chunks ++ chunks_from document index slices)
    unfolding push_slices chunks_from
    push_slices-chunks_from document index [] chunks indexed =
        let none_more : indexed + 0 ≡ indexed = omega arith in rw (append-nil, none_more) refl
    push_slices-chunks_from document index (bytes ∷ rest) chunks indexed =
        let chunk =
          chunk_of provider now document index (from_utf8_lossy bytes)
            (embedded (from_utf8_lossy bytes)) in
        let ih =
          push_slices-chunks_from document (suc index) rest (chunks ++ chunk ∷ []) (suc indexed) in
        let count : suc indexed + length rest ≡ indexed + suc (length rest) = omega arith in
        rw (embeds (from_utf8_lossy bytes), push_slices)
          (ih
            ∙ rw (count, append_assoc chunks (chunk ∷ []) (chunks_from document (suc index) rest))
                refl)

    chunks_from_of :
        (document : RagDocument) (index : ℕ) (slices : List (List ℕ)) (record_id : String)
        (b : Bool)
        → (document.record_id =ₜ record_id) ≡ b
        → All (λ chunk. is_of record_id chunk ≡ b) (chunks_from document index slices)
    unfolding chunks_from chunk_of
    chunks_from_of document index [] record_id b h = tt
    chunks_from_of document index (bytes ∷ rest) record_id b h =
        (h, chunks_from_of document (suc index) rest record_id b h)

    -- Taking out one record leaves nothing of it, and the others as they are.
    keep_without :
        (out record_id : String) (chunks : List IndexedChunk)
        → keep (is_of record_id) (keep (λ chunk. not (is_of out chunk)) chunks)
          ≡ (if out =ₜ record_id then [] else keep (is_of record_id) chunks)
    keep_without out record_id [] = ground arith
    keep_without out record_id (chunk ∷ chunks) = ground (
      arith,
      keep_without out record_id chunks,
      eq_iff out record_id,
      eq_iff chunk.record_id out,
      eq_iff chunk.record_id record_id,
    )

    keep_replaced :
        (config : RagConfig) (document : RagDocument) (record_id : String)
        (chunks : List IndexedChunk)
        → keep (is_of record_id) (
            keep (λ chunk. not (is_of document.record_id chunk)) chunks
            ++ chunks_of config document)
          ≡ (if document.record_id =ₜ record_id
              then chunks_of config document
              else keep (is_of record_id) chunks)
    unfolding chunks_of
    keep_replaced config document record_id chunks =
        let others = keep (λ chunk. not (is_of document.record_id chunk)) chunks in
        let new = chunks_of config document in
        let split = keep-append (is_of record_id) others new in
        let without = keep_without document.record_id record_id chunks in
        let each = chunks_from_of document 0 (slices_of config document) record_id in
        elim (Bool-cases (document.record_id =ₜ record_id)) [
          | inl same ↦
              rw same (
                split
                ∙ rw (without, keep_all (is_of record_id) new (each true same)) (rw same refl))
          | inr other ↦ rw other (
              split
              ∙ rw (without, keep_none (is_of record_id) new (each false other))
                  (rw (other, append-nil) refl))
        ]

    index_documents-latest :
        (config : RagConfig) (documents : List RagDocument) (chunks : List IndexedChunk)
        (indexed : ℕ)
        → (n : ℕ) × ((index_documents from_utf8_lossy provider now config documents chunks
              indexed).0
            ≡ ok n)
          × ((record_id : String)
              → keep
                  (is_of record_id)
                  (index_documents from_utf8_lossy provider now config documents chunks indexed).1
                ≡ latest config documents record_id (keep (is_of record_id) chunks))
    unfolding index_documents latest chunks_of
    index_documents-latest config [] chunks indexed = (indexed, refl, λ record_id. refl)
    index_documents-latest config (document ∷ documents) chunks indexed =
        elim (Bool-cases (is_indexable config document)) [
          | inr skipped ↦
              let e : index_documents from_utf8_lossy provider now config (document ∷ documents)
                    chunks indexed
                  ≡ index_documents from_utf8_lossy provider now config documents chunks indexed =
                rw (skipped, index_documents) refl in
              let (n, result, views) = index_documents-latest config documents chunks indexed in
              (
                n,
                ap (λ r. r.0) e ∙ result,
                λ record_id.
                    ap (λ r. keep (is_of record_id) r.1) e ∙ rw (skipped, latest) (views record_id),
              )
          | inl taken ↦
              let others = keep (λ chunk. not (is_of document.record_id chunk)) chunks in
              let slices = slices_of config document in
              let pushed = push_slices-chunks_from document 0 slices others indexed in
              let e : index_documents from_utf8_lossy provider now config (document ∷ documents)
                    chunks indexed
                  ≡ index_documents from_utf8_lossy provider now config documents
                      (others ++ chunks_of config document) (indexed + length slices) =
                rw (taken, index_documents)
                  (rw (ap (λ r. r.0) pushed, index_documents) (rw (ap (λ r. r.1) pushed) refl)) in
              let (n, result, views) =
                index_documents-latest config documents (others ++ chunks_of config document)
                  (indexed + length slices) in
              (
                n,
                ap (λ r. r.0) e ∙ result,
                λ record_id.
                    ap (λ r. keep (is_of record_id) r.1) e
                    ∙ (views record_id
                        ∙ rw (taken, latest)
                            (ap (latest config documents record_id)
                              (keep_replaced config document record_id chunks))),
              )
        ]

-- Indexing with a manager whose configuration has the index enabled succeeds if every text is
-- embedded, and then the chunks of each record are those of the
-- latest document of that record that is active, not secret-like and in an allowed scope, or, if
-- there is none, the ones from before: also if a later document of the record was skipped.
pub index-latest :
    (from_utf8_lossy : List ℕ → String) (now : ℕ) (embedded : String → Option Embedding)
    (documents : List RagDocument) (manager : LexicalRagManager) (record_id : String)
    → ((text : String) → embed_text manager.embedding_provider text ≡ ok (embedded text))
    → manager.config.enabled ≡ true
    → (n : ℕ) × ((index from_utf8_lossy now documents manager).0 ≡ ok n)
      × (keep (is_of record_id) (index from_utf8_lossy now documents manager).1.chunks
          ≡ latest from_utf8_lossy manager.embedding_provider now embedded manager.config documents
              record_id
              (keep (is_of record_id) manager.chunks))
unfolding index
index-latest from_utf8_lossy now embedded documents manager record_id embeds enabled =
    let (n, result, views) =
      index_documents-latest from_utf8_lossy manager.embedding_provider now embedded embeds
        manager.config documents manager.chunks 0 in
    let e = if_true {A = Result Error ℕ × LexicalRagManager} _ (ok 0, manager) enabled in
    (n, ap (λ r. r.0) e ∙ result, ap (λ r. keep (is_of record_id) r.1.chunks) e ∙ views record_id)
