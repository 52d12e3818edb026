-- ===== src/Rag/Store.antt =====
-- `PersistentRagIndex` of crates/amcp-rag/src/lib.rs, and `load_from_index` and `persist_to_index` of
-- the manager. A table is the list of its rows, which hold the values that are stored as JSON and as
-- text. A chunk's id is its record and its index, with a `#` before the digits. A fault is the error of
-- the database, if it fails, which rolls a transaction back; `harden` is the one of the file
-- permissions set afterwards.
pub mod Ids
pub mod Persist
pub mod Stale
pub mod Runs
use Prim.Native.Nat.{compare, Ordering}
use Prim.Native.String
use agent_memory_control_pla.Prelude.{
  ℕ, suc, ◌+◌, String, Bool, true, false, not, ◌&&◌, ◌||◌, Option, none, some, List, [], ◌∷◌, ◌++◌,
  any, ◌==◌, ◌=ₜ◌, is_some_text, if◌then◌else◌, length, keep, map,
}
use agent_memory_control_pla.Prelude.Result.{Result, ok, err}
use agent_memory_control_pla.Domain.Kinds.{Scope}
use agent_memory_control_pla.Agent.Store.{Error}
use agent_memory_control_pla.Prelude.Texts.{contains}
use agent_memory_control_pla.Rag.Types.{
  RagConfig, EmbeddingProvider, IndexedChunk, LexicalRagManager,
}
use agent_memory_control_pla.Rag.Config.{scope_allowed, is_empty, done_unless}
use agent_memory_control_pla.Rag.Index.{new, with_embedding_provider, is_of}
use agent_memory_control_pla.Rag.Retrieve.{then_with, is_greater}

-- A row of `rag_retrieval_runs`, whose query is always empty and whose correlation id is the run id.
pub record RetrievalRun : Type 0 where
  pub run_id : String
  pub scope : Scope
  pub embedding_provider : Option String
  pub embedding_model : Option String
  pub result_count : ℕ
  pub citation_count : ℕ
  pub duration_ms : ℕ
  pub policy_version : String
  pub created_at : ℕ

pub record PersistentRagIndex : Type 0 where
  pub chunks : List IndexedChunk
  pub runs : List RetrievalRun

abbrev pub has_id : IndexedChunk → IndexedChunk → Bool
has_id c d = c.record_id =ₜ d.record_id && c.chunk_index == d.chunk_index

-- The inserts of `replace_chunks`, into the rows so far.
unfoldable pub insert_chunks :
    List IndexedChunk → List IndexedChunk → Result Error (List IndexedChunk)
insert_chunks [] rows = ok rows
insert_chunks (chunk ∷ chunks) rows =
    if any (has_id chunk) rows
    then err "UNIQUE constraint failed: rag_chunks.chunk_id"
    else insert_chunks chunks (rows ++ chunk ∷ [])

unfoldable pub replace_chunks :
    Option Error
    → Option Error
    → List IndexedChunk
    → PersistentRagIndex
    → Result Error ℕ × PersistentRagIndex
replace_chunks (some e) harden chunks index = (err e, index)
replace_chunks none harden chunks index = elim (insert_chunks chunks []) [
  | err e ↦ (err e, index)
  | ok rows ↦ (done_unless harden (length chunks), record index { chunks = rows })
]

abbrev pub comes_after : IndexedChunk → IndexedChunk → Bool
comes_after c d =
    is_greater
      (then_with (String.compare c.record_id d.record_id) (compare c.chunk_index d.chunk_index))

-- `ORDER BY record_id, chunk_index`
unfoldable pub insert_row : IndexedChunk → List IndexedChunk → List IndexedChunk
insert_row c [] = c ∷ []
insert_row c (d ∷ ds) =
    let rest = insert_row c ds in if comes_after c d then d ∷ rest else c ∷ d ∷ ds

unfoldable pub in_order : List IndexedChunk → List IndexedChunk
unfolding insert_row
in_order [] = []
in_order (c ∷ cs) = insert_row c (in_order cs)

unfoldable pub load_chunks : Option Error → PersistentRagIndex → Result Error (List IndexedChunk)
unfolding in_order
load_chunks none index = ok (in_order index.chunks)
load_chunks (some e) index = err e

abbrev pub manager_of : RagConfig → Option EmbeddingProvider → LexicalRagManager
manager_of config none = new config
manager_of config (some provider) = with_embedding_provider config provider

abbrev pub is_current : Option EmbeddingProvider → IndexedChunk → Bool
is_current none chunk = false
is_current (some provider) chunk =
    is_some_text chunk.embedding_provider provider.descriptor.id
    && is_some_text chunk.embedding_model provider.descriptor.model

-- A chunk without an embedding that another provider or model made.
unfoldable pub refreshed : Option EmbeddingProvider → IndexedChunk → IndexedChunk
refreshed provider chunk =
    if is_current provider chunk
    then chunk
    else record chunk { embedding = none; embedding_provider = none; embedding_model = none }

unfoldable pub load_from_index :
    Option Error
    → RagConfig
    → Option EmbeddingProvider
    → PersistentRagIndex
    → Result Error LexicalRagManager
unfolding load_chunks
load_from_index fault config provider index = elim (load_chunks fault index) [
  | err e ↦ err e
  | ok chunks ↦
      let manager = manager_of config provider in
      ok (record manager {
        chunks =
            map (refreshed provider)
              (keep (λ chunk. scope_allowed manager.config chunk.scope) chunks);
      })
]

unfoldable pub persist_to_index :
    Option Error
    → Option Error
    → LexicalRagManager
    → PersistentRagIndex
    → Result Error ℕ × PersistentRagIndex
unfolding replace_chunks
persist_to_index fault harden manager index = replace_chunks fault harden manager.chunks index

-- `current_sources.get(record_id)`
abbrev pub source_of : List (String × String) → String → Option String
source_of [] record_id = none
source_of ((current_id, source_hash) ∷ sources) record_id =
    let rest = source_of sources record_id in
    if current_id =ₜ record_id then some source_hash else rest

abbrev pub is_stale : List (String × String) → IndexedChunk → Bool
is_stale sources chunk = not (is_some_text (source_of sources chunk.record_id) chunk.source_hash)

-- `collect::<HashSet<_>>`
abbrev pub to_set : List String → List String
to_set [] = []
to_set (x ∷ xs) = let rest = to_set xs in if contains rest x then rest else x ∷ rest

-- `DELETE FROM rag_chunks WHERE record_id = ?1`, for each record.
unfoldable pub delete_records : List String → List IndexedChunk → ℕ → ℕ × List IndexedChunk
delete_records [] rows removed = (removed, rows)
delete_records (record_id ∷ record_ids) rows removed =
    delete_records record_ids (keep (λ chunk. not (is_of record_id chunk)) rows)
      (removed + length (keep (is_of record_id) rows))

unfoldable pub stale_records : List (String × String) → List IndexedChunk → List String
stale_records sources chunks =
    to_set (map (λ chunk. chunk.record_id) (keep (is_stale sources) chunks))

unfoldable pub invalidate_stale_sources :
    Option Error
    → Option Error
    → List (String × String)
    → PersistentRagIndex
    → Result Error ℕ × PersistentRagIndex
unfolding load_chunks delete_records stale_records
invalidate_stale_sources fault harden sources index = elim (load_chunks fault index) [
  | err e ↦ (err e, index)
  | ok chunks ↦
      if is_empty (stale_records sources chunks)
      then (ok 0, index)
      else (let (removed, rows) = delete_records (stale_records sources chunks) index.chunks 0 in
          (done_unless harden removed, record index { chunks = rows }))
]

-- Both counts of the receipt.
unfoldable pub clear_derived_data :
    Option Error → Option Error → PersistentRagIndex → Result Error (ℕ × ℕ) × PersistentRagIndex
clear_derived_data (some e) harden index = (err e, index)
clear_derived_data none harden index =
    (done_unless harden (length index.chunks, length index.runs), record { chunks = []; runs = [] })
