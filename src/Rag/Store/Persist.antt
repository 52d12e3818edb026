-- ===== src/Rag/Store/Persist.antt =====
-- Writing the chunks of a manager of crates/amcp-rag/src/lib.rs to the index, and loading them again.
use agent_memory_control_pla.Prelude.{
  ◌≡◌, refl, sym, ◌∙◌, ap, Bool, false, ◌&&◌, Option, none, some, List, [], ◌∷◌, ◌++◌, arith, any,
  eq_iff, length, keep, map, keep-keep, keep_same, length-keep-map,
}
use mathlib.Core.List.{append_assoc, append-nil}
use agent_memory_control_pla.Prelude.Result.{ok}
use agent_memory_control_pla.Agent.Store.{Error}
use agent_memory_control_pla.Rag.Types.{
  RagConfig, EmbeddingProvider, IndexedChunk, LexicalRagManager,
}
use agent_memory_control_pla.Rag.Config.{scope_allowed, done_unless}
use agent_memory_control_pla.Domain.Kinds.{Scope}
use agent_memory_control_pla.Rag.Index.{new, with_embedding_provider}
use agent_memory_control_pla.Rag.Store.{
  PersistentRagIndex, has_id, insert_chunks, replace_chunks, in_order, load_chunks, refreshed,
  load_from_index, persist_to_index, manager_of,
}
use agent_memory_control_pla.Rag.Store.Stale.{length-in_order}
use agent_memory_control_pla.Rag.Store.Ids.{DistinctIds}

any_middle :
    (p : IndexedChunk → Bool) (cs : List IndexedChunk) (d : IndexedChunk) (ds : List IndexedChunk)
    → any p (cs ++ d ∷ ds) ≡ false
    → p d ≡ false
any_middle p [] d ds h = ground arith
any_middle p (c ∷ cs) d ds h = any_middle p cs d ds (ground arith)

-- An id that stands behind a list of distinct ones is not in it.
any-apart :
    (cs : List IndexedChunk) (d : IndexedChunk) (ds : List IndexedChunk)
    → DistinctIds (cs ++ d ∷ ds)
    → any (has_id d) cs ≡ false
any-apart [] d ds h = refl
any-apart (c ∷ cs) d ds h = ground (
  arith,
  any_middle (has_id c) cs d ds h.0,
  any-apart cs d ds h.1,
  eq_iff c.record_id d.record_id,
  eq_iff d.record_id c.record_id,
)

insert_chunks-DistinctIds :
    (chunks rows : List IndexedChunk)
    → DistinctIds (rows ++ chunks)
    → insert_chunks chunks rows ≡ ok (rows ++ chunks)
unfolding insert_chunks
insert_chunks-DistinctIds [] rows h = rw append-nil refl
insert_chunks-DistinctIds (chunk ∷ chunks) rows h =
    let moved = append_assoc rows (chunk ∷ []) chunks in
    rw (any-apart rows chunk chunks h, insert_chunks)
      (insert_chunks-DistinctIds chunks (rows ++ chunk ∷ []) (rw moved h) ∙ ap ok moved)

replace_chunks-DistinctIds :
    (harden : Option Error) (chunks : List IndexedChunk) (stored : PersistentRagIndex)
    → DistinctIds chunks
    → replace_chunks none harden chunks stored
      ≡ (done_unless harden (length chunks), record stored { chunks = chunks })
unfolding replace_chunks
replace_chunks-DistinctIds harden chunks stored h =
    rw (insert_chunks-DistinctIds chunks [] h, replace_chunks) refl

manager_of_allowed :
    (config : RagConfig) (provider : Option EmbeddingProvider) (scope : Scope)
    → scope_allowed (manager_of config provider).config scope ≡ scope_allowed config scope
unfolding scope_allowed new with_embedding_provider
manager_of_allowed config none scope = refl
manager_of_allowed config (some provider) scope = refl

length-loaded :
    (p q r : IndexedChunk → Bool) (f : IndexedChunk → IndexedChunk) (cs : List IndexedChunk)
    → ((c : IndexedChunk) → q c ≡ r c)
    → length (keep p (map f (keep q (in_order cs)))) ≡ length (keep p (map f (keep r cs)))
length-loaded p q r f cs same =
    let wanted : IndexedChunk → Bool = λ c. p (f c) in
    length-keep-map p f (keep q (in_order cs))
    ∙ (ap length (keep-keep wanted q (in_order cs))
        ∙ (length-in_order (λ c. q c && wanted c) cs
            ∙ (sym (ap length (keep-keep wanted q cs))
                ∙ (ap (λ xs. length (keep wanted xs)) (keep_same q r same cs)
                    ∙ sym (length-keep-map p f (keep r cs))))))

-- A manager whose chunk ids are distinct is stored in full, and a manager loaded from the index has the
-- stored chunks of the allowed scopes, each as often, where the embeddings of another provider or
-- model are taken out.
pub persist-load :
    (harden : Option Error) (manager : LexicalRagManager) (stored : PersistentRagIndex)
    (config : RagConfig) (provider : Option EmbeddingProvider)
    → DistinctIds manager.chunks
    → ((persist_to_index none harden manager stored).0 ≡ done_unless harden (length manager.chunks))
      × ((loaded : LexicalRagManager) × (load_from_index none config provider
              (persist_to_index none harden manager stored).1
            ≡ ok loaded)
          × ((p : IndexedChunk → Bool)
              → length (keep p loaded.chunks)
                ≡ length (
                    keep p (
                      map
                        (refreshed provider)
                        (keep (λ c. scope_allowed config c.scope) manager.chunks)))))
unfolding persist_to_index replace_chunks load_from_index load_chunks
persist-load harden manager stored config provider h =
    let persisted : persist_to_index none harden manager stored
        ≡ (done_unless harden (length manager.chunks), record stored { chunks = manager.chunks }) =
      replace_chunks-DistinctIds harden manager.chunks stored h in
    rw persisted (
      refl,
      (
        _,
        refl,
        λ p.
            length-loaded p (λ c. scope_allowed (manager_of config provider).config c.scope)
              (λ c. scope_allowed config c.scope) (refreshed provider) manager.chunks
              (λ c. manager_of_allowed config provider c.scope),
      ),
    )
