-- ===== src/Storage/Events/Consistent.antt =====
-- The artifacts and their search entries once runtime events of crates/amcp-storage/src/lib.rs have
-- marked some.
use mathlib.Core.Path.{subst}
use agent_memory_control_pla.Prelude.{
  ℕ, suc, String, ◌≡◌, refl, sym, ◌∙◌, inl, inr, Bool, Option, none, some, List, [], ◌∷◌, arith,
  ◌=ₜ◌, map, if_true, Bool-cases,
}
use agent_memory_control_pla.Prelude.Result.{
  ok, err, Result-cases, ok_injective, ok_not_err, bind_ok,
}
use agent_memory_control_pla.Domain.Records.{RuntimeEvent}
use agent_memory_control_pla.Agent.Store.{Error}
use agent_memory_control_pla.Storage.Catalog.{
  Catalog, ArtifactRow, SearchRow, has_artifact_id, is_version, has_row, has_host,
}
use agent_memory_control_pla.Storage.Key
use agent_memory_control_pla.Storage.Ingest.{each}
use agent_memory_control_pla.Storage.Ingest.Keeps.{each_keeps}
use agent_memory_control_pla.Storage.Ingest.Consistent.{count, IsConsistent}
use agent_memory_control_pla.Storage.Paths.{
  is_absolute_source_root, is_safe_relative_source_path, join_source_reference,
}
use agent_memory_control_pla.Storage.Events.{
  RuntimePayload, mark, mark_paths, mark_below, mark_payload, add_event, put_event, project_event,
  ingest_event, ingest_runtime_events,
}
use agent_memory_control_pla.Storage.Events.Turn.{project_event_keeps}

module _ (event : RuntimeEvent) where
  count-mark :
      (q : ArtifactRow → Bool) (source_reference : String) (rows : List ArtifactRow)
      → ((row : ArtifactRow) → q (mark event source_reference row) ≡ q row)
      → count q (map (mark event source_reference) rows) ≡ count q rows
  count-mark q source_reference [] h = refl
  count-mark q source_reference (row ∷ rows) h =
      ground (arith, h row, count-mark q source_reference rows h)

  mark-IsConsistent :
      (source_reference : String) (rows : List ArtifactRow) (entries : List SearchRow)
      → IsConsistent rows entries
      → IsConsistent (map (mark event source_reference) rows) entries
  mark-IsConsistent source_reference rows entries h =
      let ids : (x : String)
          → count (has_artifact_id x) (map (mark event source_reference) rows)
            ≡ count (has_artifact_id x) rows =
        λ x. count-mark (has_artifact_id x) source_reference rows (λ row. ground arith) in
      record {
        ids = λ x. omega (arith, ids x, h.ids x);
        entries = λ x. h.entries x ∙ sym (ids x);
        versions = λ host_id provider_id native_id source_hash. omega (
          arith,
          h.versions host_id provider_id native_id source_hash,
          count-mark (is_version host_id provider_id native_id source_hash) source_reference rows
              (λ row. ground arith),
        );
      }

  mark_paths-IsConsistent :
      (root : String) (paths : List String) (rows : List ArtifactRow) (entries : List SearchRow)
      → IsConsistent rows entries
      → IsConsistent (mark_paths event root paths rows) entries
  mark_paths-IsConsistent root [] rows entries h = h
  mark_paths-IsConsistent root (path ∷ paths) rows entries h =
      mark_paths-IsConsistent root paths _ entries
        (elim (Bool-cases (is_safe_relative_source_path path)) [
          | inl safe ↦ rw safe (mark-IsConsistent (join_source_reference root path) rows entries h)
          | inr unsafe ↦ rw unsafe h
        ])

  mark_below-IsConsistent :
      (root : Option String) (paths : Option (List String)) (rows : List ArtifactRow)
      (entries : List SearchRow)
      → IsConsistent rows entries
      → IsConsistent (mark_below event root paths rows) entries
  mark_below-IsConsistent none paths rows entries h = h
  mark_below-IsConsistent (some root) none rows entries h = h
  mark_below-IsConsistent (some root) (some paths) rows entries h =
      elim (Bool-cases (is_absolute_source_root root)) [
        | inl absolute ↦ rw absolute (mark_paths-IsConsistent root paths rows entries h)
        | inr relative ↦ rw relative h
      ]

  mark_payload-IsConsistent :
      (payload : Option RuntimePayload) (rows : List ArtifactRow) (entries : List SearchRow)
      → IsConsistent rows entries
      → IsConsistent (mark_payload event payload rows) entries
  mark_payload-IsConsistent none rows entries h = h
  mark_payload-IsConsistent (some payload) rows entries h =
      mark_below-IsConsistent payload.root payload.paths rows entries h

module _ (from_str : String → Option RuntimePayload) where
  abbrev IsTidy : ℕ × Catalog → Type 0
  IsTidy s = IsConsistent s.1.artifacts s.1.search_content

  add_event-IsTidy :
      (event : RuntimeEvent) (n m : ℕ) (c : Catalog)
      → IsTidy (n, c)
      → IsTidy (m, add_event from_str event c)
  unfolding add_event
  add_event-IsTidy event n m c h =
      let marked =
        mark_payload-IsConsistent event (from_str event.payload_json) c.artifacts c.search_content
          h in
      elim (Bool-cases (event.event_type =ₜ "source.changed")) [
        | inl changed ↦ rw changed marked
        | inr other ↦ rw other h
      ]

  put_event-IsTidy :
      (event : RuntimeEvent) (s s' : ℕ × Catalog)
      → put_event from_str event s ≡ ok s'
      → IsTidy s
      → IsTidy s'
  unfolding put_event
  put_event-IsTidy event (n, c) s' h k =
      elim (Bool-cases (has_row Key.event event c.runtime_events)) [
        | inl known ↦ subst IsTidy (ok_injective (sym (if_true (ok (n, c)) _ known) ∙ h)) k
        | inr fresh ↦ elim (Bool-cases (has_host c event.host_id)) [
          | inl host ↦
              let added : put_event from_str event (n, c) ≡ ok (suc n, add_event from_str event c) =
                rw fresh (rw host refl) in
              subst IsTidy (ok_injective (sym added ∙ h)) (add_event-IsTidy event n (suc n) c k)
          | inr missing ↦
              let refused : put_event from_str event (n, c) ≡ err "FOREIGN KEY constraint failed" =
                rw fresh (rw missing refl) in
              absurd (ok_not_err (sym h ∙ refused))
        ]
      ]

  ingest_event-IsTidy :
      (event : RuntimeEvent) (s s' : ℕ × Catalog)
      → ingest_event from_str event s ≡ ok s'
      → IsTidy s
      → IsTidy s'
  unfolding ingest_event
  ingest_event-IsTidy event s s' h k =
      let ((n, c), put, rest) = bind_ok (put_event from_str event s) _ s' h in
      let (c', projected, done) =
        bind_ok (project_event from_str event c) (λ c'. ok (n, c')) s' rest in
      let (events, artifacts, entries) = project_event_keeps from_str event c c' projected in
      let kept = put_event-IsTidy event s (n, c) put k in
      subst IsTidy (ok_injective done) (
        subst (λ rows. IsConsistent rows c'.search_content) (sym artifacts)
          (subst (IsConsistent c.artifacts) (sym entries) kept))

  pub ingest_runtime_events-IsTidy :
      (fault restrict : Option Error) (events : List RuntimeEvent) (c : Catalog)
      → IsConsistent c.artifacts c.search_content
      → IsConsistent
          (ingest_runtime_events from_str fault restrict events c).1.artifacts
          (ingest_runtime_events from_str fault restrict events c).1.search_content
  unfolding ingest_runtime_events
  ingest_runtime_events-IsTidy (some e) restrict events c h = h
  ingest_runtime_events-IsTidy none restrict events c h =
      elim (Result-cases (each (ingest_event from_str) events (0, c))) [
        | inl (e, failed) ↦ rw (failed, ingest_runtime_events) h
        | inr (s, done) ↦
            rw (done, ingest_runtime_events)
              (each_keeps IsTidy (ingest_event from_str) ingest_event-IsTidy events (0, c) s done h)
      ]
