-- ===== src/Storage/Events/Delivered.antt =====
-- Runtime events that crates/amcp-storage/src/lib.rs gets more than once.
use mathlib.Core.Path.{subst}
use agent_memory_control_pla.Prelude.{
  ℕ, String, ◌≡◌, refl, sym, ◌∙◌, inl, inr, Option, none, List, [], ◌∷◌, All,
}
use agent_memory_control_pla.Prelude.Members.{All_map}
use agent_memory_control_pla.Prelude.Result.{
  ok, err, Result-cases, ok_injective, ok_not_err, bind_ok,
}
use agent_memory_control_pla.Domain.Records.{RuntimeEvent}
use agent_memory_control_pla.Agent.Store.{Error}
use agent_memory_control_pla.Rag.Config.{done_unless}
use agent_memory_control_pla.Storage.Catalog.{Catalog}
use agent_memory_control_pla.Storage.Ingest.{each}
use agent_memory_control_pla.Storage.Ingest.Committed.{done_unless_ok}
use agent_memory_control_pla.Storage.Events.{RuntimePayload, ingest_event, ingest_runtime_events}
use agent_memory_control_pla.Storage.Events.Turn.{IsKnown, Same, ingest_event-Turn}

module _ (from_str : String → Option RuntimePayload) where
  pub Known_after :
      (events : List RuntimeEvent) (s s' : ℕ × Catalog)
      → each (ingest_event from_str) events s ≡ ok s'
      → ((e : RuntimeEvent) → IsKnown s e → IsKnown s' e) × All (IsKnown s') events
  Known_after [] s s' h = (λ e k. subst (λ t. IsKnown t e) (ok_injective h) k, tt)
  Known_after (event ∷ events) s s' h =
      let (next, done, rest) =
        bind_ok (ingest_event from_str event s) (each (ingest_event from_str) events) s' h in
      let (now, kept, _) = ingest_event-Turn from_str event s next done in
      let (later, all) = Known_after events next s' rest in
      (λ e k. later e (kept e k), (later event now, all))

  pub Known_again :
      (events : List RuntimeEvent) (s s' : ℕ × Catalog)
      → each (ingest_event from_str) events s ≡ ok s'
      → All (IsKnown s) events
      → (s'.0 ≡ s.0) × Same s.1 s'.1
  Known_again [] s s' h k =
      subst (λ t. (t.0 ≡ s.0) × Same s.1 t.1) (ok_injective h) (refl, (refl, refl, refl))
  Known_again (event ∷ events) s s' h k =
      let (next, done, rest) =
        bind_ok (ingest_event from_str event s) (each (ingest_event from_str) events) s' h in
      let (_, kept, again) = ingest_event-Turn from_str event s next done in
      let (count, (table, artifacts, entries)) = again k.0 in
      let (count', (table', artifacts', entries')) =
        Known_again events next s' rest (All_map (λ e q. kept e q) events k.1) in
      (count' ∙ count, (table' ∙ table, artifacts' ∙ artifacts, entries' ∙ entries))

  loop_of :
      (restrict : Option Error) (events : List RuntimeEvent) (c : Catalog) (n : ℕ)
      → (ingest_runtime_events from_str none restrict events c).0 ≡ ok n
      → (s : ℕ × Catalog) × (each (ingest_event from_str) events (0, c) ≡ ok s)
        × (n ≡ s.0)
        × ((ingest_runtime_events from_str none restrict events c).1 ≡ s.1)
  unfolding ingest_runtime_events
  loop_of restrict events c n h = elim (Result-cases (each (ingest_event from_str) events (0, c))) [
    | inl (e, failed) ↦
        let refused : (ingest_runtime_events from_str none restrict events c).0 ≡ err e =
          rw (failed, ingest_runtime_events) refl in
        absurd (ok_not_err (sym h ∙ refused))
    | inr (s, done) ↦
        let result : (ingest_runtime_events from_str none restrict events c).0
            ≡ done_unless restrict s.0 =
          rw (done, ingest_runtime_events) refl in
        (
          s,
          done,
          sym (done_unless_ok restrict s.0 n (sym result ∙ h)),
          rw (done, ingest_runtime_events) refl,
        )
  ]

  -- Events that are delivered a second time, after a first time that succeeded, are not counted as
  -- inserted and change neither the table of events nor the artifacts and
  -- their search entries.
  pub ingest_runtime_events_again :
      (restrict : Option Error) (events : List RuntimeEvent) (c : Catalog) (m n : ℕ)
      → (ingest_runtime_events from_str none restrict events c).0 ≡ ok m
      → (ingest_runtime_events from_str none restrict events
          (ingest_runtime_events from_str none restrict events c).1).0
        ≡ ok n
      → (n ≡ 0)
        × Same
            (ingest_runtime_events from_str none restrict events c).1
            (ingest_runtime_events from_str none restrict events
              (ingest_runtime_events from_str none restrict events c).1).1
  ingest_runtime_events_again restrict events c m n first second =
      let (s, h, _, left) = loop_of restrict events c m first in
      let (t, k, count, left') =
        loop_of restrict events (ingest_runtime_events from_str none restrict events c).1 n
          second in
      let known =
        subst (λ x. All (IsKnown (0, x)) events) (sym left) (Known_after events (0, c) s h).1 in
      let (total, same) =
        Known_again events (0, (ingest_runtime_events from_str none restrict events c).1) t k
          known in
      (
        count ∙ total,
        subst (Same (ingest_runtime_events from_str none restrict events c).1) (sym left') same,
      )
