-- ===== src/Storage/Events/Turn.antt =====
-- What the turn of one runtime event does in crates/amcp-storage/src/lib.rs.
use mathlib.Core.Path.{subst}
use agent_memory_control_pla.Prelude.{
  any-append_first, any-append_last, ℕ, suc, String, ◌≡◌, refl, sym, ◌∙◌, ap, inl, inr, true, false,
  Option, none, some, [], ◌∷◌, ◌=ₜ◌, eq_iff, if◌then◌else◌, if_true, if_false, Bool-cases,
  Option-cases,
}
use agent_memory_control_pla.Prelude.Result.{ok, err, ◌>>=◌, ok_injective, ok_not_err, bind_ok}
use agent_memory_control_pla.Domain.Records.{RuntimeEvent}
use agent_memory_control_pla.Storage.Catalog.{Catalog, has_host, has_row}
use agent_memory_control_pla.Storage.Key
use agent_memory_control_pla.Storage.Events.{
  RuntimePayload, add_event, put_event, put_session, session_of, project_runtime_session,
  project_event, ingest_event,
}

-- The event is in the table.
abbrev pub IsKnown : ℕ × Catalog → RuntimeEvent → Type 0
IsKnown s event = has_row Key.event event s.1.runtime_events ≡ true

-- Neither the events nor the artifacts nor their search entries are changed.
abbrev pub Same : Catalog → Catalog → Type 0
Same c c' =
    (c'.runtime_events ≡ c.runtime_events)
    × (c'.artifacts ≡ c.artifacts)
    × (c'.search_content ≡ c.search_content)

project_thread :
    (event : RuntimeEvent) (payload : RuntimePayload) (thread_id : String) (c c' : Catalog)
    → (put_session (has_host c event.host_id) (session_of event payload thread_id) c.sessions
        >>= (λ rows. ok (record c { sessions = rows })))
      ≡ ok c'
    → Same c c'
project_thread event payload thread_id c c' h =
    let (rows, _, done) =
      bind_ok
        (put_session (has_host c event.host_id) (session_of event payload thread_id) c.sessions)
        (λ rows. ok (record c { sessions = rows })) c' h in
    subst (Same c) (ok_injective done) (refl, refl, refl)

project_keeps :
    (event : RuntimeEvent) (payload : Option RuntimePayload) (c c' : Catalog)
    → project_runtime_session event payload c ≡ ok c'
    → Same c c'
unfolding project_runtime_session session_of
project_keeps event none c c' h = absurd (ok_not_err (sym h))
project_keeps event (some payload) c c' h = elim (Option-cases payload.thread_id) [
  | inl missing ↦
      let same : project_runtime_session event (some payload) c ≡ ok c =
        rw (missing, project_runtime_session) refl in
      subst (Same c) (ok_injective (sym same ∙ h)) (refl, refl, refl)
  | inr (thread_id, named) ↦
      let put : project_runtime_session event (some payload) c ≡ (
          put_session (has_host c event.host_id) (session_of event payload thread_id) c.sessions
          >>= (λ rows. ok (record c { sessions = rows }))) =
        rw (named, project_runtime_session) refl in
      project_thread event payload thread_id c c' (sym put ∙ h)
]

true_not_false : true ≡ false → ⊥
true_not_false h = cc

added_self : (event : RuntimeEvent) → Key.event event event ≡ true
added_self event = (eq_iff event.event_id event.event_id).1 refl

module _ (from_str : String → Option RuntimePayload) where
  pub project_event_keeps :
      (event : RuntimeEvent) (c c' : Catalog) → project_event from_str event c ≡ ok c' → Same c c'
  unfolding project_event
  project_event_keeps event c c' h = elim (Bool-cases (event.event_type =ₜ "session.updated")) [
    | inl updated ↦
        project_keeps event (from_str event.payload_json) c c' (sym (if_true _ (ok c) updated) ∙ h)
    | inr other ↦
        subst (Same c)
          (ok_injective (
            sym (
              if_false (project_runtime_session event (from_str event.payload_json) c) (ok c) other)
            ∙ h))
          (refl, refl, refl)
  ]

  -- After the event's turn it is known, none of the others is lost, and if it was known nothing is new.
  abbrev pub Turn : RuntimeEvent → ℕ × Catalog → ℕ × Catalog → Type 0
  Turn event s s' =
      IsKnown s' event
      × ((e : RuntimeEvent) → IsKnown s e → IsKnown s' e)
      × (IsKnown s event → (s'.0 ≡ s.0) × Same s.1 s'.1)

  added_known :
      (event : RuntimeEvent) (c : Catalog) (e : RuntimeEvent)
      → Key.event event e ≡ true
      → has_row Key.event e (add_event from_str event c).runtime_events ≡ true
  unfolding add_event
  added_known event c e h = any-append_last (λ old. Key.event old e) event c.runtime_events h

  added_keeps :
      (event : RuntimeEvent) (c : Catalog) (e : RuntimeEvent)
      → has_row Key.event e c.runtime_events ≡ true
      → has_row Key.event e (add_event from_str event c).runtime_events ≡ true
  unfolding add_event
  added_keeps event c e h =
      any-append_first (λ old. Key.event old e) c.runtime_events (event ∷ []) h

  put_event-Turn :
      (event : RuntimeEvent) (s s' : ℕ × Catalog)
      → put_event from_str event s ≡ ok s'
      → Turn event s s'
  unfolding put_event
  put_event-Turn event (n, c) s' h = elim (Bool-cases (has_row Key.event event c.runtime_events)) [
    | inl known ↦
        subst (Turn event (n, c)) (ok_injective (sym (if_true (ok (n, c)) _ known) ∙ h))
          (known, λ e k. k, λ k. (refl, (refl, refl, refl)))
    | inr fresh ↦
        let missed : put_event from_str event (n, c) ≡ (
            if has_host c event.host_id
            then ok (suc n, add_event from_str event c)
            else err "FOREIGN KEY constraint failed") =
          if_false (ok (n, c)) _ fresh in
        elim (Bool-cases (has_host c event.host_id)) [
          | inl host ↦
              let added : put_event from_str event (n, c) ≡ ok (suc n, add_event from_str event c) =
                missed ∙ if_true (ok (suc n, add_event from_str event c)) _ host in
              subst (Turn event (n, c)) (ok_injective (sym added ∙ h)) (
                added_known event c event (added_self event),
                λ e k. added_keeps event c e k,
                λ k. absurd (true_not_false (sym k ∙ fresh)),
              )
          | inr missing ↦
              let refused : put_event from_str event (n, c) ≡ err "FOREIGN KEY constraint failed" =
                missed ∙ if_false (ok (suc n, add_event from_str event c)) _ missing in
              absurd (ok_not_err (sym h ∙ refused))
        ]
  ]

  pub ingest_event-Turn :
      (event : RuntimeEvent) (s s' : ℕ × Catalog)
      → ingest_event from_str event s ≡ ok s'
      → Turn event s s'
  unfolding ingest_event
  ingest_event-Turn event s s' h =
      let ((n, c), put, rest) = bind_ok (put_event from_str event s) _ s' h in
      let (c', projected, done) =
        bind_ok (project_event from_str event c) (λ c'. ok (n, c')) s' rest in
      let (now, kept, again) = put_event-Turn event s (n, c) put in
      let (events, artifacts, entries) = project_event_keeps event c c' projected in
      let moved : (e : RuntimeEvent) → IsKnown (n, c) e → IsKnown (n, c') e =
        λ e k. ap (has_row Key.event e) events ∙ k in
      subst (Turn event s) (ok_injective done) (
        moved event now,
        λ e k. moved e (kept e k),
        λ k.
            let (count, same) = again k in
            (count, (events ∙ same.0, artifacts ∙ same.1, entries ∙ same.2)),
      )
