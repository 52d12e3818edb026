-- ===== src/Agent/Events/Exact.antt =====
-- What exactly an append and an acknowledgement of crates/amcp-agent/src/main.rs change.
use mathlib.Core.List.{append-nil}
use agent_memory_control_pla.Prelude.{
  ℕ, ◌+◌, ◌≤◌, String, ◌≡◌, ◌⊎◌, inl, inr, refl, ◌∙◌, ap, Bool, not, ◌||◌, Option, none, List, [],
  ◌∷◌, ◌++◌, arith, length, keep, length-keep-le, inl, inr,
}
use agent_memory_control_pla.Prelude.Keyed.{keep_last_short, has_key}
use agent_memory_control_pla.Prelude.Result.{Result, ok, err}
use agent_memory_control_pla.Prelude.Texts.{contains}
use agent_memory_control_pla.Domain.Records.{RuntimeEvent}
use agent_memory_control_pla.Agent.Store.{Error, Stored, load_list}
use agent_memory_control_pla.Agent.Events.{
  Outbox, event_id, push_missing, max_queued, append_loaded, append_runtime_event_outbox,
  unacknowledged, acknowledge_write, acknowledge_loaded, acknowledge_runtime_events,
}
use agent_memory_control_pla.Agent.Events.Queue.{
  push_missing_prefix, has_key-push_missing, push_missing_twice,
}

append_write :
    (event : RuntimeEvent) (events : List RuntimeEvent) (file : Outbox) {queued : List RuntimeEvent}
    → load_list file ≡ ok queued
    → length (push_missing queued (event ∷ events)) ≤ max_queued
    → append_runtime_event_outbox none (event ∷ events) file
      ≡ (ok tt, Stored.holds (push_missing queued (event ∷ events)))
unfolding append_runtime_event_outbox append_loaded
append_write event events file {queued} loaded fits =
    rw (loaded, keep_last_short max_queued (push_missing queued (event ∷ events)) fits)

-- What a successful append of events that fit has done.
pub record Appended (queued events : List RuntimeEvent) (file : Outbox) : Type 0 where
  pub new : List RuntimeEvent
  pub loaded : load_list file ≡ ok (queued ++ new)
  pub ids :
      (k : String)
      → has_key event_id k (queued ++ new)
        ≡ (has_key event_id k queued || has_key event_id k events)
  pub retried : append_runtime_event_outbox none events file ≡ (ok tt, file)

-- An append that writes, of events that fit into the 256 places, keeps the queued events in front
-- and in order, leaves exactly the ids that were queued or are among the events, and changes
-- nothing when it is repeated.
pub append-Appended :
    (events : List RuntimeEvent) (file : Outbox) (queued : List RuntimeEvent)
    → load_list file ≡ ok queued
    → length (push_missing queued events) ≤ max_queued
    → Appended queued events (append_runtime_event_outbox none events file).1
unfolding append_runtime_event_outbox push_missing
append-Appended [] file queued loaded fits = record {
  new = [];
  loaded = rw append-nil loaded;
  ids = λ k. rw append-nil (ground arith);
  retried = refl;
}
append-Appended (event ∷ events) file queued loaded fits =
    let all = event ∷ events in
    let after = push_missing queued all in
    let (new, e) = push_missing_prefix all queued in
    let written = append_write event events file loaded fits in
    let again : push_missing after all ≡ after = push_missing_twice queued all in
    let repeated : append_runtime_event_outbox none all (Stored.holds after)
        ≡ (ok tt, Stored.holds after) =
      append_write event events (Stored.holds after) refl (rw again fits) ∙ rw again in
    rw written (record {
      new = new;
      loaded = ap ok e;
      ids = λ k. rw (← e) (has_key-push_missing k all queued);
      retried = repeated;
    })

keep_whole :
    (p : RuntimeEvent → Bool) (xs : List RuntimeEvent)
    → length (keep p xs) ≡ length xs
    → keep p xs ≡ xs
keep_whole p [] h = refl
keep_whole p (x ∷ xs) h = ground (arith, keep_whole p xs, length-keep-le p xs)

unacknowledged-nil : (xs : List RuntimeEvent) → unacknowledged [] xs ≡ xs
unacknowledged-nil [] = refl
unacknowledged-nil (x ∷ xs) = ap (◌∷◌ x) (unacknowledged-nil xs)

acknowledge_cases : (r : Result Error ℕ) → ((n : ℕ) × (r ≡ ok n)) ⊎ ((e : Error) × (r ≡ err e))
acknowledge_cases (ok n) = inl (n, refl)
acknowledge_cases (err e) = inr (e, refl)

acknowledge_each :
    (fault : Option Error) (ids : List String) (file : Outbox) (queued : List RuntimeEvent)
    → load_list file ≡ ok queued
    → let (result, file') = acknowledge_runtime_events fault ids file in
      ((n : ℕ)
        → result ≡ ok n
        → (load_list file' ≡ ok (unacknowledged ids queued))
          × (n + length (unacknowledged ids queued) ≡ length queued))
      × ((e : Error) → result ≡ err e → file' ≡ file)
unfolding acknowledge_runtime_events acknowledge_loaded acknowledge_write
acknowledge_each fault [] file queued loaded =
    (λ n h. rw unacknowledged-nil (loaded, ground arith), λ e h. refl)
acknowledge_each fault (id ∷ ids) file queued loaded =
    let p : RuntimeEvent → Bool = λ event. not (contains (id ∷ ids) event.event_id) in
    rw loaded (
      λ n h. ground (arith, keep_whole p queued, length-keep-le p queued, loaded),
      λ e h. ground (arith, loaded),
    )

-- An acknowledgement either succeeds and leaves exactly the queued events with other ids, in order,
-- and returns how many it removed, or it fails and leaves the file as it was.
pub acknowledge_exact :
    (fault : Option Error) (ids : List String) (file : Outbox) (queued : List RuntimeEvent)
    → load_list file ≡ ok queued
    → ((n : ℕ) × ((acknowledge_runtime_events fault ids file).0 ≡ ok n)
        × (load_list (acknowledge_runtime_events fault ids file).1 ≡ ok (unacknowledged ids queued))
        × (n + length (unacknowledged ids queued) ≡ length queued))
      ⊎ ((e : Error) × ((acknowledge_runtime_events fault ids file).0 ≡ err e)
          × ((acknowledge_runtime_events fault ids file).1 ≡ file))
acknowledge_exact fault ids file queued loaded =
    let (succeeds, fails) = acknowledge_each fault ids file queued loaded in
    elim (acknowledge_cases (acknowledge_runtime_events fault ids file).0) [
      | inl (n, done) ↦ let (left, count) = succeeds n done in inl (n, done, left, count)
      | inr (e, failed) ↦ inr (e, failed, fails e failed)
    ]
