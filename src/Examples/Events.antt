-- ===== src/Examples/Events.antt =====
-- Runs of the outbox: appends, acknowledgements and pages.
use agent_memory_control_pla.Prelude.{
  ℕ, ◌+◌, ◌≤◌, ◌≡◌, refl, ◌⊎◌, true, false, none, some, List, [], ◌∷◌, arith, length, All, drop,
}
use agent_memory_control_pla.Prelude.Members.{In}
use agent_memory_control_pla.Prelude.Keyed.{Distinct}
use agent_memory_control_pla.Prelude.Result.{ok, err}
use agent_memory_control_pla.Prelude.Texts.{contains}
use agent_memory_control_pla.Domain.Records.{RuntimeEvent}
use agent_memory_control_pla.Agent.Store.{Error, Stored, load_list}
use agent_memory_control_pla.Agent.Events.{
  Outbox, event_id, push_missing, unacknowledged, start_of, append_runtime_event_outbox,
  acknowledge_runtime_events, stream_page_of, event_matches_scope,
}
use agent_memory_control_pla.Agent.Events.Queue.{IsOutbox, append-IsOutbox}
use agent_memory_control_pla.Agent.Events.Exact.{Appended, append-Appended, acknowledge_exact}
use agent_memory_control_pla.Agent.Events.Paging.{read_all, read_all_complete, stream_page_fits}
use agent_memory_control_pla.Examples.Data.{event, scope}

abbrev queued : List RuntimeEvent
queued = event "a" ∷ event "b" ∷ []

abbrev outbox : Outbox
outbox = Stored.holds queued

queued-Distinct : Distinct event_id queued
queued-Distinct = (refl, (refl, tt))

outbox-IsOutbox : IsOutbox outbox
outbox-IsOutbox = record { distinct = queued-Distinct; bounded = omega arith }

append-IsOutbox_example :
    IsOutbox (append_runtime_event_outbox none (event "b" ∷ event "c" ∷ []) outbox).1
append-IsOutbox_example = append-IsOutbox none (event "b" ∷ event "c" ∷ []) outbox outbox-IsOutbox

fits : length (push_missing queued (event "b" ∷ event "c" ∷ [])) ≤ 256
unfolding push_missing
fits = omega arith

append-Appended_example :
    Appended queued
      (event "b" ∷ event "c" ∷ [])
      (append_runtime_event_outbox none (event "b" ∷ event "c" ∷ []) outbox).1
append-Appended_example = append-Appended (event "b" ∷ event "c" ∷ []) outbox queued refl fits

acknowledge_exact_example :
    ((n : ℕ) × ((acknowledge_runtime_events none ("a" ∷ []) outbox).0 ≡ ok n)
      × (load_list (acknowledge_runtime_events none ("a" ∷ []) outbox).1
          ≡ ok (unacknowledged ("a" ∷ []) queued))
      × (n + length (unacknowledged ("a" ∷ []) queued) ≡ 2))
    ⊎ ((e : Error) × ((acknowledge_runtime_events none ("a" ∷ []) outbox).0 ≡ err e)
        × ((acknowledge_runtime_events none ("a" ∷ []) outbox).1 ≡ outbox))
acknowledge_exact_example = acknowledge_exact none ("a" ∷ []) outbox queued refl

read_all_complete_example : read_all 3 1 none queued ≡ some queued
read_all_complete_example = read_all_complete 1 queued queued-Distinct

stream_page_fits_example :
    (length (stream_page_of (λ json. none) (some "a") (some scope) [] 1 queued) ≤ 1)
    × All
        (λ e.
          (contains [] e.event_id ≡ false)
          × (event_matches_scope (λ json. none) e (some scope) ≡ true))
        (stream_page_of (λ json. none) (some "a") (some scope) [] 1 queued)
    × ((length (stream_page_of (λ json. none) (some "a") (some scope) [] 1 queued) ≡ 1)
        ⊎ All
            (λ e.
              (contains [] e.event_id ≡ true)
              ⊎ ((event_matches_scope (λ json. none) e (some scope) ≡ false)
                  ⊎ In e (stream_page_of (λ json. none) (some "a") (some scope) [] 1 queued)))
            (drop (start_of (some "a") queued) queued))
stream_page_fits_example = stream_page_fits (λ json. none) (some "a") (some scope) [] 1 queued
