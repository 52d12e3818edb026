-- ===== src/Examples/Streams.antt =====
-- Runs of an event stream.
use agent_memory_control_pla.Prelude.{◌≡◌, refl, false, none, List, [], ◌∷◌, arith, All}
use agent_memory_control_pla.Prelude.Keyed.{Distinct}
use agent_memory_control_pla.Prelude.Texts.{contains}
use agent_memory_control_pla.Agent.Store.{Stored}
use agent_memory_control_pla.Agent.Events.{Outbox, event_id}
use agent_memory_control_pla.Agent.Events.Queue.{IsOutbox}
use agent_memory_control_pla.Agent.Stream.{EventStreamConfig, Stream, Input, Round, start, step}
use agent_memory_control_pla.Agent.Stream.Flow.{IsStream, start-IsStream, step-IsStream}
use agent_memory_control_pla.Agent.Stream.Once.{Turn, sent_by, sent_by-Distinct}
use agent_memory_control_pla.Examples.Data.{auth, event}

abbrev config : EventStreamConfig
config = record {
  stream_id = "event-stream_u";
  after_event_id = none;
  scope = none;
  max_in_flight = 1;
  heartbeat = 250;
}

abbrev round : Round
round = record { wall = 5; now = 5; auth = auth; fault = none; uuid = "u" }

abbrev fresh : Stream
fresh = record { cursor = none; in_flight = []; sent_ids = []; last_heartbeat = 0 }

abbrev queue : Outbox
queue = Stored.holds (event "a" ∷ event "b" ∷ [])

queue-IsOutbox : IsOutbox queue
queue-IsOutbox = record { distinct = (refl, (refl, tt)); bounded = omega arith }

step-IsStream_example :
    IsStream config (step (λ json. none) config round Input.tick (start config 0) queue).stream
step-IsStream_example =
    step-IsStream (λ json. none) config round Input.tick (start config 0) queue
      (start-IsStream config 0)

abbrev turns : List Turn
turns = (round, Input.tick, queue) ∷ (round, Input.tick, queue) ∷ []

sent_by-Distinct_example :
    Distinct event_id (sent_by (λ json. none) config turns fresh)
    × All (λ e. contains [] e.event_id ≡ false) (sent_by (λ json. none) config turns fresh)
sent_by-Distinct_example =
    sent_by-Distinct (λ json. none) config turns fresh (queue-IsOutbox, (queue-IsOutbox, tt))
