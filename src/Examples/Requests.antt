-- ===== src/Examples/Requests.antt =====
-- Runs of `process_request`: a provider whose world is a number, which an approved change raises.
use agent_memory_control_pla.Prelude.{
  ℕ, suc, ◌+◌, ◌*◌, String, ◌≡◌, ◌≢◌, refl, inl, inr, ◌&&◌, ◌||◌, leb, ◌=ₜ◌, true, false, Option,
  none, some, [], ◌∷◌, arith,
}
use agent_memory_control_pla.Prelude.Result.{ok}
use agent_memory_control_pla.Prelude.Texts.{is_blank}
use agent_memory_control_pla.Domain.Kinds.{ChangeStatus}
use agent_memory_control_pla.Domain.Approval.{
  issue, is_valid, signature, new_id, change_set_operations_hash,
}
use agent_memory_control_pla.Domain.Change.{ChangeReceipt}
use agent_memory_control_pla.Protocol.{RequestMethod, RequestEnvelope, protocol_version}
use agent_memory_control_pla.Providers
use agent_memory_control_pla.Providers.{ProviderAdapter, inventory_adapter}
use agent_memory_control_pla.Agent.Store.{Stored}
use agent_memory_control_pla.Agent.Auth.{accepts, day}
use agent_memory_control_pla.Agent.Approvals.{
  consume_approval, replay_key, is_bound, check_file, commit,
}
use agent_memory_control_pla.Agent.Requests.Context.{Env, Agent, deny}
use agent_memory_control_pla.Agent.Requests.Change.{guarded, on_apply}
use agent_memory_control_pla.Agent.Requests.{authenticated, dispatch, process_request, on_enroll}
use agent_memory_control_pla.Agent.Requests.Guards.{Approves, process_request_refused}
use agent_memory_control_pla.Agent.Requests.Applied.{within, run, approved_once}
use agent_memory_control_pla.Agent.Requests.Enrollment.{on_enroll-accepts, enrolled_without_code}
use agent_memory_control_pla.Examples.Data.{foreign, mac, change_set, approval, auth, ledger}

abbrev receipt : ChangeReceipt
receipt = record {
  change_set_id = "change-1";
  status = ChangeStatus.applied;
  applied_at = 5;
  backup_references = [];
  before_hashes = [];
  after_hashes = [];
  message = "";
}

abbrev counter : ProviderAdapter ℕ
counter = record (inventory_adapter "u" "codex" "Counter" "1") {
  apply_change = λ change_set backup_dir world. (ok receipt, suc world);
}

abbrev env : Env ℕ
env = record {
  foreign = foreign;
  failure_payload = λ e. e;
  host = mac;
  now = 5;
  uuid = "u";
  registry = counter ∷ [];
  agent_version = "1";
  backup_dir = "/b";
  credential_fault = none;
  approval_fault = none;
  event_fault = none;
  cache_fault = none;
  outbox_fault = none;
}

abbrev agent : Agent ℕ
agent = record {
  ledger = ledger;
  events = Stored.absent;
  caches = λ id. Stored.absent;
  outboxes = λ id. Stored.absent;
  world = 0;
}

abbrev asking : RequestMethod → Option String → RequestEnvelope
asking method token = record {
  protocol_version = protocol_version;
  request_id = "q";
  correlation_id = "c";
  host_id = none;
  deadline_ms = none;
  idempotency_key = none;
  pairing_code = none;
  method = method;
  token = token;
}

abbrev apply : String → RequestEnvelope
apply id = asking (RequestMethod.apply_change change_set (approval id)) (some "token")

abbrev turn : Env ℕ × RequestEnvelope
turn = (env, asking RequestMethod.heartbeat (some "token"))

approves_first : Approves (within foreign env) (apply "1").token (apply "1").method agent
unfolding consume_approval is_bound replay_key check_file commit is_valid signature issue new_id
    is_blank change_set_operations_hash
approves_first = record {
  change_set = change_set;
  approval = approval "1";
  called = inl refl;
  here = refl;
  accepted = refl;
}

approves_second :
    Approves
      (within foreign env)
      (apply "2").token
      (apply "2").method
      (run foreign (turn ∷ []) (process_request (within foreign env) (apply "1") agent).1)
unfolding run process_request authenticated dispatch on_apply guarded accepts consume_approval
    is_bound replay_key check_file commit is_valid signature issue new_id is_blank
    change_set_operations_hash Providers.get
approves_second = record {
  change_set = change_set;
  approval = approval "2";
  called = inl refl;
  here = refl;
  accepted = refl;
}

authenticated_first : authenticated (within foreign env) (apply "1") agent.ledger.auth ≡ true
unfolding authenticated accepts
authenticated_first = refl

approved_once_example : replay_key approves_second.approval ≢ replay_key approves_first.approval
approved_once_example =
    approved_once foreign env env (apply "1") (apply "2") agent (turn ∷ []) approves_first refl
      authenticated_first (omega arith) approves_second

-- The approved request changes the world.
raised : (process_request env (apply "1") agent).1.world ≡ 1
unfolding process_request authenticated dispatch on_apply guarded accepts consume_approval is_bound
    replay_key check_file commit is_valid signature issue new_id is_blank change_set_operations_hash
    Providers.get
raised = refl

stranger : authenticated env (asking RequestMethod.shutdown (some "other")) auth ≡ false
unfolding authenticated accepts
stranger = refl

process_request_refused_example :
    ((process_request env (asking RequestMethod.shutdown (some "other")) agent).1 ≡ agent)
    × ((process_request env (asking RequestMethod.shutdown (some "other")) agent).0.result
        ≡ deny "unauthorized" "invalid Agent token")
process_request_refused_example =
    process_request_refused env (asking RequestMethod.shutdown (some "other")) agent (inr stranger)

on_enroll-accepts_example :
    accepts (on_enroll env agent).1.ledger.auth 6 (some "agent-credential_u") ≡ (
      "agent-credential_u" =ₜ "token"
      || (new_id "agent-credential" "u" =ₜ "agent-credential_u" && leb 6 (5 + 365 * day)))
on_enroll-accepts_example = on_enroll-accepts env agent 6 "agent-credential_u"

enrolled_without_code_example :
    ((process_request env
        (asking (RequestMethod.enroll "c") none)
        (on_enroll env agent).1).1.ledger.auth.enrolled_credential
      ≡ some (new_id "agent-credential" "u"))
    × (accepts
          (process_request env
            (asking (RequestMethod.enroll "c") none)
            (on_enroll env agent).1).1.ledger.auth
          5
          (some (new_id "agent-credential" "u"))
        ≡ true)
enrolled_without_code_example =
    enrolled_without_code env env agent (asking (RequestMethod.enroll "c") none) "c" refl refl refl
      refl (omega arith)
