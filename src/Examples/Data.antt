-- ===== src/Examples/Data.antt =====
-- A host, its secret, an approval, a change set and events, with simple functions in place of the
-- hashes and of the JSON encoding.
use agent_memory_control_pla.Prelude.{
  ℕ, String, none, some, List, [], ◌∷◌, ◌==◌, leb, if◌then◌else◌,
}
use agent_memory_control_pla.Prelude.Int.{pos}
use agent_memory_control_pla.Domain.Kinds.{
  Scope, ArtifactRef, HostIdentity, ChangeStatus, ChangeOperationKind,
}
use agent_memory_control_pla.Domain.Change.{ChangeOperation, ChangeSet}
use agent_memory_control_pla.Domain.Foreign.{Foreign}
use agent_memory_control_pla.Domain.Approval.{ApprovalEnvelope, issue}
use agent_memory_control_pla.Domain.Records.{RuntimeEvent}
use agent_memory_control_pla.Agent.Auth.{AgentAuth}
use agent_memory_control_pla.Agent.Approvals.{Ledger, Request}
use agent_memory_control_pla.Agent.Store.{Stored}
use Prim.Native.String.{◌++◌}

abbrev pub first_byte : List ℕ → String
first_byte [] = "none"
first_byte (b ∷ bytes) = if b == 104 then "104" else if b == 7 then "7" else "other"

abbrev pub foreign : Foreign
foreign = record {
  hmac_hex = λ secret payload. secret ++ payload;
  sha256_hex = first_byte;
  to_rfc3339 = λ time. if leb time 5 then "early" else "late";
  operations_to_vec = λ provider scope operations. 7 ∷ [];
}

abbrev pub mac : HostIdentity
mac = record { host_id = "mac"; display_name = "Mac"; platform = "macos"; hostname = "mac.local" }

abbrev pub scope : Scope
scope = record { host_id = some "mac"; provider_id = none; project_id = none }

abbrev pub guidance : ArtifactRef
guidance = record {
  host_id = "mac";
  provider_id = "codex";
  native_id = "n";
  source_reference = "/h/AGENTS.md";
}

abbrev pub operation : ChangeOperation
operation = record {
  operation_id = "op-1";
  target = guidance;
  operation = ChangeOperationKind.create_text;
  expected_source_hash = none;
  before_hash = none;
  after_hash = some "104";
  replacement_content = some "hi";
  diff = "";
}

abbrev pub change_set : ChangeSet
change_set = record {
  change_set_id = "change-1";
  actor = "a";
  scope = scope;
  provider_id = "codex";
  reason = "r";
  evidence_ids = [];
  status = ChangeStatus.proposed;
  created_at = 1;
  updated_at = 1;
  operations = operation ∷ [];
}

-- Approvals of the change set, which differ in their ids and nonces.
abbrev pub approval : String → ApprovalEnvelope
approval id = issue foreign id id "token" "change-1" "ann" 1 9 "key" "7"

abbrev pub auth : AgentAuth
auth = record {
  bootstrap_token = "token";
  enrolled_credential = none;
  credential_expires_at = none;
  pairing_code = some "code";
  pairing_expires_at = 9;
  consumed_approval_ids = [];
}

abbrev pub ledger : Ledger
ledger = record { auth = auth; file = Stored.absent }

abbrev pub asks : String → Request
asks id = record {
  fault = none;
  now = 5;
  approval = approval id;
  secret = "token";
  expected_change_set_id = "change-1";
  operations_hash = "7";
}

abbrev pub event : String → RuntimeEvent
event id = record {
  event_id = id;
  host_id = "mac";
  provider_id = "codex";
  event_type = "inventory.completed";
  sequence = pos 0;
  payload_json = "{}";
  occurred_at = 1;
}
