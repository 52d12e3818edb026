-- ===== src/Agent/Approvals.antt =====
-- `consume_approval` of crates/amcp-agent/src/main.rs: an approval is accepted once. The keys of
-- the accepted ones are kept in memory and in `approval-replay.json`.
pub mod Binding
pub mod Replay
pub mod Eviction
use Prim.Native.String.{◌++◌}
use mathlib.Core.List
use agent_memory_control_pla.Prelude.{
  ℕ, String, Bool, true, false, not, ◌||◌, Option, none, some, List, [], ◌∷◌, ◌=ₜ◌, if◌then◌else◌,
}
use agent_memory_control_pla.Prelude.Keyed.{keep_last}
use agent_memory_control_pla.Prelude.Result.{Result, ok, err}
use agent_memory_control_pla.Prelude.Texts.{is_blank, contains}
use agent_memory_control_pla.Domain.Foreign.{Foreign}
use agent_memory_control_pla.Domain.Approval.{ApprovalEnvelope, is_valid}
use agent_memory_control_pla.Agent.Store.{Error, Stored, load_list}
use agent_memory_control_pla.Agent.Auth.{AgentAuth}

-- `format!("{}:{}", approval_id, nonce)`
unfoldable pub replay_key : ApprovalEnvelope → String
replay_key approval = approval.approval_id ++ (":" ++ approval.nonce)

-- The state that the function shares with other requests: `auth` and the file.
pub record Ledger : Type 0 where
  pub auth : AgentAuth
  pub file : Stored (List String)

abbrev pub max_consumed : ℕ
max_consumed = 4096

abbrev pub remember : AgentAuth → List String → AgentAuth
remember auth keys = record auth { consumed_approval_ids = keys }

-- The arguments of a call. `fault` is the error of the file's replacement, if it fails.
pub record Request : Type 0 where
  pub fault : Option Error
  pub now : ℕ
  pub approval : ApprovalEnvelope
  pub secret : String
  pub expected_change_set_id : String
  pub operations_hash : String

-- The new list of keys is written, and then becomes the set in memory.
unfoldable pub commit : Option Error → List String → Ledger → Result Error Bool × Ledger
commit none consumed s =
    (ok true, record { auth = remember s.auth consumed; file = Stored.holds consumed })
commit (some e) consumed s = (err e, s)

-- The keys of the file are searched, and a key that is found there is put into the set too.
unfoldable pub check_file :
    Option Error → String → Ledger → Result Error (List String) → Result Error Bool × Ledger
check_file fault key s (err e) = (err e, s)
check_file fault key s (ok consumed) =
    if contains consumed key
    then (ok false, record s { auth = remember s.auth (key ∷ s.auth.consumed_approval_ids) })
    else commit fault (keep_last max_consumed (List.◌++◌ consumed (key ∷ []))) s

module _ (foreign : Foreign) where
  -- The first test: the approval is for this change set and these operations, and valid now.
  unfoldable pub is_bound : Request → Bool
  is_bound r = not (
      is_blank r.approval.change_set_id
      || not (r.approval.change_set_id =ₜ r.expected_change_set_id)
      || not (r.approval.operations_hash =ₜ r.operations_hash)
      || not (is_valid foreign r.approval r.secret r.now))

  unfoldable pub consume_approval : Request → Ledger → Result Error Bool × Ledger
  consume_approval r s =
      if not (is_bound r)
      then (ok false, s)
      else if contains s.auth.consumed_approval_ids (replay_key r.approval)
      then (ok false, s)
      else check_file r.fault (replay_key r.approval) s (load_list s.file)
