-- ===== src/Agent/Requests/Enrollment.antt =====
-- The enrollment of crates/amcp-agent/src/main.rs: what the credential that it returns is good for,
-- and what the agent asks for before a second enrollment.
use agent_memory_control_pla.Prelude.{
  ℕ, ◌+◌, ◌*◌, ◌≤◌, String, ◌≡◌, refl, true, ◌&&◌, ◌||◌, none, some, arith, leb, ◌=ₜ◌, eq_iff,
}
use agent_memory_control_pla.Domain.Approval.{new_id}
use agent_memory_control_pla.Protocol.{RequestMethod, RequestEnvelope, protocol_version}
use agent_memory_control_pla.Agent.Auth.{accepts, day}
use agent_memory_control_pla.Agent.Requests.Context.{Env, Agent}
use agent_memory_control_pla.Agent.Requests.{authenticated, on_enroll, dispatch, process_request}

module _ {W : Type 0} (env : Env W) where
  abbrev credential : String
  credential = new_id "agent-credential" env.uuid

  -- After an enrollment the agent accepts two tokens: the bootstrap token at any time, and the
  -- credential that it has just made, up to 365 days after the enrollment.
  pub on_enroll-accepts :
      (s : Agent W) (now : ℕ) (token : String)
      → accepts (on_enroll env s).1.ledger.auth now (some token) ≡ (
          token =ₜ s.ledger.auth.bootstrap_token
          || (new_id "agent-credential" env.uuid =ₜ token && leb now (env.now + 365 * day)))
  unfolding on_enroll accepts
  on_enroll-accepts s now token = ground arith

-- After an enrollment and until the pairing code expires, a request of the right version to
-- enroll that has neither a pairing code nor a token is let through: its new credential takes the
-- place of the first one, and is accepted.
pub enrolled_without_code :
    {W : Type 0} (env later : Env W) (s : Agent W) (request : RequestEnvelope) (host_id : String)
    → request.protocol_version ≡ protocol_version
    → request.method ≡ RequestMethod.enroll host_id
    → request.token ≡ none
    → request.pairing_code ≡ none
    → later.now ≤ s.ledger.auth.pairing_expires_at
    → ((process_request later request (on_enroll env s).1).1.ledger.auth.enrolled_credential
        ≡ some (new_id "agent-credential" later.uuid))
      × (accepts
            (process_request later request (on_enroll env s).1).1.ledger.auth
            later.now
            (some (new_id "agent-credential" later.uuid))
          ≡ true)
unfolding process_request authenticated dispatch on_enroll accepts
enrolled_without_code env later s request host_id version method token code early =
    let fresh = new_id "agent-credential" later.uuid in
    let in_time : leb later.now s.ledger.auth.pairing_expires_at ≡ true = ground arith in
    let same : fresh =ₜ fresh ≡ true = (eq_iff fresh fresh).1 refl in
    let lasts : leb later.now (later.now + 365 * day) ≡ true = ground arith in
    rw (version, method, code, in_time) (refl, rw (same, lasts) (ground arith))
