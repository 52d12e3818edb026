-- ===== src/Agent/Auth.antt =====
-- `AgentAuth` of crates/amcp-agent/src/main.rs. The clock is an argument. The set of consumed
-- approvals is a list that is only asked for its members.
use agent_memory_control_pla.Prelude.{
  ℕ, ◌+◌, ◌*◌, max, String, Bool, true, false, ◌&&◌, Option, none, some, List, [], leb, ◌=ₜ◌,
  is_some_text, if◌then◌else◌,
}

pub record AgentAuth : Type 0 where
  pub bootstrap_token : String
  pub enrolled_credential : Option String
  pub credential_expires_at : Option ℕ
  pub pairing_code : Option String
  pub pairing_expires_at : ℕ
  pub consumed_approval_ids : List String

-- nanoseconds
abbrev pub second : ℕ
second = 1000000000

abbrev pub day : ℕ
day = 86400 * second

-- The code that is taken if none is configured, the first eight characters of a random id, is an
-- argument.
unfoldable pub new : ℕ → String → String → Option String → ℕ → AgentAuth
new now random_code token pairing_code timeout_seconds = record {
  bootstrap_token = token;
  enrolled_credential = none;
  credential_expires_at = none;
  pairing_code = some (elim pairing_code [ none ↦ random_code | some code ↦ code ]);
  pairing_expires_at = now + max timeout_seconds 1 * second;
  consumed_approval_ids = [];
}

abbrev pub not_expired : ℕ → Option ℕ → Bool
not_expired now none = false
not_expired now (some expires_at) = leb now expires_at

unfoldable pub accepts : AgentAuth → ℕ → Option String → Bool
accepts auth now none = false
accepts auth now (some token) =
    if token =ₜ auth.bootstrap_token
    then true
    else is_some_text auth.enrolled_credential token && not_expired now auth.credential_expires_at
