-- ===== src/Domain/Foreign.antt =====
-- What crates/amcp-domain/src/lib.rs takes from other crates: HMAC-SHA256 and SHA-256 with their
-- digests in hexadecimal (hmac, sha2, hex), RFC 3339 printing (chrono) and the JSON encoding of the
-- part of a change set that an approval is bound to (serde_json).
use agent_memory_control_pla.Prelude.{ℕ, String, List}
use agent_memory_control_pla.Domain.Kinds.{Scope}
use agent_memory_control_pla.Domain.Change.{ChangeOperation}

pub record Foreign : Type 0 where
  -- the secret, then the payload
  pub hmac_hex : String → String → String
  pub sha256_hex : List ℕ → String
  pub to_rfc3339 : ℕ → String
  pub operations_to_vec : String → Scope → List ChangeOperation → List ℕ
