-- ===== src/Domain/Approval.antt =====
-- `ApprovalEnvelope`, `new_id` and `change_set_operations_hash` of crates/amcp-domain/src/lib.rs.
-- The random part of a new id is an argument.
pub mod Issue
use Prim.Native.String.{◌++◌}
use agent_memory_control_pla.Prelude.{ℕ, String, Bool, true, false, not, ◌&&◌, leb, ◌=ₜ◌}
use agent_memory_control_pla.Prelude.Texts.{is_blank}
use agent_memory_control_pla.Domain.Change.{ChangeSet}
use agent_memory_control_pla.Domain.Foreign.{Foreign}

unfoldable pub new_id : String → String → String
new_id prefix uuid = prefix ++ ("_" ++ uuid)

pub record ApprovalEnvelope : Type 0 where
  pub approval_id : String
  pub change_set_id : String
  pub approved_by : String
  pub approved_at : ℕ
  pub expires_at : ℕ
  pub idempotency_key : String
  pub nonce : String
  pub one_time_use : Bool
  pub operations_hash : String
  pub approval_token : String

-- `{}` of a `bool`
abbrev pub show_bool : Bool → String
show_bool true = "true"
show_bool false = "false"

module _ (foreign : Foreign) where
  open foreign use {hmac_hex, sha256_hex, to_rfc3339, operations_to_vec}

  -- The token is computed from every other field.
  unfoldable pub signature : ApprovalEnvelope → String → String
  signature e secret = hmac_hex secret (
      e.approval_id
      ++ ("\n"
          ++ (e.change_set_id
              ++ ("\n"
                  ++ (e.approved_by
                      ++ ("\n"
                          ++ (to_rfc3339 e.approved_at
                              ++ ("\n"
                                  ++ (to_rfc3339 e.expires_at
                                      ++ ("\n"
                                          ++ (e.idempotency_key
                                              ++ ("\n"
                                                  ++ (e.nonce
                                                      ++ ("\n"
                                                          ++ (show_bool e.one_time_use
                                                            ++ ("\n"
                                                            ++ e.operations_hash))))))))))))))))

  -- The two arguments in front are the random parts of the approval's id and of the nonce.
  unfoldable pub issue :
      String → String → String → String → String → ℕ → ℕ → String → String → ApprovalEnvelope
  issue id_uuid nonce_uuid secret change_set approver approved expires key operations =
      let envelope : ApprovalEnvelope = record {
        approval_id = new_id "approval" id_uuid;
        change_set_id = change_set;
        approved_by = approver;
        approved_at = approved;
        expires_at = expires;
        idempotency_key = key;
        nonce = new_id "nonce" nonce_uuid;
        one_time_use = true;
        operations_hash = operations;
        approval_token = "";
      } in
      record envelope { approval_token = signature envelope secret }

  unfoldable pub is_valid : ApprovalEnvelope → String → ℕ → Bool
  is_valid e secret now =
      not (is_blank e.approved_by)
      && not (is_blank e.nonce)
      && e.one_time_use
      && leb e.approved_at now
      && leb now e.expires_at
      && e.approval_token =ₜ signature e secret

  unfoldable pub change_set_operations_hash : ChangeSet → String
  change_set_operations_hash s = sha256_hex (operations_to_vec s.provider_id s.scope s.operations)
