-- ===== src/Domain/Approval/Issue.antt =====
-- An issued approval, seen by the check of crates/amcp-domain/src/lib.rs.
use Prim.Native.String.append
use text.Mathlib.TextPositions.{eq_refl}
use agent_memory_control_pla.Prelude.{ℕ, String, ◌≡◌, refl, false, not, ◌&&◌, arith, leb}
use agent_memory_control_pla.Prelude.Texts.{is_blank}
use agent_memory_control_pla.Domain.Foreign.{Foreign}
use agent_memory_control_pla.Domain.Approval.{new_id, signature, issue, is_valid}

-- The prefix of a nonce is not white space.
nonce-not_blank : (uuid : String) → is_blank (new_id "nonce" uuid) ≡ false
unfolding new_id is_blank
nonce-not_blank uuid = rw append.cons refl

module _ (foreign : Foreign) where
  -- An approval issued under a secret is accepted under that secret at exactly the times from
  -- `approved_at` to `expires_at`, both included, if its approver is not blank, and never otherwise.
  pub is_valid-issue :
      (id_uuid nonce_uuid secret change_set approver : String) (approved expires : ℕ)
      (key operations : String) (now : ℕ)
      → is_valid foreign
          (issue foreign id_uuid nonce_uuid secret change_set approver approved expires key
            operations)
          secret
          now
        ≡ (not (is_blank approver) && leb approved now && leb now expires)
  unfolding is_valid issue signature
  is_valid-issue id_uuid nonce_uuid secret change_set approver approved expires key operations now =
      simp (nonce-not_blank nonce_uuid, eq_refl) (ground arith)
