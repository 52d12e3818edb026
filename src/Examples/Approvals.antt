-- ===== src/Examples/Approvals.antt =====
-- Runs of `consume_approval` and of the approvals themselves.
use agent_memory_control_pla.Prelude.{
  ℕ, zero, suc, String, ◌≡◌, ◌≢◌, refl, ◌&&◌, leb, true, false, not, List, [], ◌∷◌, ◌=ₜ◌, arith,
  eq_iff, length,
}
use agent_memory_control_pla.Prelude.Result.{ok}
use agent_memory_control_pla.Prelude.Texts.{contains, is_blank}
use agent_memory_control_pla.Domain.Approval.{issue, is_valid, signature, new_id}
use agent_memory_control_pla.Domain.Approval.Issue.{is_valid-issue}
use agent_memory_control_pla.Agent.Store.{Stored}
use agent_memory_control_pla.Agent.Approvals.{
  Ledger, consume_approval, replay_key, is_bound, check_file, commit,
}
use agent_memory_control_pla.Agent.Approvals.Binding.{Binds}
use agent_memory_control_pla.Agent.Approvals.Replay.{after, restart, consume, accepted_once}
use agent_memory_control_pla.Agent.Approvals.Eviction.{evicted_accepted}
use agent_memory_control_pla.Examples.Data.{foreign, approval, auth, ledger, asks}

accepted : (consume_approval foreign (asks "1") ledger).0 ≡ ok true
unfolding consume_approval is_bound replay_key check_file commit is_valid signature issue new_id
    is_blank
accepted = refl

-- The agent restarts, and another approval is accepted in between.
accepted_once_example :
    (consume_approval foreign (asks "1") (
      after foreign
        (restart auth ∷ consume (asks "2") ∷ [])
        (consume_approval foreign (asks "1") ledger).1)).0
    ≢ ok true
accepted_once_example =
    accepted_once foreign (asks "1") (asks "1") ledger (restart auth ∷ consume (asks "2") ∷ [])
      accepted (omega arith) refl

is_valid-issue_example :
    is_valid foreign (issue foreign "1" "1" "token" "change-1" "ann" 1 9 "key" "7") "token" 9
    ≡ (not (is_blank "ann") && leb 1 9 && leb 9 9)
is_valid-issue_example = is_valid-issue foreign "1" "1" "token" "change-1" "ann" 1 9 "key" "7" 9

copies : ℕ → List String
copies zero = []
copies (suc n) = "k" ∷ copies n

length-copies : (n : ℕ) → length (copies n) ≡ n
unfolding copies
length-copies zero = refl
length-copies (suc n) = omega (arith, length-copies n)

new_among_copies : (n : ℕ) (key : String) → ("k" =ₜ key) ≡ false → contains (copies n) key ≡ false
unfolding copies
new_among_copies zero key h = refl
new_among_copies (suc n) key h = ground (arith, h, new_among_copies n key h)

-- The file holds the key of an approval and 4095 newer ones.
abbrev full : List String → Ledger
full rest = record { auth = auth; file = Stored.holds (replay_key (approval "1") ∷ rest) }

accepted_full :
    (rest : List String)
    → contains rest (replay_key (approval "2")) ≡ false
    → (consume_approval foreign (asks "2") (full rest)).0 ≡ ok true
unfolding consume_approval is_bound replay_key check_file commit is_valid signature issue new_id
    is_blank
accepted_full rest new = rw (new, check_file) refl

bound : Binds foreign (asks "1")
unfolding is_valid signature issue new_id is_blank
bound = record { named = refl; change_set = refl; operations = refl; valid = refl }

apart : replay_key (approval "1") ≢ replay_key (approval "2")
unfolding replay_key issue new_id
apart = λ e.
    let h = (eq_iff (replay_key (approval "1")) (replay_key (approval "2"))).1 e in
    absurd (ground arith)

unlike : (("k" =ₜ replay_key (approval "1")) ≡ false) × (("k" =ₜ replay_key (approval "2")) ≡ false)
unfolding replay_key issue new_id
unlike = (refl, refl)

evicted_accepted_example :
    (consume_approval foreign
      (asks "1")
      (consume_approval foreign (asks "2") (full (copies 4095))).1).0
    ≡ ok true
evicted_accepted_example =
    evicted_accepted foreign (asks "2") (asks "1") (full (copies 4095)) (copies 4095) refl
      (length-copies 4095) (new_among_copies 4095 (replay_key (approval "1")) unlike.0) apart
      (accepted_full (copies 4095) (new_among_copies 4095 (replay_key (approval "2")) unlike.1))
      bound refl
