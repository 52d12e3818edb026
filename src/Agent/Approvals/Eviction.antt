-- ===== src/Agent/Approvals/Eviction.antt =====
-- The bound on the keys that `consume_approval` of crates/amcp-agent/src/main.rs remembers: what
-- happens to the oldest key when one more approval is accepted.
use agent_memory_control_pla.Prelude.{
  ℕ, suc, String, ◌≡◌, ◌≢◌, true, false, none, List, [], ◌∷◌, ◌++◌, arith, length, eq_iff,
  length-append, ◌-◌,
}
use agent_memory_control_pla.Prelude.Keyed.{keep_last}
use agent_memory_control_pla.Prelude.Result.{ok}
use agent_memory_control_pla.Prelude.Texts.{contains}
use agent_memory_control_pla.Domain.Foreign.{Foreign}
use agent_memory_control_pla.Agent.Store.{load_list}
use agent_memory_control_pla.Agent.Approvals.{
  replay_key, Ledger, max_consumed, Request, consume_approval,
}
use agent_memory_control_pla.Agent.Approvals.Binding.{
  Binds, consume_approval-Accepts, consume_approval-accept,
}

keep_last_full :
    (m : ℕ) (key new : String) (rest : List String)
    → suc (length rest) ≡ m
    → keep_last m (key ∷ (rest ++ new ∷ [])) ≡ rest ++ new ∷ []
keep_last_full m key new rest e =
    let n : length (rest ++ new ∷ []) ≡ m = omega (arith, length-append rest (new ∷ [])) in
    let one : suc m - m ≡ 1 = omega arith in rw (n, one) (ground arith)

contains-append_one :
    (rest : List String) (key new : String)
    → contains rest key ≡ false
    → key ≢ new
    → contains (rest ++ new ∷ []) key ≡ false
contains-append_one [] key new h ne = ground (arith, eq_iff new key)
contains-append_one (x ∷ rest) key new h ne = ground (arith, contains-append_one rest key new)

module _ (foreign : Foreign) (r again : Request) (s : Ledger) (rest : List String) where
  -- If the file holds 4096 keys, of which the oldest occurs once, an acceptance of an approval
  -- with another key forgets the oldest key, in the file and in memory: a request with the
  -- approval of that key, if it is bound to its change set, valid and its file can be written,
  -- is then accepted once more.
  pub evicted_accepted :
      load_list s.file ≡ ok (replay_key again.approval ∷ rest)
      → length rest ≡ 4095
      → contains rest (replay_key again.approval) ≡ false
      → replay_key again.approval ≢ replay_key r.approval
      → (consume_approval foreign r s).0 ≡ ok true
      → Binds foreign again
      → again.fault ≡ none
      → (consume_approval foreign again (consume_approval foreign r s).1).0 ≡ ok true
  evicted_accepted loaded full absent ne accepted binds written =
      let a = consume_approval-Accepts foreign r s accepted in
      let key = replay_key again.approval in
      let new = replay_key r.approval in
      let same : a.keys ≡ key ∷ rest = cc (a.loaded, loaded) in
      let left : keep_last max_consumed (a.keys ++ new ∷ []) ≡ rest ++ new ∷ [] =
        rw same (keep_last_full max_consumed key new rest (omega arith)) in
      let gone = contains-append_one rest key new absent ne in
      consume_approval-accept foreign again (consume_approval foreign r s).1 (rest ++ new ∷ [])
        binds (rw (a.memory_after, left) gone) (rw (a.file_after, left)) gone written
