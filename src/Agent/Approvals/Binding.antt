-- ===== src/Agent/Approvals/Binding.antt =====
-- When `consume_approval` of crates/amcp-agent/src/main.rs accepts an approval, and what it records.
use agent_memory_control_pla.Prelude.{
  String, ◌≡◌, ◌≢◌, refl, ◌↔◌, inl, inr, true, false, Option, none, some, List, [], ◌∷◌, ◌++◌,
  arith, Bool-cases, eq_iff,
}
use agent_memory_control_pla.Prelude.Keyed.{keep_last}
use agent_memory_control_pla.Prelude.Result.{Result, ok, err}
use agent_memory_control_pla.Prelude.Texts.{is_blank, contains}
use agent_memory_control_pla.Domain.Foreign.{Foreign}
use agent_memory_control_pla.Domain.Approval.{is_valid}
use agent_memory_control_pla.Agent.Store.{Error, Stored, load_list}
use agent_memory_control_pla.Agent.Approvals.{
  replay_key, Ledger, max_consumed, remember, Request, commit, check_file, is_bound,
  consume_approval,
}

-- The approval names the change set and the operations that are asked for, and is valid now.
pub record Binds (foreign : Foreign) (r : Request) : Type 0 where
  pub named : is_blank r.approval.change_set_id ≡ false
  pub change_set : r.approval.change_set_id ≡ r.expected_change_set_id
  pub operations : r.approval.operations_hash ≡ r.operations_hash
  pub valid : is_valid foreign r.approval r.secret r.now ≡ true

pub is_bound_iff : (foreign : Foreign) (r : Request) → (is_bound foreign r ≡ true) ↔ Binds foreign r
unfolding is_bound
is_bound_iff foreign r = (
  λ h. ground (
    arith,
    eq_iff r.approval.change_set_id r.expected_change_set_id,
    eq_iff r.approval.operations_hash r.operations_hash,
  ),
  λ b. ground (
    arith,
    b,
    eq_iff r.approval.change_set_id r.expected_change_set_id,
    eq_iff r.approval.operations_hash r.operations_hash,
  ),
)

-- What an accepting call starts from and leaves behind.
pub record Accepts (foreign : Foreign) (r : Request) (s s' : Ledger) : Type 0 where
  pub binds : Binds foreign r
  pub not_in_memory : contains s.auth.consumed_approval_ids (replay_key r.approval) ≡ false
  pub keys : List String
  pub loaded : load_list s.file ≡ ok keys
  pub not_in_file : contains keys (replay_key r.approval) ≡ false
  pub written : r.fault ≡ none
  pub file_after :
      s'.file ≡ Stored.holds (keep_last max_consumed (keys ++ replay_key r.approval ∷ []))
  pub memory_after :
      s'.auth ≡ remember s.auth (keep_last max_consumed (keys ++ replay_key r.approval ∷ []))

check_file_accepts :
    (fault : Option Error) (key : String) (s : Ledger) (loaded : Result Error (List String))
    → (check_file fault key s loaded).0 ≡ ok true
    → (keys : List String) × (loaded ≡ ok keys)
      × (contains keys key ≡ false)
      × (fault ≡ none)
      × ((check_file fault key s loaded).1.file
          ≡ Stored.holds (keep_last max_consumed (keys ++ key ∷ [])))
      × ((check_file fault key s loaded).1.auth
          ≡ remember s.auth (keep_last max_consumed (keys ++ key ∷ [])))
unfolding check_file commit
check_file_accepts fault key s (err e) h = cc
check_file_accepts none key s (ok keys) h =
    (keys, refl, ground arith, refl, ground arith, ground arith)
check_file_accepts (some e) key s (ok keys) h = ground arith

module _ (foreign : Foreign) (r : Request) (s : Ledger) where
  -- If a call accepts, then the approval binds the change set and the operations that were asked for
  -- and was valid at that time, its key was neither in memory nor in the readable file, the write
  -- succeeded, and the file and the memory both hold the newest 4096 of the old keys and the new one.
  pub consume_approval-Accepts :
      (consume_approval foreign r s).0 ≡ ok true
      → Accepts foreign r s (consume_approval foreign r s).1
  unfolding consume_approval
  consume_approval-Accepts h = elim (Bool-cases (is_bound foreign r)) [
    | inr bad ↦ absurd (ground arith)
    | inl good ↦ elim (Bool-cases (contains s.auth.consumed_approval_ids (replay_key r.approval))) [
      | inl seen ↦ absurd (ground arith)
      | inr fresh ↦
          let checked : (check_file r.fault (replay_key r.approval) s (load_list s.file)).0
              ≡ ok true =
            ground arith in
          let (keys, loaded, absent, written, file, memory) =
            check_file_accepts r.fault (replay_key r.approval) s (load_list s.file) checked in
          record {
            binds = (is_bound_iff foreign r).0 good;
            not_in_memory = fresh;
            keys = keys;
            loaded = loaded;
            not_in_file = absent;
            written = written;
            file_after = rw (good, fresh) file;
            memory_after = rw (good, fresh) memory;
          }
    ]
  ]

  -- A call accepts if the approval binds the request, its key is neither in memory nor in the file,
  -- the file can be read and the write succeeds.
  pub consume_approval-accept :
      (keys : List String)
      → Binds foreign r
      → contains s.auth.consumed_approval_ids (replay_key r.approval) ≡ false
      → load_list s.file ≡ ok keys
      → contains keys (replay_key r.approval) ≡ false
      → r.fault ≡ none
      → (consume_approval foreign r s).0 ≡ ok true
  unfolding consume_approval check_file commit
  consume_approval-accept keys b fresh loaded absent written =
      let good : is_bound foreign r ≡ true = (is_bound_iff foreign r).1 b in
      rw (good, fresh, loaded, written) (ground arith)

  -- A call that does not accept leaves the file as it was, and forgets no key of the memory.
  pub consume_approval_refused :
      (key : String)
      → (consume_approval foreign r s).0 ≢ ok true
      → ((consume_approval foreign r s).1.file ≡ s.file)
        × (contains s.auth.consumed_approval_ids key ≡ true
            → contains (consume_approval foreign r s).1.auth.consumed_approval_ids key ≡ true)
  unfolding consume_approval check_file commit
  consume_approval_refused key h = (ground arith, λ m. ground arith)
