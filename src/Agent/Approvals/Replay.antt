-- ===== src/Agent/Approvals/Replay.antt =====
-- An approval that `consume_approval` of crates/amcp-agent/src/main.rs has accepted is not accepted
-- again, also after a restart of the agent, while fewer than 4096 requests have come since.
use agent_memory_control_pla.Prelude.{
  ℕ, zero, suc, ◌+◌, ◌-◌, ◌≤◌, String, ◌≡◌, ◌≢◌, refl, ap, ◌⊎◌, inl, inr, Bool, true, false, List,
  [], ◌∷◌, ◌++◌, arith, length, drop, ltb, eq_iff, Bool-cases, length-append,
}
use agent_memory_control_pla.Prelude.Keyed.{keep_last}
use agent_memory_control_pla.Prelude.Result.{Result, ok, err}
use agent_memory_control_pla.Prelude.Texts.{contains}
use agent_memory_control_pla.Domain.Foreign.{Foreign}
use agent_memory_control_pla.Agent.Auth.{AgentAuth}
use agent_memory_control_pla.Agent.Store.{Error, load_list}
use agent_memory_control_pla.Agent.Approvals.{
  replay_key, Ledger, max_consumed, Request, consume_approval,
}
use agent_memory_control_pla.Agent.Approvals.Binding.{
  consume_approval-Accepts, consume_approval_refused,
}
use mathlib.Core.List.{append_assoc}

-- What happens to the ledger: a request, or a restart, which keeps nothing but the file.
pub data Event : Type 0 where
  consume : Request → Event
  restart : AgentAuth → Event

module _ (foreign : Foreign) where
  unfoldable pub after_event : Event → Ledger → Ledger
  after_event (consume r) s = (consume_approval foreign r s).1
  after_event (restart auth) s = record s { auth = auth }

  unfoldable pub after : List Event → Ledger → Ledger
  after [] s = s
  after (e ∷ events) s = after events (after_event e s)

-- The key stands in the file, with at most `n` newer keys behind it.
pub record Held (key : String) (n : ℕ) (s : Ledger) : Type 0 where
  pub older : List String
  pub newer : List String
  pub loaded : load_list s.file ≡ ok (older ++ key ∷ newer)
  pub few : length newer ≤ n

drop_older {ℓ} :
    {A : Type ℓ} (n : ℕ) (xs ys : List A) → n ≤ length xs → drop n (xs ++ ys) ≡ drop n xs ++ ys
drop_older zero xs ys h = refl
drop_older (suc n) [] ys h = absurd (omega arith)
drop_older (suc n) (x ∷ xs) ys h = drop_older n xs ys (omega arith)

-- Keeping the newest keys keeps a key that has few enough behind it.
keep_last_older :
    (m : ℕ) (older rest : List String)
    → length rest ≤ m
    → (kept : List String) × (keep_last m (older ++ rest) ≡ kept ++ rest)
keep_last_older m older rest h = elim (Bool-cases (ltb m (length (older ++ rest)))) [
  | inr fits ↦ (older, rw fits)
  | inl over ↦ (
    drop (length (older ++ rest) - m) older,
    rw over (drop_older _ older rest (omega (arith, length-append older rest))),
  )
]

contains_middle :
    (older newer : List String) (key : String) → contains (older ++ key ∷ newer) key ≡ true
contains_middle [] newer key = ground (arith, eq_iff key key)
contains_middle (x ∷ older) newer key = ground (arith, contains_middle older newer key)

accept_cases : (x : Result Error Bool) → (x ≡ ok true) ⊎ (x ≢ ok true)
accept_cases (ok true) = inl refl
accept_cases (ok false) = inr (λ h. cc)
accept_cases (err e) = inr (λ h. cc)

module _ (foreign : Foreign) (key : String) where
  Held-consume :
      (n : ℕ) (r : Request) (s : Ledger)
      → suc n ≤ 4095
      → Held key n s
      → Held key (suc n) (consume_approval foreign r s).1
  Held-consume n r s room h = elim (accept_cases (consume_approval foreign r s).0) [
    | inr refused ↦ record {
      older = h.older;
      newer = h.newer;
      loaded = rw (consume_approval_refused foreign r s key refused).0 h.loaded;
      few = omega (arith, h.few);
    }
    | inl accepted ↦
        let a = consume_approval-Accepts foreign r s accepted in
        let rest : List String = key ∷ (h.newer ++ replay_key r.approval ∷ []) in
        let (kept, e) =
          keep_last_older max_consumed h.older rest
            (omega (arith, h.few, length-append h.newer (replay_key r.approval ∷ []))) in
        let same : a.keys ≡ h.older ++ key ∷ h.newer = cc (a.loaded, h.loaded) in
        record {
          older = kept;
          newer = h.newer ++ replay_key r.approval ∷ [];
          loaded = rw (a.file_after, same) (rw append_assoc (ap ok e));
          few = omega (arith, h.few, length-append h.newer (replay_key r.approval ∷ []));
        }
  ]

  pub Held-after :
      (events : List Event) (n : ℕ) (s : Ledger)
      → n + length events ≤ 4095
      → Held key n s
      → Held key (n + length events) (after foreign events s)
  unfolding after after_event
  Held-after [] n s room h = record {
    older = h.older;
    newer = h.newer;
    loaded = h.loaded;
    few = omega (arith, h.few);
  }
  Held-after (consume r ∷ events) n s room h =
      let rest =
        Held-after events (suc n) (consume_approval foreign r s).1 (omega arith)
          (Held-consume n r s (omega arith) h) in
      record {
        older = rest.older;
        newer = rest.newer;
        loaded = rest.loaded;
        few = omega (arith, rest.few);
      }
  Held-after (restart auth ∷ events) n s room h =
      let rest =
        Held-after events n (record s { auth = auth }) (omega arith)
          (record { older = h.older; newer = h.newer; loaded = h.loaded; few = h.few }) in
      record {
        older = rest.older;
        newer = rest.newer;
        loaded = rest.loaded;
        few = omega (arith, rest.few);
      }

  pub Held-refuses :
      (n : ℕ) (r : Request) (s : Ledger)
      → Held key n s
      → replay_key r.approval ≡ key
      → (consume_approval foreign r s).0 ≢ ok true
  Held-refuses n r s h e accepted =
      let a = consume_approval-Accepts foreign r s accepted in
      let same : a.keys ≡ h.older ++ key ∷ h.newer = cc (a.loaded, h.loaded) in
      cc (a.not_in_file, same, e, contains_middle h.older h.newer key)

module _ (foreign : Foreign) where
  pub Held-of_accepted :
      (r : Request) (s : Ledger)
      → (consume_approval foreign r s).0 ≡ ok true
      → Held (replay_key r.approval) 0 (consume_approval foreign r s).1
  Held-of_accepted r s accepted =
      let a = consume_approval-Accepts foreign r s accepted in
      let (kept, e) =
        keep_last_older max_consumed a.keys (replay_key r.approval ∷ []) (omega arith) in
      record { older = kept; newer = []; loaded = rw a.file_after (ap ok e); few = omega arith }

  -- Once a request is accepted, no request with an approval of the same id and nonce is accepted
  -- after any at most 4095 requests and restarts of the agent, whatever its secret, time and hash.
  pub accepted_once :
      (r later : Request) (s : Ledger) (events : List Event)
      → (consume_approval foreign r s).0 ≡ ok true
      → length events ≤ 4095
      → replay_key later.approval ≡ replay_key r.approval
      → (consume_approval foreign later (after foreign events (consume_approval foreign r s).1)).0
        ≢ ok true
  accepted_once r later s events accepted room same =
      Held-refuses foreign (replay_key r.approval) (0 + length events) later
        (after foreign events (consume_approval foreign r s).1)
        (Held-after foreign (replay_key r.approval) events 0 (consume_approval foreign r s).1
          (omega arith) (Held-of_accepted r s accepted))
        same
