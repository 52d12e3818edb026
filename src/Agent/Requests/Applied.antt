-- ===== src/Agent/Requests/Applied.antt =====
-- Sequences of requests of crates/amcp-agent/src/main.rs: an approval lets one request change the
-- world.
use agent_memory_control_pla.Prelude.{
  ℕ, ◌+◌, ◌≤◌, suc, String, ◌≡◌, ◌≢◌, refl, ◌∙◌, ap, ◌⊎◌, inl, inr, Bool, true, Option, some, List,
  [], ◌∷◌, arith, ◌==◌, is_some_text, Bool-cases, length, eq_iff, is_some_text→eq,
}
use agent_memory_control_pla.Prelude.Result.{Result, ok, err}
use agent_memory_control_pla.Domain.Foreign.{Foreign}
use agent_memory_control_pla.Domain.Change.{ChangeSet, ChangeReceipt}
use agent_memory_control_pla.Domain.Kinds.{Scope}
use agent_memory_control_pla.Domain.Approval.{ApprovalEnvelope}
use agent_memory_control_pla.Protocol.{RequestMethod, RequestEnvelope, protocol_version}
use agent_memory_control_pla.Providers.{ProviderAdapter}
use agent_memory_control_pla.Agent.Store.{Error}
use agent_memory_control_pla.Agent.Approvals.{Ledger, consume_approval, replay_key}
use agent_memory_control_pla.Agent.Approvals.Replay.{
  Event, consume, restart, after_event, after, Held, Held-after, Held-refuses, Held-of_accepted,
}
use agent_memory_control_pla.Agent.Requests.Context.{Env, Agent}
use agent_memory_control_pla.Agent.Requests.Collect.{
  collected, fallback, discover_now, from_cache_or, on_collect,
}
use agent_memory_control_pla.Agent.Requests.Change.{
  approval_request, guarded, on_apply, on_rollback,
}
use agent_memory_control_pla.Agent.Requests.{
  authenticated, on_enroll, on_ack, dispatch, process_request,
}
use agent_memory_control_pla.Agent.Requests.Guards.{Approves}

-- What a request does to the ledger: nothing, or one event of its own.
abbrev Touches : {W : Type 0} → Env W → Agent W → Ledger → Type 0
Touches env s ledger =
    (ledger ≡ s.ledger) ⊎ ((e : Event) × (ledger ≡ after_event env.foreign e s.ledger))

module _ {W : Type 0} (env : Env W) where
  ledger-guarded :
      (failed invalid message : String)
      (call : ProviderAdapter W → ChangeSet → String → W → Result Error ChangeReceipt × W)
      (cs : ChangeSet) (approval : ApprovalEnvelope) (consumed : Result Error Bool) (s : Agent W)
      → (guarded env failed invalid message call cs approval consumed s).1.ledger ≡ s.ledger
  unfolding guarded
  ledger-guarded failed invalid message call cs approval (err e) s = refl
  ledger-guarded failed invalid message call cs approval (ok valid) s = ground arith

  ledger-on_collect :
      (scope : Option Scope) (cursor : Option String) (s : Agent W)
      → (on_collect env scope cursor s).1.ledger ≡ s.ledger
  unfolding on_collect from_cache_or discover_now collected fallback
  ledger-on_collect scope cursor s = ground arith

  ledger_of_approved :
      (token : Option String) (cs : ChangeSet) (approval : ApprovalEnvelope) (s : Agent W)
      → cs.scope.host_id ≡ some env.host.host_id
      → ((on_apply env token cs approval s).1.ledger
          ≡ (consume_approval env.foreign (approval_request env token cs approval) s.ledger).1)
        × ((on_rollback env token cs approval s).1.ledger
            ≡ (consume_approval env.foreign (approval_request env token cs approval) s.ledger).1)
  unfolding on_apply on_rollback
  ledger_of_approved token cs approval s e =
      let here : is_some_text cs.scope.host_id env.host.host_id ≡ true =
        rw e ((eq_iff env.host.host_id env.host.host_id).1 refl) in
      rw here (
        ledger-guarded "apply_failed" "approval_invalid"
            "approval envelope is invalid, expired, or not bound to change set"
            (λ provider. provider.apply_change) cs approval
            (consume_approval env.foreign (approval_request env token cs approval) s.ledger).0
            (record s {
              ledger =
                  (consume_approval env.foreign (approval_request env token cs approval)
                    s.ledger).1;
            }),
        ledger-guarded "rollback_failed" "approval_invalid"
            "rollback approval envelope is invalid or not bound to change set"
            (λ provider. provider.rollback_change) cs approval
            (consume_approval env.foreign (approval_request env token cs approval) s.ledger).0
            (record s {
              ledger =
                  (consume_approval env.foreign (approval_request env token cs approval)
                    s.ledger).1;
            }),
      )

  Touches-dispatch :
      (token : Option String) (method : RequestMethod) (s : Agent W)
      → Touches env s (dispatch env token method s).1.ledger
  unfolding dispatch on_enroll on_ack on_apply on_rollback after_event
  Touches-dispatch token (RequestMethod.apply_change cs approval) s =
      elim (Bool-cases (is_some_text cs.scope.host_id env.host.host_id)) [
        | inr other ↦ inl (rw other refl)
        | inl here ↦ inr (
          consume (approval_request env token cs approval),
          (ledger_of_approved token cs approval s
              (is_some_text→eq cs.scope.host_id env.host.host_id here)).0,
        )
      ]
  Touches-dispatch token (RequestMethod.rollback cs approval) s =
      elim (Bool-cases (is_some_text cs.scope.host_id env.host.host_id)) [
        | inr other ↦ inl (rw other refl)
        | inl here ↦ inr (
          consume (approval_request env token cs approval),
          (ledger_of_approved token cs approval s
              (is_some_text→eq cs.scope.host_id env.host.host_id here)).1,
        )
      ]
  Touches-dispatch token (RequestMethod.collect scope cursor) s =
      inl (ledger-on_collect scope cursor s)
  Touches-dispatch token (RequestMethod.enroll id) s =
      inr (restart (on_enroll env s).1.ledger.auth, refl)
  Touches-dispatch token _ s = inl refl

  Touches-process_request :
      (request : RequestEnvelope) (s : Agent W)
      → Touches env s (process_request env request s).1.ledger
  unfolding process_request
  Touches-process_request request s =
      elim (Bool-cases (request.protocol_version == protocol_version)) [
        | inr differs ↦ inl (rw differs refl)
        | inl same ↦ elim (Bool-cases (authenticated env request s.ledger.auth)) [
          | inr bad ↦ inl (rw (same, bad) refl)
          | inl good ↦ rw (same, good) (Touches-dispatch request.token request.method s)
        ]
      ]

  -- An approved request, of the right version and authenticated, leaves the consumed ledger.
  ledger-approved :
      (request : RequestEnvelope) (s : Agent W) (a : Approves env request.token request.method s)
      → request.protocol_version ≡ protocol_version
      → authenticated env request s.ledger.auth ≡ true
      → (process_request env request s).1.ledger
        ≡ (consume_approval env.foreign
            (approval_request env request.token a.change_set a.approval)
            s.ledger).1
  unfolding process_request dispatch
  ledger-approved request s a version good =
      let same : (request.protocol_version == protocol_version) ≡ true = ground arith in
      let (applied, rolled_back) =
        ledger_of_approved request.token a.change_set a.approval s a.here in
      elim a.called [
        | inl apply ↦
            rw (same, good) (ap (λ m. (dispatch env request.token m s).1.ledger) apply ∙ applied)
        | inr rollback ↦
            rw (same, good)
              (ap (λ m. (dispatch env request.token m s).1.ledger) rollback ∙ rolled_back)
      ]

  Held-process_request :
      (key : String) (n : ℕ) (request : RequestEnvelope) (s : Agent W)
      → suc n ≤ 4095
      → Held key n s.ledger
      → Held key (suc n) (process_request env request s).1.ledger
  Held-process_request key n request s room h = elim (Touches-process_request request s) [
    | inl same ↦
        rw same (record {
          older = h.older;
          newer = h.newer;
          loaded = h.loaded;
          few = omega (arith, h.few);
        })
    | inr (e, moved) ↦
        let k = Held-after env.foreign key (e ∷ []) n s.ledger (omega arith) h in
        rw moved (record {
          older = k.older;
          newer = k.newer;
          loaded = unfold after in k.loaded;
          few = omega (arith, k.few);
        })
  ]

-- Requests in their order, each with its surroundings. The functions of other crates stay the same.
module _ {W : Type 0} (foreign : Foreign) where
  abbrev pub within : Env W → Env W
  within env = record env { foreign = foreign }

  unfoldable pub run : List (Env W × RequestEnvelope) → Agent W → Agent W
  run [] s = s
  run ((env, request) ∷ turns) s = run turns (process_request (within env) request s).1

  Held-run :
      (key : String) (turns : List (Env W × RequestEnvelope)) (n : ℕ) (s : Agent W)
      → n + length turns ≤ 4095
      → Held key n s.ledger
      → Held key (n + length turns) (run turns s).ledger
  unfolding run
  Held-run key [] n s room h = record {
    older = h.older;
    newer = h.newer;
    loaded = h.loaded;
    few = omega (arith, h.few);
  }
  Held-run key ((env, request) ∷ turns) n s room h =
      let k =
        Held-run key turns (suc n) (process_request (within env) request s).1 (omega arith)
          (Held-process_request (within env) key n request s (omega arith) h) in
      record { older = k.older; newer = k.newer; loaded = k.loaded; few = omega (arith, k.few) }

  -- Two requests of an agent, with at most 4095 others between them, that are let through to change
  -- the world have approvals of different ids or nonces, where the first is of the right version and
  -- authenticated.
  pub approved_once :
      (env later : Env W) (request second : RequestEnvelope) (s : Agent W)
      (turns : List (Env W × RequestEnvelope))
      → (a : Approves (within env) request.token request.method s)
      → request.protocol_version ≡ protocol_version
      → authenticated (within env) request s.ledger.auth ≡ true
      → length turns ≤ 4095
      → (b : Approves
          (within later)
          second.token
          second.method
          (run turns (process_request (within env) request s).1))
      → replay_key b.approval ≢ replay_key a.approval
  approved_once env later request second s turns a version good room b same =
      let next = (process_request (within env) request s).1 in
      let first = approval_request (within env) request.token a.change_set a.approval in
      let held : Held (replay_key a.approval) 0 next.ledger =
        rw (ledger-approved (within env) request s a version good)
          (Held-of_accepted foreign first s.ledger a.accepted) in
      Held-refuses foreign (replay_key a.approval) (0 + length turns)
        (approval_request (within later) second.token b.change_set b.approval)
        (run turns next).ledger (Held-run (replay_key a.approval) turns 0 next (omega arith) held)
        same b.accepted
