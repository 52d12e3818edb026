-- ===== src/Codex/Provider.antt =====
-- The change workflow of crates/amcp-codex/src/lib.rs as an adapter of the registry, and what it
-- means for the requests of crates/amcp-agent/src/main.rs. The world is the contents of the files.
use agent_memory_control_pla.Prelude.{ℕ, String, ◌≡◌, ◌∙◌, ap, ◌⊎◌, inl, inr, true, [], ◌∷◌, arith}
use agent_memory_control_pla.Prelude.Result.{ok}
use agent_memory_control_pla.Domain.Change.{ChangeSet}
use agent_memory_control_pla.Protocol.{RequestEnvelope, protocol_version}
use agent_memory_control_pla.Providers
use agent_memory_control_pla.Providers.{ProviderAdapter}
use agent_memory_control_pla.Agent.Requests.Context.{Env, Agent}
use agent_memory_control_pla.Agent.Requests.{authenticated, process_request}
use agent_memory_control_pla.Agent.Requests.Guards.{Approves}
use agent_memory_control_pla.Agent.Requests.World.{process_request-Approved}
use agent_memory_control_pla.Codex.Files.{FilePath, Contents}
use agent_memory_control_pla.Codex.Paths.{CodexAdapter}
use agent_memory_control_pla.Codex.Propose
use agent_memory_control_pla.Codex.Apply
use agent_memory_control_pla.Codex.Rollback
use agent_memory_control_pla.Codex.Confinement.{SomeReaches, apply_change-SomeReaches}
use agent_memory_control_pla.Codex.Confinement.Rollback.{SomeNames, rollback_change-SomeNames}

-- The clock, the random parts of the ids of a proposal, and an adapter for what is not modelled: the
-- descriptor, discovery and reading.
abbrev pub codex_provider :
    CodexAdapter → ℕ → String → String → ProviderAdapter Contents → ProviderAdapter Contents
codex_provider adapter now change_uuid op_uuid reader = record reader {
  propose_change =
      λ request files. Propose.propose_change adapter now change_uuid op_uuid request files;
  apply_change = λ cs backup_dir files. Apply.apply_change adapter now cs backup_dir files;
  rollback_change = λ cs backup_dir files. Rollback.rollback_change adapter cs backup_dir now files;
}

only_provider :
    {W : Type 0} (p q : ProviderAdapter W) (id : String) → Providers.get (p ∷ []) id ≡ ok q → q ≡ p
unfolding Providers.get
only_provider p q id h = ground arith

-- The files that a change set can change: those of applying it and those of rolling it back.
abbrev pub SomeChanges : CodexAdapter → String → FilePath → ChangeSet → Type 0
SomeChanges adapter backup_dir q cs =
    SomeReaches adapter cs.change_set_id backup_dir q cs.operations
    ⊎ SomeNames adapter cs.change_set_id q cs.operations

-- If the Codex adapter is the only one, a file of the world, which the agent's own state files are not
-- part of, that a request changes is the authorized path of an operation, a backup of such a path, or
-- a temporary file for it, named after the change set, of a change set for this host whose approval the
-- agent accepts; and the request is of the right version and authenticated.
pub process_request_confined :
    (env : Env Contents) (adapter : CodexAdapter) (now : ℕ) (change_uuid op_uuid : String)
    (reader : ProviderAdapter Contents) (request : RequestEnvelope) (s : Agent Contents)
    (q : FilePath)
    → env.registry ≡ codex_provider adapter now change_uuid op_uuid reader ∷ []
    → ((process_request env request s).1.world q ≡ s.world q)
      ⊎ ((request.protocol_version ≡ protocol_version)
          × (authenticated env request s.ledger.auth ≡ true)
          × ((a : Approves env request.token request.method s) × SomeChanges adapter env.backup_dir
                q a.change_set))
process_request_confined env adapter now change_uuid op_uuid reader request s q registered =
    let codex = codex_provider adapter now change_uuid op_uuid reader in
    elim (process_request-Approved env request s) [
      | inl same ↦ inl (ap (λ w. w q) same)
      | inr (version, good, (a, (provider, found, made))) ↦
          let is_codex : provider ≡ codex =
            only_provider codex provider a.change_set.provider_id (rw registered at found) in
          elim made [
            | inl applied ↦
                elim (apply_change-SomeReaches adapter a.change_set env.backup_dir now s.world q) [
                  | inl same ↦ inl (
                      ap (λ w. w q)
                        (applied
                          ∙ ap (λ p. (p.apply_change a.change_set env.backup_dir s.world).1)
                              is_codex)
                      ∙ same)
                  | inr reached ↦ inr (version, good, (a, inl reached))
                ]
            | inr rolled_back ↦
                elim (rollback_change-SomeNames adapter a.change_set env.backup_dir now s.world q) [
                  | inl same ↦ inl (
                      ap (λ w. w q)
                        (rolled_back
                          ∙ ap (λ p. (p.rollback_change a.change_set env.backup_dir s.world).1)
                              is_codex)
                      ∙ same)
                  | inr named ↦ inr (version, good, (a, inr named))
                ]
          ]
    ]
