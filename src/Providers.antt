-- ===== src/Providers.antt =====
-- crates/amcp-provider-api/src/lib.rs: the interface of a provider's adapter, the registry of
-- adapters, and the adapter that only has a descriptor. `W` is the outside world that an adapter
-- reads and changes. The runtime calls of the interface are not modelled.
use Prim.Native.String
use agent_memory_control_pla.Prelude.{
  String, Option, none, List, [], ◌∷◌, ◌++◌, map, ◌=ₜ◌, if◌then◌else◌,
}
use agent_memory_control_pla.Prelude.Result.{Result, ok, err}
use agent_memory_control_pla.Domain.Kinds.{
  ArtifactRef, HostIdentity, ProviderSupportLevel, ProviderHealth, ProviderCompatibility,
}
use agent_memory_control_pla.Domain.Change.{ChangeRequest, ChangeSet, ChangeReceipt}
use agent_memory_control_pla.Domain.Records.{ArtifactRecord, CollectionBatch, ProviderDescriptor}
use agent_memory_control_pla.Domain.Approval.{new_id}
use agent_memory_control_pla.Agent.Store.{Error}

-- The text is the backup directory.
pub record ProviderAdapter (W : Type 0) : Type 0 where
  pub descriptor : ProviderDescriptor
  pub collection_cursor : W → Option String
  pub discover : HostIdentity → W → Result Error CollectionBatch
  pub read_artifact : ArtifactRef → HostIdentity → W → Result Error ArtifactRecord
  pub propose_change : ChangeRequest → W → Result Error ChangeSet
  pub apply_change : ChangeSet → String → W → Result Error ChangeReceipt × W
  pub rollback_change : ChangeSet → String → W → Result Error ChangeReceipt × W

abbrev pub ProviderRegistry : Type 0 → Type 0
ProviderRegistry W = List (ProviderAdapter W)

abbrev pub inventory_descriptor : String → String → String → ProviderDescriptor
inventory_descriptor id display_name adapter_version = record {
  id = id;
  display_name = display_name;
  version = none;
  adapter_version = adapter_version;
  schema_fingerprint = "inventory-adapter-v1";
  support_level = ProviderSupportLevel.inventory_only;
  health = ProviderHealth.healthy;
  compatibility = ProviderCompatibility.compatible;
  native_roots = [];
  capabilities = "inventory" ∷ [];
}

module _ {W : Type 0} where
  -- `InventoryProviderAdapter`, with the defaults of the trait. The first argument is the random part
  -- of a collection's id.
  abbrev pub inventory_adapter : String → String → String → String → ProviderAdapter W
  inventory_adapter uuid id display_name adapter_version =
      let descriptor : ProviderDescriptor = inventory_descriptor id display_name adapter_version in
      record {
        descriptor = descriptor;
        collection_cursor = λ world. none;
        discover = λ host world. ok (record {
          collection_run_id = new_id "run" uuid;
          host = host;
          providers = descriptor ∷ [];
          projects = [];
          sessions = [];
          session_items = [];
          memory_records = [];
          config_layers = [];
          guidance_records = [];
          guidance_edges = [];
          runtime_events = [];
          artifacts = [];
          next_cursor = none;
        });
        read_artifact = λ target host world. err "provider does not expose artifact reads";
        propose_change = λ request world. err "provider is inventory-only";
        apply_change = λ change_set backup_dir world. (err "provider is inventory-only", world);
        rollback_change = λ change_set backup_dir world. (err "provider is inventory-only", world);
      }

  unfoldable pub register : ProviderAdapter W → ProviderRegistry W → ProviderRegistry W
  register adapter adapters = adapters ++ adapter ∷ []

  abbrev pub descriptors : ProviderRegistry W → List ProviderDescriptor
  descriptors adapters = map (λ adapter. adapter.descriptor) adapters

  unfoldable pub get : ProviderRegistry W → String → Result Error (ProviderAdapter W)
  get [] provider_id = err (String.◌++◌ "provider is not registered: " provider_id)
  get (adapter ∷ adapters) provider_id =
      if adapter.descriptor.id =ₜ provider_id then ok adapter else get adapters provider_id
