-- ===== src/Storage/Key.antt =====
-- The primary keys of the tables of crates/amcp-storage/src/lib.rs: two rows with the same key.
use agent_memory_control_pla.Prelude.{Bool, ◌&&◌, ◌=ₜ◌}
use agent_memory_control_pla.Prelude.Int.{eq_ℤ}
use agent_memory_control_pla.Domain.Records.{
  EvidenceSnapshot, ProjectRecord, SessionRecord, SessionItem, MemoryRecord, ConfigLayerRecord,
  GuidanceRecord, GuidanceEdge, RuntimeEvent,
}
use agent_memory_control_pla.Storage.Catalog.{HostRow, ProviderRow, ObservationRow, CursorRow}

abbrev pub host : HostRow → HostRow → Bool
host a b = a.host.host_id =ₜ b.host.host_id

abbrev pub provider : ProviderRow → ProviderRow → Bool
provider a b = a.provider.id =ₜ b.provider.id && a.host_id =ₜ b.host_id

abbrev pub project : ProjectRecord → ProjectRecord → Bool
project a b =
    a.project_id =ₜ b.project_id && a.host_id =ₜ b.host_id && a.provider_id =ₜ b.provider_id

abbrev pub session : SessionRecord → SessionRecord → Bool
session a b =
    a.session_id =ₜ b.session_id && a.host_id =ₜ b.host_id && a.provider_id =ₜ b.provider_id

abbrev pub session_item : SessionItem → SessionItem → Bool
session_item a b =
    a.session_id =ₜ b.session_id
    && a.host_id =ₜ b.host_id
    && a.provider_id =ₜ b.provider_id
    && eq_ℤ a.sequence b.sequence

abbrev pub memory : MemoryRecord → MemoryRecord → Bool
memory a b =
    a.memory_record_id =ₜ b.memory_record_id
    && a.host_id =ₜ b.host_id
    && a.provider_id =ₜ b.provider_id

abbrev pub layer : ConfigLayerRecord → ConfigLayerRecord → Bool
layer a b =
    a.config_layer_id =ₜ b.config_layer_id
    && a.host_id =ₜ b.host_id
    && a.provider_id =ₜ b.provider_id

abbrev pub guidance : GuidanceRecord → GuidanceRecord → Bool
guidance a b =
    a.guidance_id =ₜ b.guidance_id && a.host_id =ₜ b.host_id && a.provider_id =ₜ b.provider_id

abbrev pub edge : GuidanceEdge → GuidanceEdge → Bool
edge a b =
    a.lower_guidance_id =ₜ b.lower_guidance_id
    && a.higher_guidance_id =ₜ b.higher_guidance_id
    && a.host_id =ₜ b.host_id
    && a.provider_id =ₜ b.provider_id

abbrev pub event : RuntimeEvent → RuntimeEvent → Bool
event a b = a.event_id =ₜ b.event_id

abbrev pub observation : ObservationRow → ObservationRow → Bool
observation a b = a.observation.observation_id =ₜ b.observation.observation_id

abbrev pub evidence : EvidenceSnapshot → EvidenceSnapshot → Bool
evidence a b = a.evidence_id =ₜ b.evidence_id

abbrev pub cursor : CursorRow → CursorRow → Bool
cursor a b = a.host_id =ₜ b.host_id && a.provider_id =ₜ b.provider_id
