-- ===== src/Registry/Source.antt =====
-- registry/models.py: what a registry exports of itself and of the registries that it mirrors, and
-- how it keeps an imported source (registry/store.py).
use p4p.Prelude.{ℕ, String, Bool, Option, none, some, List, []}
use p4p.Registry.Node.{Node, NodeManifest}
use p4p.Registry.Identity.{NodeIdentityEvent, NodeIdentityRecord}

pub data RegistryType : Type 0 where
  umbrella : RegistryType
  vertical : RegistryType
  country : RegistryType
  local : RegistryType

pub record RegistryCapabilities : Type 0 where
  pub can_onboard_nodes : Bool
  pub can_relay_sources : Bool
  pub can_curate_active_index : Bool
  pub can_moderate_directory : Bool
  pub can_issue_trust_claims : Bool
  pub can_reexport_sources : Bool

pub record RegistryMetadata : Type 0 where
  pub registry_type : RegistryType
  pub capabilities : RegistryCapabilities

pub data RegistryExportScope : Type 0 where
  local_only : RegistryExportScope
  local_plus_trusted_mirrors : RegistryExportScope

pub data StorageBackend : Type 0 where
  in_memory : StorageBackend
  sqlite : StorageBackend

pub record RegistrySourceNode : Type 0 where
  pub node : Node
  pub last_seen : ℕ
  pub last_signed_event_at : Option ℕ

pub record RegistrySourceManifest : Type 0 where
  pub manifest : NodeManifest
  pub stored_at : ℕ

pub record RegistrySourceSnapshot : Type 0 where
  pub registry_version : String
  pub registry_url : String
  pub registry_metadata : RegistryMetadata
  pub export_scope : RegistryExportScope
  pub exported_at : ℕ
  pub storage_backend : StorageBackend
  pub latest_identity_event_id : Option ℕ
  pub nodes : List RegistrySourceNode
  pub manifests : List RegistrySourceManifest
  pub identity_records : List NodeIdentityRecord
  pub identity_events : List NodeIdentityEvent
  pub registry_public_key : Option String
  pub signature : Option String

pub record RegistrySourceMirrorExport : Type 0 where
  pub snapshot : RegistrySourceSnapshot
  pub imported_at : ℕ
  pub verified_signature : Bool
  pub discovery_eligible : Bool
  pub discovery_basis : String
  pub relayed_by_registry_url : String

-- The fields of the snapshot, and the mirrored sources.
pub record RegistrySourceResponse : Type 0 where
  pub snapshot : RegistrySourceSnapshot
  pub mirrored_sources : Option (List RegistrySourceMirrorExport)

-- A snapshot is a response that has no mirrored sources.
abbrev pub as_response : RegistrySourceSnapshot → RegistrySourceResponse
as_response snapshot = record { snapshot = snapshot; mirrored_sources = none }

-- payload.mirrored_sources or []
abbrev pub relayed_sources : RegistrySourceResponse → List RegistrySourceMirrorExport
relayed_sources payload = elim payload.mirrored_sources [ none ↦ [] | some ms ↦ ms ]

pub record StoredMirrorSource : Type 0 where
  pub snapshot : RegistrySourceResponse
  pub imported_at : ℕ
  pub verified_signature : Bool
  pub relayed_by_registry_url : Option String
