-- ===== src/Registry/Export.antt =====
-- `RegistryStore.export_source` of registry/store.py, without the mirrored sources, and the route
-- `/registry-source` of registry/routes.py, which signs what it exports.
use p4p.Prelude.{
  ℕ, String, ◌==◌, Bool, true, false, not, ◌&&◌, ◌||◌, Option, none, some, List, [], ◌∷◌,
  text_before, strip, if◌then◌else◌,
}
use p4p.Prelude.Dict.{Dict, lookup}
use p4p.Prelude.Sorted.{sorted_by}
use p4p.Prelude.Result.{Result, ok, ◌>>=◌, ◌>>◌, require}
use p4p.Registry.Node.{Node}
use p4p.Registry.Identity.{NodeIdentityRecord}
use p4p.Registry.Source.{
  RegistrySourceNode, RegistrySourceManifest, RegistrySourceSnapshot, StorageBackend, in_memory,
  sqlite, as_response,
}
use p4p.Registry.Store.{
  Outside, HttpException, http, source_payload, StoredNode, StoredManifest, RegistryStore,
  RegistryConfig, truthy, text_or_empty, normalized_registry_url,
}
use p4p.Registry.Validation.{manifest_key_for_node}
use p4p.Registry.Validation.Announcement.{is_some}
use p4p.Registry.Validation.Log.{last_id}
use p4p.Registry.Validation.Response.{is_local_only}
use p4p.Registry.Validation.Snapshot.{entry_is_active, is_loopback_url}

abbrev pub entry_before {ℓ} : {V : Type ℓ} → String × V → String × V → Bool
entry_before (a, v) (b, w) = text_before a b

abbrev pub record_before : NodeIdentityRecord → NodeIdentityRecord → Bool
record_before a b =
    if a.node_id == b.node_id
    then text_before a.node_public_key b.node_public_key
    else text_before a.node_id b.node_id

abbrev pub source_manifests : Dict StoredManifest → List RegistrySourceManifest
source_manifests [] = []
source_manifests ((k, stored) ∷ d) =
    record { manifest = stored.manifest; stored_at = stored.stored_at } ∷ source_manifests d

abbrev pub source_node : StoredNode → RegistrySourceNode
source_node stored = record {
  node = stored.node;
  last_seen = stored.last_seen;
  last_signed_event_at = stored.last_signed_event_at;
}

-- RegistryStore.storage_backend, of `db_path.strip() or ":memory:"`
unfoldable pub storage_backend : RegistryConfig → StorageBackend
storage_backend config =
    if strip config.registry_db_path == "" || strip config.registry_db_path == ":memory:"
    then in_memory
    else sqlite

-- is_loopback_registry_url
unfoldable pub is_loopback_registry_url : Outside → String → Bool
unfolding is_loopback_url
is_loopback_registry_url outside value =
    not (strip value == "") && is_loopback_url outside (strip value)

module _ (outside : Outside) (now : ℕ) where
  unfoldable pub is_protected_visible : Node → Option StoredManifest → Result HttpException Bool
  unfolding manifest_key_for_node entry_is_active
  is_protected_visible node none = ok true
  is_protected_visible node (some stored) = do
    entry ← manifest_key_for_node outside now stored.manifest node
    entry_is_active outside now 0 entry

  unfoldable pub node_is_manifest_visible : Node → RegistryStore → Result HttpException Bool
  unfolding is_protected_visible
  node_is_manifest_visible node s =
      let stored_manifest = lookup node.node_id s.node_manifests in
      if not (truthy node.node_public_key)
      then ok (not (is_some stored_manifest))
      else is_protected_visible node stored_manifest

  unfoldable pub node_is_source_export_visible : Node → RegistryStore → Result HttpException Bool
  unfolding node_is_manifest_visible
  node_is_source_export_visible node s =
      if truthy node.node_public_key && not (is_some (lookup node.node_id s.node_manifests))
      then ok false
      else node_is_manifest_visible node s

  unfoldable pub source_nodes :
      RegistryStore → Dict StoredNode → Result HttpException (List RegistrySourceNode)
  unfolding node_is_source_export_visible
  source_nodes s [] = ok []
  source_nodes s ((k, stored) ∷ d) = do
    visible ← node_is_source_export_visible stored.node s
    nodes ← source_nodes s d
    ok (if visible then source_node stored ∷ nodes else nodes)

  -- What is exported, with the nodes that are to be seen.
  abbrev pub source_snapshot :
      RegistryConfig → String → RegistryStore → List RegistrySourceNode → RegistrySourceSnapshot
  source_snapshot config registry_url s nodes = record {
    registry_version = "0.1";
    registry_url = registry_url;
    registry_metadata = config.registry_metadata;
    export_scope = config.registry_source_reexport_policy;
    exported_at = now;
    storage_backend = storage_backend config;
    latest_identity_event_id = last_id s.identity_events;
    nodes = nodes;
    manifests = source_manifests (sorted_by entry_before s.node_manifests);
    identity_records = sorted_by record_before s.identity_records;
    identity_events = s.identity_events;
    registry_public_key = none;
    signature = none;
  }

  unfoldable pub export_source :
      RegistryConfig → String → RegistryStore → Result HttpException RegistrySourceSnapshot
  unfolding source_nodes
  export_source config registry_url s = do
    nodes ← source_nodes s (sorted_by entry_before s.nodes)
    ok (source_snapshot config registry_url s nodes)

  -- The URL that the export names, where the server is reached at `base_url`.
  unfoldable pub source_url : RegistryConfig → String → Result HttpException String
  unfolding is_loopback_registry_url normalized_registry_url
  source_url config base_url =
      if truthy config.registry_private_key
      then (do
        require (not (config.registry_url == ""))
            (http 503 "Signed registry source export requires P4P_REGISTRY_URL")
        ok config.registry_url)
      else if not (config.registry_url == "")
      then ok config.registry_url
      else (do
        require (is_loopback_registry_url outside (normalized_registry_url base_url)) (
            http 503
              "Unsigned registry source export without P4P_REGISTRY_URL requires a loopback request base")
        ok (normalized_registry_url base_url))

  unfoldable pub signed_source : RegistryConfig → RegistrySourceSnapshot → RegistrySourceSnapshot
  signed_source config snapshot =
      let named : RegistrySourceSnapshot = record snapshot {
        registry_public_key = config.registry_public_key;
      } in
      if truthy config.registry_private_key
      then record named {
        signature = some (
            outside.sign_payload (source_payload (as_response named))
              (text_or_empty config.registry_private_key));
      }
      else named

  unfoldable pub registry_source :
      RegistryConfig → String → RegistryStore → Result HttpException RegistrySourceSnapshot
  unfolding source_url export_source signed_source
  registry_source config base_url s = do
    require
        (is_local_only config.registry_source_reexport_policy
          || config.registry_metadata.capabilities.can_reexport_sources)
        (http 403 "This registry is not allowed to re-export sources")
    registry_url ← source_url config base_url
    snapshot ← export_source config registry_url s
    ok (signed_source config snapshot)
