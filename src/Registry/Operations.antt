-- ===== src/Registry/Operations.antt =====
-- The requests of nodes and owners: `announce`, `heartbeat` and `node_manifest` of
-- registry/routes.py over the methods of RegistryStore with these names.
use p4p.Prelude.{ℕ, String, ◌==◌, Option, none, some, if◌then◌else◌}
use p4p.Prelude.Dict.{lookup, insert}
use p4p.Prelude.Result.{Result, ok, err, require, ◌>>◌}
use p4p.Registry.Node.{Node, NodeManifestRequest, HeartbeatRequest}
use p4p.Registry.Store.{
  Outside, HttpException, Checked, http, raised, Stamp, not_iso, naive, aware, read_iso, StoredNode,
  StoredManifest, RegistryConfig, RegistryStore, truthy, text_or_empty,
}
use p4p.Registry.Validation.Manifest.{require_valid_manifest_update}
use p4p.Registry.Validation.Announcement.{
  require_allowed_announcement_update, require_valid_heartbeat_signature,
}
use p4p.Registry.Recording.{record_signed_identity, apply_manifest_status}

-- A request gives a value or an exception, and the store.
abbrev pub Request : Type 0 → Type 0
Request A = RegistryStore → Result HttpException A × RegistryStore

-- The checks come before the first write.
abbrev pub checked : {A : Type 0} → Checked → Request A → Request A
checked (err e) act s = (err e, s)
checked (ok u) act s = act s

-- A method that does not raise.
abbrev pub always : {A : Type 0} → (RegistryStore → A × RegistryStore) → Request A
always act s = let (a, t) = act s in (ok a, t)

-- _deserialize_datetime: a time without a zone is one of UTC.
abbrev pub deserialize_datetime : Stamp → Option ℕ
deserialize_datetime not_iso = none
deserialize_datetime (naive t) = some t
deserialize_datetime (aware t) = some t

module _ (outside : Outside) (now : ℕ) where
  abbrev pub last_event : Option StoredNode → Option ℕ
  last_event none = none
  last_event (some stored) = stored.last_signed_event_at

  abbrev pub announced : Node → Option StoredNode → StoredNode
  announced node existing = record {
    node = node;
    last_seen = now;
    last_signed_event_at =
        if truthy node.signed_at
        then deserialize_datetime (read_iso outside (text_or_empty node.signed_at))
        else last_event existing;
  }

  -- RegistryStore.announce
  unfoldable pub store_node : Node → RegistryStore → StoredNode × RegistryStore
  unfolding record_signed_identity
  store_node node s =
      let stored = announced node (lookup node.node_id s.nodes) in
      (
        stored,
        record_signed_identity outside now node
            (record s { nodes = insert node.node_id stored s.nodes }),
      )

  unfoldable pub store_manifest :
      NodeManifestRequest → RegistryStore → StoredManifest × RegistryStore
  unfolding apply_manifest_status
  store_manifest payload s =
      let manifest = payload.manifest in
      let stored : StoredManifest = record { manifest = manifest; stored_at = now } in
      (
        stored,
        record s {
          node_manifests = insert manifest.node_id stored s.node_manifests;
          identity_records =
              apply_manifest_status outside now manifest (lookup manifest.node_id s.node_manifests)
                s.identity_records;
        },
      )

  abbrev pub beaten : HeartbeatRequest → Option ℕ → StoredNode → StoredNode
  beaten payload last stored = record {
    node = record stored.node { is_open = payload.is_open };
    last_seen = now;
    last_signed_event_at = last;
  }

  abbrev pub put_node : String → StoredNode → RegistryStore → RegistryStore
  put_node node_id stored s = record s { nodes = insert node_id stored s.nodes }

  -- A `signed_at` that is no time raises ValueError when the node was already changed.
  abbrev pub beat_signed : HeartbeatRequest → StoredNode → Option ℕ → Request StoredNode
  beat_signed payload stored none s = (
    raised 500 "Internal Server Error",
    put_node payload.node_id (beaten payload stored.last_signed_event_at stored) s,
  )
  beat_signed payload stored (some t) s =
      let beat = beaten payload (some t) stored in (ok beat, put_node payload.node_id beat s)

  -- RegistryStore.heartbeat, of a node that is there
  unfoldable pub store_heartbeat : HeartbeatRequest → StoredNode → Request StoredNode
  store_heartbeat payload stored s =
      if truthy payload.signed_at
      then beat_signed payload stored
          (deserialize_datetime (read_iso outside (text_or_empty payload.signed_at))) s
      else let beat = beaten payload stored.last_signed_event_at stored in
        (ok beat, put_node payload.node_id beat s)

  unfoldable pub announce : RegistryConfig → Node → Request StoredNode
  unfolding require_allowed_announcement_update store_node
  announce config node s =
      checked
        (do
          require config.registry_metadata.capabilities.can_onboard_nodes
              (http 403 "This registry is not allowed to onboard nodes")
          require (node.protocol_version == "0.1") (http 400 "Unsupported protocol_version")
          require_allowed_announcement_update outside now node (lookup node.node_id s.nodes)
              (lookup node.node_id s.node_manifests))
        (always (store_node node)) s

  unfoldable pub node_manifest : NodeManifestRequest → Request StoredManifest
  unfolding require_valid_manifest_update store_manifest
  node_manifest payload s =
      checked
        (require_valid_manifest_update outside now payload
          (lookup payload.manifest.node_id s.node_manifests))
        (always (store_manifest payload)) s

  unfoldable pub beat_known : HeartbeatRequest → Option StoredNode → Request StoredNode
  unfolding require_valid_heartbeat_signature store_heartbeat
  beat_known payload none s = (raised 404 "Unknown node_id", s)
  beat_known payload (some stored) s =
      checked
        (require_valid_heartbeat_signature outside now payload stored
          (lookup payload.node_id s.node_manifests))
        (store_heartbeat payload stored) s

  unfoldable pub heartbeat : HeartbeatRequest → Request StoredNode
  unfolding beat_known
  heartbeat payload s = beat_known payload (lookup payload.node_id s.nodes) s
