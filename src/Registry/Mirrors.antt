-- ===== src/Registry/Mirrors.antt =====
-- The sources that a registry mirrors: `_store_mirror_source` and
-- `_mirror_source_provenance_priority` of registry/store.py, and the hash of the content of a source
-- of registry/validation.py.
pub mod Imports
use p4p.Prelude.{
  ℕ, String, ◌==◌, Bool, true, false, not, ◌&&◌, ◌||◌, Option, none, some, List, [], ◌∷◌, ltb,
  nat_eq, member, text_before, map, if◌then◌else◌,
}
use p4p.Prelude.Dict.{Dict, lookup, insert}
use p4p.Prelude.Sorted.{sorted_by}
use p4p.Prelude.Result.{Result, ok, err}
use p4p.Registry.Source.{
  RegistrySourceNode, RegistrySourceManifest, RegistrySourceSnapshot, RegistrySourceMirrorExport,
  RegistrySourceResponse, StoredMirrorSource,
}
use p4p.Registry.Store.{
  Outside, HttpException, raised, RegistryConfig, MirrorDiscoveryPolicy, trusted_only, all_active,
  RegistryStore, normalized_registry_url, truthy, text_or_empty,
}
use p4p.Registry.Validation.Announcement.{is_some}
use p4p.Registry.Operations.{Request}
use p4p.Registry.Export.{record_before}

pub record MirrorSourceStoreDecision : Type 0 where
  pub stored : Bool
  pub detail : Option String

abbrev node_before : RegistrySourceNode → RegistrySourceNode → Bool
node_before a b = text_before a.node.node_id b.node.node_id

abbrev manifest_before : RegistrySourceManifest → RegistrySourceManifest → Bool
manifest_before a b = text_before a.manifest.node_id b.manifest.node_id

-- _canonicalize_registry_source_dict
unfoldable pub canonical_snapshot : RegistrySourceSnapshot → RegistrySourceSnapshot
canonical_snapshot payload = record payload {
  nodes = sorted_by node_before payload.nodes;
  manifests = sorted_by manifest_before payload.manifests;
  identity_records = sorted_by record_before payload.identity_records;
}

abbrev mirror_before : RegistrySourceMirrorExport → RegistrySourceMirrorExport → Bool
unfolding normalized_registry_url
mirror_before a b =
    text_before (normalized_registry_url a.snapshot.registry_url)
      (normalized_registry_url b.snapshot.registry_url)

abbrev canonical_mirrors : List RegistrySourceMirrorExport → List RegistrySourceMirrorExport
unfolding canonical_snapshot normalized_registry_url
canonical_mirrors mirrors = sorted_by mirror_before (
    map (λ (m : RegistrySourceMirrorExport). record m { snapshot = canonical_snapshot m.snapshot })
      mirrors)

unfoldable pub canonical_source : RegistrySourceResponse → RegistrySourceResponse
unfolding canonical_snapshot normalized_registry_url
canonical_source payload = record {
  snapshot = canonical_snapshot payload.snapshot;
  mirrored_sources = elim payload.mirrored_sources [
    | none ↦ none
    | some mirrors ↦ some (canonical_mirrors mirrors)
  ];
}

unfoldable pub registry_source_hash : Outside → RegistrySourceResponse → String
unfolding canonical_source
registry_source_hash outside payload = outside.source_digest (canonical_source payload)

-- Without exported_at and signature.
unfoldable pub registry_source_content_hash : Outside → RegistrySourceResponse → String
unfolding canonical_source
registry_source_content_hash outside payload = outside.source_digest (
    canonical_source
      (record payload { snapshot = record payload.snapshot { exported_at = 0; signature = none } }))

-- A tuple, compared from its first component on.
pub record Provenance : Type 0 where
  pub discovery_rank : ℕ
  pub verified : ℕ
  pub direct : ℕ

abbrev pub provenance_before : Provenance → Provenance → Bool
provenance_before a b =
    ltb a.discovery_rank b.discovery_rank
    || (nat_eq a.discovery_rank b.discovery_rank
        && (ltb a.verified b.verified || (nat_eq a.verified b.verified && ltb a.direct b.direct)))

abbrev pub same_provenance : Provenance → Provenance → Bool
same_provenance a b =
    nat_eq a.discovery_rank b.discovery_rank
    && nat_eq a.verified b.verified
    && nat_eq a.direct b.direct

abbrev pub priority_before : ℕ × Provenance → ℕ × Provenance → Bool
priority_before (exported_a, a) (exported_b, b) =
    ltb exported_a exported_b || (nat_eq exported_a exported_b && provenance_before a b)

abbrev pub same_priority : ℕ × Provenance → ℕ × Provenance → Bool
same_priority (exported_a, a) (exported_b, b) = nat_eq exported_a exported_b && same_provenance a b

abbrev pub as_number : Bool → ℕ
as_number true = 1
as_number false = 0

abbrev pub policy_rank : MirrorDiscoveryPolicy → ℕ
policy_rank trusted_only = 0
policy_rank all_active = 1

abbrev pub skip_or_raise : Bool → String → String → Result HttpException MirrorSourceStoreDecision
skip_or_raise true detail text = ok (record { stored = false; detail = some detail })
skip_or_raise false detail text = raised 409 text

module _ (outside : Outside) (config : RegistryConfig) where
  unfoldable pub is_trusted : String → Bool
  unfolding normalized_registry_url
  is_trusted url = member (normalized_registry_url url) config.trusted_mirror_upstream_urls

  abbrev discovery_rank : String → Bool → Option String → ℕ
  unfolding normalized_registry_url
  discovery_rank registry_url verified relay =
      if truthy relay
      then (if is_trusted (text_or_empty relay) && verified
          then 2
          else policy_rank config.mirror_discovery_policy)
      else if is_trusted registry_url && verified
      then 3
      else policy_rank config.mirror_discovery_policy

  unfoldable pub mirror_source_provenance_priority : String → Bool → Option String → Provenance
  unfolding normalized_registry_url
  mirror_source_provenance_priority registry_url verified relay = record {
    discovery_rank = discovery_rank registry_url verified relay;
    verified = as_number verified;
    direct = as_number (not (is_some relay));
  }

  unfoldable pub is_self_source : String → Bool
  unfolding normalized_registry_url
  is_self_source registry_url =
      not (config.registry_url == "")
      && not (normalized_registry_url config.registry_url == "")
      && normalized_registry_url registry_url == normalized_registry_url config.registry_url

  abbrev pub priority : RegistrySourceResponse → Bool → Option String → ℕ × Provenance
  unfolding mirror_source_provenance_priority
  priority payload verified relay = (
    payload.snapshot.exported_at,
    mirror_source_provenance_priority payload.snapshot.registry_url verified relay,
  )

  abbrev pub stored_priority : StoredMirrorSource → ℕ × Provenance
  unfolding mirror_source_provenance_priority
  stored_priority existing =
      priority existing.snapshot existing.verified_signature existing.relayed_by_registry_url

  -- Why the existing source stays, if it does.
  unfoldable pub skip_detail :
      RegistrySourceResponse → Bool → Option String → StoredMirrorSource → Option String
  unfolding registry_source_content_hash mirror_source_provenance_priority
  skip_detail payload verified relay existing =
      let incoming = priority payload verified relay in
      let old = stored_priority existing in
      if registry_source_content_hash outside payload
        == registry_source_content_hash outside existing.snapshot
      then (if provenance_before incoming.1 old.1
          then some "Skipped weaker mirror snapshot"
          else if same_provenance incoming.1 old.1
          then some "Skipped unchanged mirror snapshot"
          else none)
      else if priority_before incoming old
      then (if ltb incoming.0 old.0
          then some "Skipped older mirror snapshot"
          else some "Skipped weaker mirror snapshot")
      else if same_priority incoming old
      then some "Skipped weaker mirror snapshot"
      else none

  unfoldable pub existing_detail :
      RegistrySourceResponse → Bool → Option String → Option StoredMirrorSource → Option String
  unfolding skip_detail
  existing_detail payload verified relay none = none
  existing_detail payload verified relay (some existing) =
      skip_detail payload verified relay existing

  unfoldable pub put_source : StoredMirrorSource → RegistryStore → RegistryStore
  unfolding normalized_registry_url
  put_source stored s = record s {
    mirror_sources =
        insert (normalized_registry_url stored.snapshot.snapshot.registry_url) stored
          s.mirror_sources;
  }

  -- Stored, skipped or refused: whether it is the registry's own source, and why the existing source stays, if it does.
  unfoldable pub store_if :
      Bool → Option String → Bool → StoredMirrorSource → Request MirrorSourceStoreDecision
  unfolding put_source
  store_if true detail allow_stale_skip stored s = (
    skip_or_raise (is_some stored.relayed_by_registry_url || allow_stale_skip)
        "Skipped self mirror source" "Registry cannot import its own source snapshot",
    s,
  )
  store_if false (some detail) allow_stale_skip stored s = (
    skip_or_raise allow_stale_skip detail
        "Imported registry source must be newer than the cached snapshot",
    s,
  )
  store_if false none allow_stale_skip stored s =
      (ok (record { stored = true; detail = none }), put_source stored s)

  unfoldable pub store_mirror_source : StoredMirrorSource → Bool → Request MirrorSourceStoreDecision
  unfolding is_self_source existing_detail normalized_registry_url store_if
  store_mirror_source stored allow_stale_skip s =
      let payload = stored.snapshot in
      store_if (is_self_source payload.snapshot.registry_url)
        (existing_detail payload stored.verified_signature stored.relayed_by_registry_url
          (lookup (normalized_registry_url payload.snapshot.registry_url) s.mirror_sources))
        allow_stale_skip stored s
