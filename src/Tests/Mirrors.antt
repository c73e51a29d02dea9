-- ===== src/Tests/Mirrors.antt =====
-- Two exports of one registry, imported by another.
use p4p.Prelude.{
  ℕ, String, strip, ◌==◌, ◌≡◌, refl, true, false, none, some, All, [], ◌∷◌, if◌then◌else◌,
}
use p4p.Prelude.Result.{ok, err}
use p4p.Registry.Source.{
  RegistrySourceResponse, RegistrySourceMirrorExport, relayed_sources, in_memory, sqlite,
  StoredMirrorSource, local_only, local_plus_trusted_mirrors,
}
use p4p.Registry.Validation.Response.{
  require_valid_registry_source, has_any, Relayed, require_valid_registry_source-Relayed,
}
use p4p.Registry.Validation.Signature.{IsSigned}
use p4p.Registry.Store.{
  RegistryStore, normalized_registry_url, http, Payload, source_payload, Verdict, valid, invalid,
}
use p4p.Registry.Export.{storage_backend}
use p4p.Registry.Mirrors.{
  store_mirror_source, put_source, is_self_source, existing_detail, skip_detail, store_if,
  registry_source_content_hash, canonical_source, canonical_snapshot,
  mirror_source_provenance_priority,
}
use p4p.Registry.Mirrors.Imports.{store_mirror_source-repeat, store_mirror_source-commute}
use p4p.Registry.Log.Exported.{empty_registry}
use p4p.Tests.Registry.{outside, config}

abbrev export : String → ℕ → RegistrySourceResponse
export url exported_at = record {
  snapshot = record {
    registry_version = if url == "https://registry.example" then "0.1" else url;
    registry_url = url;
    registry_metadata = config.registry_metadata;
    export_scope = local_only;
    exported_at = exported_at;
    storage_backend = in_memory;
    latest_identity_event_id = none;
    nodes = [];
    manifests = [];
    identity_records = [];
    identity_events = [];
    registry_public_key = some "key-r";
    signature = some "key-r";
  };
  mirrored_sources = none;
}

abbrev mirror : String → ℕ → StoredMirrorSource
mirror url exported_at = record {
  snapshot = export url exported_at;
  imported_at = 10;
  verified_signature = true;
  relayed_by_registry_url = none;
}

abbrev filled : RegistryStore
unfolding store_mirror_source
filled =
    (store_mirror_source outside config (mirror "https://north.example" 5) true empty_registry).1

import_tests :
    ((store_mirror_source outside config
        (mirror "https://registry.example/" 5)
        false
        empty_registry).0
      ≡ err (http 409 "Registry cannot import its own source snapshot"))
    × ((store_mirror_source outside config (mirror "https://north.example/" 4) false filled).0
        ≡ err (http 409 "Imported registry source must be newer than the cached snapshot"))
unfolding store_mirror_source is_self_source existing_detail skip_detail store_if put_source
    normalized_registry_url registry_source_content_hash canonical_source canonical_snapshot
    mirror_source_provenance_priority
import_tests = (refl, refl)

store_mirror_source-repeat_example :
    store_mirror_source outside config
      (record (mirror "https://north.example" 5) { imported_at = 12 })
      true
      filled
    ≡ (ok (record { stored = false; detail = some "Skipped unchanged mirror snapshot" }), filled)
unfolding store_mirror_source is_self_source existing_detail skip_detail store_if
    normalized_registry_url
store_mirror_source-repeat_example =
    store_mirror_source-repeat outside config true (mirror "https://north.example" 5) empty_registry
      filled (record { stored = true; detail = none }) 12 refl refl

-- The URL of the later export has a slash at its end.
store_mirror_source-commute_example :
    ((store_mirror_source outside config
        (mirror "https://north.example/" 9)
        true
        (store_mirror_source outside config
          (mirror "https://north.example" 5)
          true
          empty_registry).1).1
      ≡ put_source outside config (mirror "https://north.example/" 9) empty_registry)
    × ((store_mirror_source outside config
          (mirror "https://north.example" 5)
          true
          (store_mirror_source outside config
            (mirror "https://north.example/" 9)
            true
            empty_registry).1).1
        ≡ put_source outside config (mirror "https://north.example/" 9) empty_registry)
unfolding is_self_source normalized_registry_url registry_source_content_hash canonical_source
    canonical_snapshot mirror_source_provenance_priority
store_mirror_source-commute_example =
    store_mirror_source-commute outside config (mirror "https://north.example" 5)
      (mirror "https://north.example/" 9) empty_registry refl refl refl refl refl refl

-- A relay of an export, and the same without the signature of the relay.
abbrev official : String → ℕ → RegistrySourceResponse
official url exported_at = record {
  snapshot = record (export url exported_at).snapshot { registry_version = "0.1" };
  mirrored_sources = none;
}

abbrev relayed : RegistrySourceMirrorExport
relayed = record {
  snapshot = (official "https://north.example" 5).snapshot;
  imported_at = 7;
  verified_signature = true;
  discovery_eligible = true;
  discovery_basis = "trusted_upstream";
  relayed_by_registry_url = "https://relay.example";
}

abbrev relay : RegistrySourceResponse
relay = record {
  snapshot = record (official "https://relay.example" 8).snapshot {
    export_scope = local_plus_trusted_mirrors;
  };
  mirrored_sources = some (relayed ∷ []);
}

relay_tests :
    (require_valid_registry_source outside 10
        (record relay { snapshot = record relay.snapshot { signature = some "key-x" } })
      ≡ err (http 400 "Invalid registry source signature"))
    × (require_valid_registry_source outside 10
          (record relay { mirrored_sources = some (relayed ∷ relayed ∷ []) })
        ≡ err (http 400 "Re-exported mirrored sources must not repeat the same registry_url"))
unfolding require_valid_registry_source normalized_registry_url
relay_tests = (refl, refl)

require_valid_registry_source-Relayed_example :
    All (Relayed outside 10 relay.snapshot) (relayed_sources relay)
    × (has_any (relayed_sources relay) ≡ true → IsSigned outside relay)
unfolding require_valid_registry_source normalized_registry_url
require_valid_registry_source-Relayed_example =
    require_valid_registry_source-Relayed outside 10 relay true refl

-- A verifier that knows the relay without the sources that it relays.
abbrev alone : Payload → Verdict
alone (source_payload payload) = if has_any (relayed_sources payload) then invalid else valid
alone _ = valid

covered_test :
    require_valid_registry_source
      (record outside { verify_payload = λ p key signature. alone p })
      10
      relay
    ≡ err (http 400 "Invalid registry source signature")
unfolding require_valid_registry_source normalized_registry_url
covered_test = refl

backend_tests :
    (storage_backend (record config { registry_db_path = " " }) ≡ in_memory)
    × ((storage_backend (record config { registry_db_path = ":memory:" }) ≡ in_memory)
        × (storage_backend (record config { registry_db_path = "registry.db" }) ≡ sqlite))
unfolding storage_backend strip
backend_tests = (refl, (refl, refl))
