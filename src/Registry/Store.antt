-- ===== src/Registry/Store.antt =====
-- registry/store.py: the state of a registry, and registry/config.py: what it is configured with.
-- Beside them stands what the registry calls and does not implement.
use Prim.Native.Char.{code}
use p4p.Prelude.{
  ◌≡◌, refl, ℕ, String, strip, Bool, true, false, not, ◌==◌, Option, none, some, List, nat_eq,
  if◌then◌else◌,
}
use p4p.Prelude.Dict.{Dict}
use p4p.Prelude.Result.{Result, err}
use p4p.Registry.Node.{Node, NodeManifest, NodeRootRotation, HeartbeatRequest}
use p4p.Registry.Identity.{NodeIdentityEvent, NodeIdentityRecord}
use p4p.Registry.Source.{
  RegistryMetadata, RegistryExportScope, RegistrySourceResponse, StoredMirrorSource,
}
use p4p.Registry.Curated.{
  CuratedActiveIndexEntry, CuratedPromotionRecord, CuratedOverrideRecord, DirectoryClaimRecord,
  TrustClaimRecord,
}

pub record HttpException : Type 0 where
  pub status_code : ℕ
  pub detail : String

abbrev pub http : ℕ → String → HttpException
http status detail = record { status_code = status; detail = detail }

abbrev pub Checked : Type 0
Checked = Result HttpException (Unit {0})

abbrev pub raised : {A : Type 0} → ℕ → String → Result HttpException A
raised status detail = err (http status detail)

-- What is signed: a record without its signature.
pub data Payload : Type 0 where
  node_payload : Node → Payload
  heartbeat_payload : HeartbeatRequest → Payload
  manifest_payload : NodeManifest → Payload
  root_rotation_payload : NodeRootRotation → Payload
  delegation_payload : Node → Payload
  trust_claim_payload : TrustClaimRecord → Payload
  source_payload : RegistrySourceResponse → Payload

-- verify_payload gives a Boolean, or raises ValueError on a key or signature that is not well formed.
pub data Verdict : Type 0 where
  valid : Verdict
  invalid : Verdict
  malformed : String → Verdict

-- datetime.fromisoformat: ValueError, a time without a time zone, or the time in UTC.
pub data Stamp : Type 0 where
  not_iso : Stamp
  naive : ℕ → Stamp
  aware : ℕ → Stamp

pub record UrlParts : Type 0 where
  pub scheme : String
  pub host : String

-- The cryptography library behind p4p_identity.py, the SHA-256 of the JSON of a signed announcement
-- and of a source, and the parsers of times and URLs.
pub record Outside : Type 0 where
  pub verify_payload : Payload → String → String → Verdict
  pub sign_payload : Payload → String → String
  pub announcement_hash : Node → String
  pub source_digest : RegistrySourceResponse → String
  pub fromisoformat : String → Stamp
  pub urlsplit : String → UrlParts

pub data MirrorDiscoveryPolicy : Type 0 where
  trusted_only : MirrorDiscoveryPolicy
  all_active : MirrorDiscoveryPolicy

pub data CuratedIndexPromotionPolicy : Type 0 where
  manual_only : CuratedIndexPromotionPolicy
  trusted_mirrors : CuratedIndexPromotionPolicy

pub record RegistryConfig : Type 0 where
  pub registry_db_path : String
  pub registry_url : String
  pub registry_admin_token : String
  pub trusted_mirror_upstream_urls : List String
  pub mirror_discovery_policy : MirrorDiscoveryPolicy
  pub registry_source_reexport_policy : RegistryExportScope
  pub curated_index_promotion_policy : CuratedIndexPromotionPolicy
  pub mirror_source_ttl_seconds : ℕ
  pub registry_private_key : Option String
  pub registry_public_key : Option String
  pub registry_metadata : RegistryMetadata

pub record StoredNode : Type 0 where
  pub node : Node
  pub last_seen : ℕ
  pub last_signed_event_at : Option ℕ

pub record StoredManifest : Type 0 where
  pub manifest : NodeManifest
  pub stored_at : ℕ

pub record RegistryStore : Type 0 where
  pub nodes : Dict StoredNode
  pub node_manifests : Dict StoredManifest
  pub identity_events : List NodeIdentityEvent
  pub identity_records : List NodeIdentityRecord
  pub mirror_sources : Dict StoredMirrorSource
  pub curated_active_index : Dict CuratedActiveIndexEntry
  pub curated_promotion_records : Dict CuratedPromotionRecord
  pub curated_overrides : Dict CuratedOverrideRecord
  pub directory_claims : Dict DirectoryClaimRecord
  pub trust_claims : Dict TrustClaimRecord

-- Times are microseconds.
abbrev pub second : ℕ
second = 1000000

abbrev pub text_or_empty : Option String → String
text_or_empty none = ""
text_or_empty (some t) = t

-- The truth value of a text or None.
abbrev pub truthy : Option String → Bool
truthy t = not (text_or_empty t == "")

-- str(value).rstrip("/")
abbrev is_nil : String → Bool
is_nil String.[] = true
is_nil (String.◌∷◌ c s) = false

rstrip_slash : String → String
rstrip_slash String.[] = String.[]
rstrip_slash (String.◌∷◌ c s) =
    let rest = rstrip_slash s in
    if is_nil rest
    then (if nat_eq (code c) 47 then String.[] else String.◌∷◌ c rest)
    else String.◌∷◌ c rest

unfoldable pub normalized_registry_url : String → String
unfolding rstrip_slash
normalized_registry_url value = rstrip_slash value

-- A final "Z" becomes "+00:00".
with_offset : String → String
with_offset String.[] = String.[]
with_offset (String.◌∷◌ c String.[]) =
    if nat_eq (code c) 90 then "+00:00" else String.◌∷◌ c String.[]
with_offset (String.◌∷◌ c (String.◌∷◌ d s)) = String.◌∷◌ c (with_offset (String.◌∷◌ d s))

unfoldable pub read_iso : Outside → String → Stamp
unfolding with_offset
read_iso outside value = outside.fromisoformat (with_offset (strip value))

normalized_test : normalized_registry_url "https://r.example//" ≡ "https://r.example"
unfolding normalized_registry_url
normalized_test = refl
