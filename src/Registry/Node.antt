-- ===== src/Registry/Node.antt =====
-- p4p_core/models.py: what nodes and their owners send to a registry. A time that comes as a text
-- stays a text here, and is read by `Outside.fromisoformat`.
use p4p.Prelude.{ℕ, String, Bool, true, not, ◌&&◌, Option, List, [], ◌∷◌, member}

-- The numerals as they are sent.
pub record Location : Type 0 where
  pub lat : String
  pub lng : String

pub data DelegationRole : Type 0 where
  primary : DelegationRole
  backup : DelegationRole

pub record NodeDelegation : Type 0 where
  pub root_public_key : String
  pub issued_at : String
  pub expires_at : Option String
  pub role : DelegationRole
  pub capabilities : List String
  pub signature : String

pub data ManifestKeyStatus : Type 0 where
  active : ManifestKeyStatus
  revoked : ManifestKeyStatus

pub record NodeManifestKey : Type 0 where
  pub node_public_key : String
  pub role : DelegationRole
  pub capabilities : List String
  pub status : ManifestKeyStatus
  pub expires_at : Option String

-- NodeManifest.validate_keys
abbrev pub keys_are_unique : List String → List NodeManifestKey → Bool
keys_are_unique seen [] = true
keys_are_unique seen (value ∷ values) =
    not (member value.node_public_key seen) && keys_are_unique (value.node_public_key ∷ seen) values

pub record NodeManifest : Type 0 where
  pub node_id : String
  pub root_public_key : String
  pub manifest_version : ℕ
  pub issued_at : String
  pub keys : List NodeManifestKey
  pub signature : String

pub record NodeRootRotation : Type 0 where
  pub node_id : String
  pub previous_root_public_key : String
  pub next_root_public_key : String
  pub rotated_at : String
  pub signature : String

pub record NodeManifestRequest : Type 0 where
  pub manifest : NodeManifest
  pub root_rotation : Option NodeRootRotation

-- NodeDescriptor
pub record Node : Type 0 where
  pub node_id : String
  pub name : String
  pub location : Location
  pub country : String
  pub city : String
  pub categories : List String
  pub endpoint : String
  pub is_open : Bool
  pub order_mode : String
  pub modules : List String
  pub node_public_key : Option String
  pub delegation : Option NodeDelegation
  pub signed_at : Option String
  pub signature : Option String
  pub protocol_version : String

pub record HeartbeatRequest : Type 0 where
  pub node_id : String
  pub is_open : Bool
  pub signed_at : Option String
  pub signature : Option String
