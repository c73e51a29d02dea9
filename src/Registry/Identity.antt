-- ===== src/Registry/Identity.antt =====
-- registry/models.py and registry/store.py: the log of signed announcements, and the records that
-- count its events for each key of each node.
use p4p.Prelude.{ℕ, String, Bool, ◌&&◌, ◌==◌, Option, none, some, List, [], ◌∷◌, if◌then◌else◌}

pub data IdentityScope : Type 0 where
  loopback : IdentityScope
  public : IdentityScope

pub data IdentityStatus : Type 0 where
  active : IdentityStatus
  revoked : IdentityStatus
  rotated : IdentityStatus

pub record NodeIdentityEvent : Type 0 where
  pub event_id : ℕ
  pub node_id : String
  pub node_public_key : String
  pub signed_at : String
  pub announcement_signature : String
  pub announcement_hash : String
  pub status : IdentityStatus
  pub scope : IdentityScope
  pub recorded_at : ℕ

pub record NodeIdentityRecord : Type 0 where
  pub node_id : String
  pub node_public_key : String
  pub first_seen : ℕ
  pub last_seen : ℕ
  pub status : IdentityStatus
  pub scope : IdentityScope
  pub event_count : ℕ

-- (node_id, node_public_key)
pub record RecordKey : Type 0 where
  pub node_id : String
  pub node_public_key : String

abbrev pub same_record_key : RecordKey → RecordKey → Bool
same_record_key a b = a.node_id == b.node_id && a.node_public_key == b.node_public_key

abbrev pub record_key : NodeIdentityRecord → RecordKey
record_key r = record { node_id = r.node_id; node_public_key = r.node_public_key }

abbrev pub event_key : NodeIdentityEvent → RecordKey
event_key e = record { node_id = e.node_id; node_public_key = e.node_public_key }

-- self._identity_records is a dict whose records hold their keys: a list of the records, in which
-- no key repeats.
abbrev pub find_record : RecordKey → List NodeIdentityRecord → Option NodeIdentityRecord
find_record k [] = none
find_record k (r ∷ rs) = if same_record_key (record_key r) k then some r else find_record k rs

abbrev pub change_if :
    RecordKey → (NodeIdentityRecord → NodeIdentityRecord) → NodeIdentityRecord → NodeIdentityRecord
change_if k f r = if same_record_key (record_key r) k then f r else r

-- The record with the key, if there is one, is changed.
unfoldable pub change_record :
    RecordKey
    → (NodeIdentityRecord → NodeIdentityRecord)
    → List NodeIdentityRecord
    → List NodeIdentityRecord
change_record k f [] = []
change_record k f (r ∷ rs) = change_if k f r ∷ change_record k f rs
