-- ===== src/Registry/Curated.antt =====
-- registry/models.py: the records of the curated index, and the claims about nodes.
use p4p.Prelude.{ℕ, String, Bool, Option, List}
use p4p.Registry.Node.{Node}

pub data FreshnessState : Type 0 where
  fresh : FreshnessState
  stale : FreshnessState

pub data CuratedPromotionDecision : Type 0 where
  promote : CuratedPromotionDecision
  deny : CuratedPromotionDecision

pub data CuratedPromotionDecisionOrigin : Type 0 where
  automatic : CuratedPromotionDecisionOrigin
  manual : CuratedPromotionDecisionOrigin

pub data CuratedOverrideDecision : Type 0 where
  allow : CuratedOverrideDecision
  refuse : CuratedOverrideDecision

pub record CuratedActiveIndexEntry : Type 0 where
  pub node : Node
  pub last_seen : ℕ
  pub source_registry_url : String
  pub source_relay_registry_url : Option String
  pub source_signature_verified : Bool
  pub source_discovery_basis : String
  pub source_snapshot_hash : String
  pub source_exported_at : ℕ
  pub source_imported_at : ℕ
  pub source_last_synced_at : ℕ
  pub source_freshness_state : FreshnessState

pub record CuratedOverrideRecord : Type 0 where
  pub source_registry_url : String
  pub source_relay_registry_url : Option String
  pub decision : CuratedOverrideDecision
  pub reason : String
  pub set_by : Option String
  pub expires_at : Option ℕ
  pub set_at : ℕ

pub record CuratedPromotionRecord : Type 0 where
  pub source_registry_url : String
  pub source_relay_registry_url : Option String
  pub source_signature_verified : Bool
  pub source_snapshot_hash : String
  pub source_exported_at : ℕ
  pub source_imported_at : ℕ
  pub source_last_synced_at : ℕ
  pub source_freshness_state : FreshnessState
  pub automatic_decision : CuratedPromotionDecision
  pub automatic_decision_basis : String
  pub override : Option CuratedOverrideRecord
  pub decision : CuratedPromotionDecision
  pub decision_origin : CuratedPromotionDecisionOrigin
  pub decision_basis : String
  pub active : Bool
  pub promotion_eligible : Bool
  pub promoted_node_ids : List String
  pub decided_at : ℕ

pub record DirectoryClaimRecord : Type 0 where
  pub node_id : String
  pub claims : List String
  pub reason : Option String
  pub set_by : Option String
  pub expires_at : Option ℕ
  pub set_at : ℕ

pub record TrustClaimRecord : Type 0 where
  pub issuer_registry_url : String
  pub issuer_registry_public_key : String
  pub node_id : String
  pub claims : List String
  pub reason : Option String
  pub issued_at : ℕ
  pub expires_at : Option ℕ
  pub signature : String
