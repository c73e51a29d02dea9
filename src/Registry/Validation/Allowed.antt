-- ===== src/Registry/Validation/Allowed.antt =====
-- What an accepted announcement or heartbeat satisfies.
use p4p.Prelude.{
  ℕ, String, ◌==◌, ◌≡◌, refl, sym, ◌∙◌, arith, Bool, true, false, not, ◌&&◌, ◌||◌, Option, some,
  Bool-cases, inl, inr, ◌⊎◌, clash, eq_iff,
}
use p4p.Prelude.Result.{ok, require, ◌>>◌, >>=-eq-ok, >>-eq-ok, require-eq-ok}
use p4p.Registry.Node.{Node}
use p4p.Registry.Store.{
  Outside, http, Checked, RegistryConfig, Stamp, not_iso, naive, aware, read_iso, node_payload,
  Verdict, valid, invalid, malformed, StoredNode, StoredManifest, truthy, text_or_empty,
}
use p4p.Registry.Validation.{
  has_node_signature_fields, parse_timestamp, stamp_time, require_verdict,
  require_not_too_far_in_future, require_monotonic_signed_event, require_valid_node_signature,
  is_replay, is_signed,
}
use p4p.Registry.Validation.Announcement.{
  is_some, require_signed_announcement, require_signed_if, require_key, require_same_key,
  require_allowed_announcement_update,
}

-- A time of signing that is a time, and later than the last event of the node.
abbrev pub SignedLater : Outside → ℕ → Option String → Option StoredNode → Type 0
SignedLater outside now signed_at existing =
    (t : ℕ) × ((read_iso outside (text_or_empty signed_at) ≡ aware t)
      × (is_replay outside now t existing ≡ false))

stamp_time-aware :
    (field_name : String) (stamp : Stamp) (t : ℕ)
    → stamp_time field_name stamp ≡ ok t
    → stamp ≡ aware t
unfolding stamp_time
stamp_time-aware field_name not_iso t h = absurd (ground (arith, h))
stamp_time-aware field_name (naive u) t h = absurd (ground (arith, h))
stamp_time-aware field_name (aware u) t h = ground (arith, h)

pub require_verdict-valid :
    (detail : String) (v : Verdict) → require_verdict detail v ≡ ok tt → v ≡ valid
unfolding require_verdict
require_verdict-valid detail valid h = refl
require_verdict-valid detail invalid h = absurd (ground (arith, h))
require_verdict-valid detail (malformed text) h = absurd (ground (arith, h))

pub not-true : (b : Bool) → not b ≡ true → b ≡ false
not-true true h = absurd (ground (arith, h))
not-true false h = refl

-- The check of an announcement after those of the registry and of the version.
pub announce-allowed :
    (config : RegistryConfig) (node : Node) (rest : Checked)
    → (do
      require config.registry_metadata.capabilities.can_onboard_nodes
          (http 403 "This registry is not allowed to onboard nodes")
      require (node.protocol_version == "0.1") (http 400 "Unsupported protocol_version")
      rest)
      ≡ ok tt
    → rest ≡ ok tt
announce-allowed config node rest passed =
    let (a, more) =
      >>-eq-ok (require config.registry_metadata.capabilities.can_onboard_nodes _) _ passed in
    (>>-eq-ok (require (node.protocol_version == "0.1") _) _ more).1

module _ (outside : Outside) (now : ℕ) where
  pub parse_timestamp-aware :
      (value field_name : String) (t : ℕ)
      → parse_timestamp outside now value field_name ≡ ok t
      → read_iso outside value ≡ aware t
  unfolding parse_timestamp
  parse_timestamp-aware value field_name t h =
      stamp_time-aware field_name (read_iso outside value) t h

  -- A signed announcement carries a valid signature of the key that it names.
  abbrev pub Verified : Node → Type 0
  Verified node =
      outside.verify_payload (node_payload node) (text_or_empty node.node_public_key)
        (text_or_empty node.signature)
      ≡ valid

  pub signed_announcement-Verified :
      (node : Node) (existing : Option StoredNode) (stored : Option StoredManifest)
      → require_signed_announcement outside now node existing stored ≡ ok tt
      → (is_signed node ≡ true) × (Verified node × SignedLater outside now node.signed_at existing)
  unfolding require_signed_announcement require_valid_node_signature require_monotonic_signed_event
  signed_announcement-Verified node existing stored h =
      let (signature, rest) = >>-eq-ok (require_valid_node_signature outside now node) _ h in
      let (fields, verdict) = >>-eq-ok (require (is_signed node) _) _ signature in
      let (t, (time, rest')) =
        >>=-eq-ok (parse_timestamp outside now (text_or_empty node.signed_at) "signed_at") _ rest in
      let (monotonic, delegation) =
        >>-eq-ok (require_monotonic_signed_event outside now t existing "signed_at") _ rest' in
      let (future, newer) =
        >>-eq-ok (require_not_too_far_in_future outside now t "signed_at") _ monotonic in
      (
        require-eq-ok (is_signed node) _ fields,
        (
          require_verdict-valid "Invalid node announcement signature" _ verdict,
          (
            t,
            (
              parse_timestamp-aware (text_or_empty node.signed_at) "signed_at" t time,
              not-true (is_replay outside now t existing) (require-eq-ok _ _ newer),
            ),
          ),
        ),
      )

  abbrev pub any_signature : Node → Bool
  any_signature node = has_node_signature_fields node || is_some node.delegation

  pub allowed_parts :
      (node : Node) (existing : Option StoredNode) (stored : Option StoredManifest)
      → require_allowed_announcement_update outside now node existing stored ≡ ok tt
      → (require_signed_if outside now (any_signature node) node existing stored ≡ ok tt)
        × (require_same_key outside now node existing ≡ ok tt)
  unfolding require_allowed_announcement_update
  allowed_parts node existing stored h =
      let (a, rest) =
        >>-eq-ok
          (require
            (not (
              is_some stored
              && not (has_node_signature_fields node)
              && not (is_some node.delegation)))
            _)
          _ h in
      let (b, rest') =
        >>-eq-ok (require (not (is_some node.delegation && not (has_node_signature_fields node))) _)
          _ rest in
      >>-eq-ok (require_signed_if outside now (any_signature node) node existing stored) _ rest'

  signed_if-Verified :
      (node : Node) (existing : Option StoredNode) (stored : Option StoredManifest)
      → require_signed_if outside now (any_signature node) node existing stored ≡ ok tt
      → (any_signature node ≡ false)
        ⊎ ((is_signed node ≡ true)
            × (Verified node × SignedLater outside now node.signed_at existing))
  unfolding require_signed_if
  signed_if-Verified node existing stored h = elim (Bool-cases (any_signature node)) [
    | inl either ↦
        inr (signed_announcement-Verified node existing stored (sym (rw either refl) ∙ h))
    | inr neither ↦ inl neither
  ]

  -- An announcement that is allowed is unsigned and undelegated, or signed and checked.
  pub allowed-Verified :
      (node : Node) (existing : Option StoredNode) (stored : Option StoredManifest)
      → require_allowed_announcement_update outside now node existing stored ≡ ok tt
      → (any_signature node ≡ false)
        ⊎ ((is_signed node ≡ true)
            × (Verified node × SignedLater outside now node.signed_at existing))
  allowed-Verified node existing stored h =
      signed_if-Verified node existing stored (allowed_parts node existing stored h).0

  same_key-eq :
      (node : Node) (existing : StoredNode)
      → require_same_key outside now node (some existing) ≡ ok tt
      → truthy existing.node.node_public_key ≡ true
      → (truthy node.node_public_key ≡ true)
        × (text_or_empty node.node_public_key ≡ text_or_empty existing.node.node_public_key)
  unfolding require_same_key
  same_key-eq node existing h protected =
      let protects : require_same_key outside now node (some existing)
          ≡ require_key outside now node existing.node =
        rw protected refl in
      let (a, b) =
        >>-eq-ok (require (truthy node.node_public_key && truthy node.signature) _) _
          (sym protects ∙ h) in
      (
        ground (arith, require-eq-ok (truthy node.node_public_key && truthy node.signature) _ a),
        (eq_iff (text_or_empty node.node_public_key)
              (text_or_empty existing.node.node_public_key)).0
            (require-eq-ok _ _ b),
      )

  -- A key that signed for the node before signs again.
  pub allowed-same_key :
      (node : Node) (existing : StoredNode) (stored : Option StoredManifest)
      → require_allowed_announcement_update outside now node (some existing) stored ≡ ok tt
      → truthy existing.node.node_public_key ≡ true
      → (text_or_empty node.node_public_key ≡ text_or_empty existing.node.node_public_key)
        × ((is_signed node ≡ true)
            × (Verified node × SignedLater outside now node.signed_at (some existing)))
  allowed-same_key node existing stored h protected =
      let (key, same) =
        same_key-eq node existing (allowed_parts node (some existing) stored h).1 protected in
      elim (allowed-Verified node (some existing) stored h) [
        | inl neither ↦ clash key (ground (arith, neither))
        | inr checked ↦ (same, checked)
      ]
