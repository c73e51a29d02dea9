-- ===== src/Registry/Validation/Entry.antt =====
-- A node that a manifest protects announces with an active key of the manifest.
use p4p.Prelude.{
  ℕ, String, ◌==◌, ◌≡◌, refl, ap, sym, ◌∙◌, arith, Bool, true, false, not, Option, none, some,
  subset, if◌then◌else◌,
}
use p4p.Prelude.Result.{Result, ok, require, >>=-eq-ok, >>-eq-ok, require-eq-ok}
use p4p.Registry.Node.{Node, NodeDelegation, NodeManifest, NodeManifestKey}
use p4p.Registry.Store.{
  Outside, HttpException, delegation_payload, StoredNode, StoredManifest, truthy, text_or_empty,
}
use p4p.Registry.Validation.{
  parse_timestamp, require_verdict, require_active_delegation, require_monotonic_signed_event,
  require_valid_node_signature, is_signed, is_active_status, find_key, matching_key, delegated_key,
  manifest_key_for_node, same_role, outlives, manifest_key_expiry, require_manifest_key_state,
}
use p4p.Registry.Validation.Announcement.{
  require_entry, require_valid_delegation, require_valid_node_delegation,
  require_signed_announcement, require_signed_if, require_allowed_announcement_update,
}
use p4p.Registry.Validation.Allowed.{allowed_parts, any_signature}

-- A test that gives None where it fails, before a computation that gave a value.
guarded :
    {E A : Type 0} (test : Bool) (m : Result E (Option A)) {a : A}
    → (if not test then ok none else m) ≡ ok (some a)
    → (test ≡ true) × (m ≡ ok (some a))
guarded true m h = (refl, h)
guarded false m h = absurd (ground (arith, h))

abbrev kept_entry : Bool → NodeManifestKey → Result HttpException (Option NodeManifestKey)
kept_entry dropped entry = ok (if dropped then none else some entry)

kept-eq :
    (dropped : Bool) (entry e : NodeManifestKey)
    → kept_entry dropped entry ≡ ok (some e)
    → entry ≡ e
kept-eq true entry e h = absurd (ground (arith, h))
kept-eq false entry e h = ground (arith, h)

module _ (outside : Outside) (now : ℕ) where
  matching_key-eq :
      (delegation : NodeDelegation) (entry e : NodeManifestKey)
      → matching_key outside now delegation entry ≡ ok (some e)
      → entry ≡ e
  unfolding matching_key
  matching_key-eq delegation entry e h =
      let (role, h') = guarded (same_role entry.role delegation.role) _ h in
      let (within, h'') = guarded (subset delegation.capabilities entry.capabilities) _ h' in
      let (a, (p, h3)) =
        >>=-eq-ok (manifest_key_expiry outside now delegation.expires_at "delegation.expires_at") _
          h'' in
      let (b, (q, h4)) =
        >>=-eq-ok (manifest_key_expiry outside now entry.expires_at "manifest.keys[].expires_at") _
          h3 in
      kept-eq (outlives a b) entry e h4

  abbrev entry_key :
      NodeDelegation → Option NodeManifestKey → Result HttpException (Option NodeManifestKey)
  entry_key delegation entry = elim entry [
    | none ↦ ok none
    | some k ↦ matching_key outside now delegation k
  ]

  found_key :
      (delegation : NodeDelegation) (entry : Option NodeManifestKey) (e : NodeManifestKey)
      → entry_key delegation entry ≡ ok (some e)
      → entry ≡ some e
  found_key delegation none e h = absurd (ground (arith, h))
  found_key delegation (some k) e h = ap some (matching_key-eq delegation k e h)

  delegated-find_key :
      (manifest : NodeManifest) (key : String) (delegation : Option NodeDelegation)
      (e : NodeManifestKey)
      → delegated_key outside now manifest key delegation ≡ ok (some e)
      → find_key key manifest.keys ≡ some e
  unfolding delegated_key
  delegated-find_key manifest key none e h = absurd (ground (arith, h))
  delegated-find_key manifest key (some delegation) e h =
      let (root, h') = guarded (delegation.root_public_key == manifest.root_public_key) _ h in
      found_key delegation (find_key key manifest.keys) e h'

  manifest_key-find_key :
      (manifest : NodeManifest) (node : Node) (e : NodeManifestKey)
      → manifest_key_for_node outside now manifest node ≡ ok (some e)
      → find_key (text_or_empty node.node_public_key) manifest.keys ≡ some e
  unfolding manifest_key_for_node
  manifest_key-find_key manifest node e h =
      let (key, h') = guarded (truthy node.node_public_key) _ h in
      delegated-find_key manifest (text_or_empty node.node_public_key) node.delegation e h'

  -- The entry of the manifest for the key of the node is there, and active.
  abbrev pub HasActiveEntry : NodeManifest → Node → Type 0
  HasActiveEntry manifest node =
      (e : NodeManifestKey) × ((find_key (text_or_empty node.node_public_key) manifest.keys
          ≡ some e)
        × (is_active_status e.status ≡ true))

  required_entry :
      (manifest : NodeManifest) (node : Node) (entry : Option NodeManifestKey)
      (detail capability : String)
      → manifest_key_for_node outside now manifest node ≡ ok entry
      → require_entry outside now entry detail capability ≡ ok tt
      → HasActiveEntry manifest node
  unfolding require_entry require_manifest_key_state
  required_entry manifest node none detail capability found h = absurd (ground (arith, h))
  required_entry manifest node (some e) detail capability found h =
      let (status, rest) = >>-eq-ok (require (is_active_status e.status) _) _ h in
      (e, (manifest_key-find_key manifest node e found, require-eq-ok _ _ status))

  delegated_entry :
      (node : Node) (delegation : Option NodeDelegation) (existing : Option StoredNode)
      (stored : StoredManifest) (capability : String)
      → require_valid_node_delegation outside now node delegation existing (some stored) capability
        ≡ ok tt
      → HasActiveEntry stored.manifest node
  unfolding require_valid_node_delegation require_valid_delegation
  delegated_entry node none existing stored capability h = absurd (ground (arith, h))
  delegated_entry node (some delegation) existing stored capability h =
      let (a, h') = >>-eq-ok (require (truthy node.node_public_key) _) _ h in
      let (b, h'') =
        >>-eq-ok
          (require_active_delegation outside now delegation "delegation.issued_at" capability) _
          h' in
      let (c, h''') =
        >>-eq-ok
          (require_verdict "Invalid node delegation signature" (
            outside.verify_payload (delegation_payload node) delegation.root_public_key
              delegation.signature))
          _ h'' in
      let (entry, (found, state)) =
        >>=-eq-ok (manifest_key_for_node outside now stored.manifest node) _ h''' in
      required_entry stored.manifest node entry _ capability found state

  signed_announcement-Entry :
      (node : Node) (existing : Option StoredNode) (stored : StoredManifest)
      → require_signed_announcement outside now node existing (some stored) ≡ ok tt
      → HasActiveEntry stored.manifest node
  unfolding require_signed_announcement
  signed_announcement-Entry node existing stored h =
      let (signature, h') = >>-eq-ok (require_valid_node_signature outside now node) _ h in
      let (t, (time, h'')) =
        >>=-eq-ok (parse_timestamp outside now (text_or_empty node.signed_at) "signed_at") _ h' in
      let (monotonic, delegation) =
        >>-eq-ok (require_monotonic_signed_event outside now t existing "signed_at") _ h'' in
      delegated_entry node node.delegation existing stored "announce" delegation

  pub allowed-Entry :
      (node : Node) (existing : Option StoredNode) (stored : StoredManifest)
      → is_signed node ≡ true
      → require_allowed_announcement_update outside now node existing (some stored) ≡ ok tt
      → HasActiveEntry stored.manifest node
  unfolding require_signed_if
  allowed-Entry node existing stored signed h =
      let either : any_signature outside now node ≡ true = ground (arith, signed) in
      let checks = (allowed_parts outside now node existing (some stored) h).0 in
      let taken : require_signed_if outside now (any_signature outside now node) node existing
            (some stored)
          ≡ require_signed_announcement outside now node existing (some stored) =
        rw either refl in
      signed_announcement-Entry node existing stored (sym taken ∙ checks)
