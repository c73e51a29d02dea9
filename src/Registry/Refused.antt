-- ===== src/Registry/Refused.antt =====
-- Heartbeats of a node without a key, which are not checked (registry/validation.py,
-- `require_valid_heartbeat_signature`), and the announcements after them.
use p4p.Prelude.{
  ℕ, ◌≤◌, String, ◌≡◌, refl, ap, sym, ◌∙◌, arith, true, false, none, some, inl, inr, clash, le→leb,
}
use p4p.Prelude.Dict.{lookup, lookup-insert_self}
use p4p.Prelude.Result.{ok, err}
use p4p.Registry.Node.{Node, HeartbeatRequest}
use p4p.Registry.Store.{
  Outside, HttpException, aware, read_iso, StoredNode, RegistryConfig, RegistryStore, truthy,
  text_or_empty,
}
use p4p.Registry.Validation.{is_signed, is_replay}
use p4p.Registry.Validation.Announcement.{
  require_allowed_announcement_update, require_valid_heartbeat_signature,
}
use p4p.Registry.Validation.Allowed.{allowed-Verified, announce-allowed}
use p4p.Registry.Operations.{
  always, announce, heartbeat, store_node, store_heartbeat, beat_known, beaten, put_node,
}
use p4p.Registry.Requests.{checked-refuses}

pub aware_both :
    (outside : Outside) (text : String) (t u : ℕ)
    → read_iso outside text ≡ aware t
    → read_iso outside text ≡ aware u
    → t ≡ u
aware_both outside text t u a b = ground (arith, sym a ∙ b)

module _ (outside : Outside) where
  old_replay :
      (now t u : ℕ) (changed : StoredNode)
      → changed.last_signed_event_at ≡ some t
      → u ≤ t
      → is_replay outside now u (some changed) ≡ true
  old_replay now t u changed last h = rw last (le→leb u t h)

  -- The announcement is not newer than the last event of its node.
  old-NotAllowed :
      (now t u : ℕ) (node : Node) (changed : StoredNode) (s : RegistryStore)
      → lookup node.node_id s.nodes ≡ some changed
      → changed.last_signed_event_at ≡ some t
      → is_signed node ≡ true
      → read_iso outside (text_or_empty node.signed_at) ≡ aware u
      → u ≤ t
      → ¬ (
          require_allowed_announcement_update outside now node
            (lookup node.node_id s.nodes)
            (lookup node.node_id s.node_manifests)
          ≡ ok tt)
  old-NotAllowed now t u node changed s found last signed iso old allowed =
      elim (allowed-Verified outside now node (lookup node.node_id s.nodes)
        (lookup node.node_id s.node_manifests) allowed) [
          | inl neither ↦ clash signed (ground (arith, neither))
          | inr (signed', (verified, (v, (iso', newer)))) ↦
              let same = aware_both outside (text_or_empty node.signed_at) v u iso' iso in
              clash
                (ap (is_replay outside now v) found
                  ∙ old_replay now t v changed last (omega (arith, same, old)))
                newer
        ]

  open_heartbeat :
      (now t : ℕ) (payload : HeartbeatRequest) (stored : StoredNode) (s : RegistryStore)
      → lookup payload.node_id s.nodes ≡ some stored
      → truthy stored.node.node_public_key ≡ false
      → lookup payload.node_id s.node_manifests ≡ none
      → truthy payload.signed_at ≡ true
      → read_iso outside (text_or_empty payload.signed_at) ≡ aware t
      → heartbeat outside now payload s ≡ (
        ok (beaten outside now payload (some t) stored),
        put_node outside now payload.node_id (beaten outside now payload (some t) stored) s,
      )
  unfolding heartbeat beat_known require_valid_heartbeat_signature store_heartbeat
  open_heartbeat now t payload stored s found no_key no_manifest signed iso =
      rw found (rw no_manifest (rw no_key (rw signed (rw iso refl))))

  -- A heartbeat of a node that has no key and no manifest is accepted whatever signature and time it
  -- has; if the time is `t`, then no signed announcement of the node with a time up to `t` is
  -- accepted after it, and a refused one changes nothing.
  pub heartbeat-LocksNode :
      (now later t u : ℕ) (config : RegistryConfig) (payload : HeartbeatRequest)
      (stored : StoredNode) (s : RegistryStore) (node : Node)
      → lookup payload.node_id s.nodes ≡ some stored
      → truthy stored.node.node_public_key ≡ false
      → lookup payload.node_id s.node_manifests ≡ none
      → truthy payload.signed_at ≡ true
      → read_iso outside (text_or_empty payload.signed_at) ≡ aware t
      → node.node_id ≡ payload.node_id
      → is_signed node ≡ true
      → read_iso outside (text_or_empty node.signed_at) ≡ aware u
      → u ≤ t
      → ((heartbeat outside now payload s).0 ≡ ok (beaten outside now payload (some t) stored))
        × ((e : HttpException) × (announce outside later config node
                (heartbeat outside now payload s).1
              ≡ (err e, (heartbeat outside now payload s).1)))
  unfolding announce
  heartbeat-LocksNode now later t u config payload stored s node found no_key no_manifest beat_at
        iso same_id signed iso' old =
      let changed = beaten outside now payload (some t) stored in
      let after = put_node outside now payload.node_id changed s in
      let runs = open_heartbeat now t payload stored s found no_key no_manifest beat_at iso in
      rw runs (
        refl,
        checked-refuses _ (always (store_node outside later node)) after (λ passed.
            old-NotAllowed later t u node changed after
              (ap (λ i. lookup i after.nodes) same_id
                ∙ lookup-insert_self payload.node_id changed s.nodes)
              refl signed iso' old (announce-allowed config node _ passed)),
      )
