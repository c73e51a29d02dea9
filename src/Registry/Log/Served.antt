-- ===== src/Registry/Log/Served.antt =====
-- Requests keep the statuses of the records, and the events signed in time (`announce`,
-- `heartbeat`, `node_manifest`).
use mathlib.Core.Path.{subst}
use p4p.Prelude.{
  ℕ, ◌+◌, ◌≤◌, String, ◌≡◌, refl, ap, sym, ◌∙◌, arith, true, false, [], All, All-append_one, length,
  inl, inr,
}
use p4p.Prelude.Dict.{lookup}
use p4p.Prelude.Result.{ok}
use p4p.Registry.Node.{Node, NodeManifestRequest, HeartbeatRequest, keys_are_unique}
use p4p.Registry.Identity.{find_record}
use p4p.Registry.Store.{
  Outside, aware, read_iso, StoredNode, StoredManifest, RegistryStore, RegistryConfig,
  text_or_empty,
}
use p4p.Registry.Validation.{is_signed}
use p4p.Registry.Validation.Announcement.{require_allowed_announcement_update}
use p4p.Registry.Validation.Allowed.{allowed-Verified}
use p4p.Registry.Validation.Entry.{allowed-Entry}
use p4p.Registry.Recording.{
  identity_event, recorded_status, first_record, record_signed_identity, node_key,
}
use p4p.Registry.Operations.{
  announced, put_node, store_node, store_manifest, announce, heartbeat, node_manifest,
}
use p4p.Registry.Log.Accepted.{SignedInTime}
use p4p.Registry.Log.Settled.{Settles}
use p4p.Registry.Log.Dropped.{IsComplete, apply-Settles}
use p4p.Registry.Runs.{beat-keeps, announce-keeps, heartbeat-keeps, node_manifest-keeps}
use p4p.Registry.Log.Recorded.{IsSettled, insert-IsKeyed, first_record-Settles, recorded-Settles}

module _ (outside : Outside) (now : ℕ) where
  -- The node is not signed ahead of the clock of the registry.
  abbrev pub SignedByNow : Node → Type 0
  SignedByNow node = (t : ℕ) → read_iso outside (text_or_empty node.signed_at) ≡ aware t → t ≤ now

  -- The manifest has its keys once, and if it is the first of its node it has those recorded.
  abbrev pub FitsManifest : RegistryStore → NodeManifestRequest → Type 0
  FitsManifest s payload =
      (keys_are_unique [] payload.manifest.keys ≡ true)
      × All
          (IsComplete outside now s.node_manifests
            (record { manifest = payload.manifest; stored_at = now })
            (lookup payload.manifest.node_id s.node_manifests))
          s.identity_records

  module _ (s : RegistryStore) (l : IsSettled outside s) where
    put_node-IsSettled :
        (node_id : String) (stored : StoredNode)
        → IsSettled outside (put_node outside now node_id stored s)
    put_node-IsSettled node_id stored = record {
      in_time = l.in_time;
      settled = l.settled;
      keyed = l.keyed;
    }

    signed-IsSettled :
        (node : Node) (stored : StoredNode) (t : ℕ)
        → is_signed node ≡ true
        → read_iso outside (text_or_empty node.signed_at) ≡ aware t
        → t ≤ now
        → Settles s.node_manifests (first_record outside now node)
        → IsSettled outside
            (record_signed_identity outside now node (put_node outside now node.node_id stored s))
    unfolding record_signed_identity
    signed-IsSettled node stored t signed iso in_time first =
        let found = find_record (node_key outside now node) s.identity_records in
        rw signed record {
          in_time =
              All-append_one (SignedInTime outside) s.identity_events
                (identity_event outside now node (length s.identity_events + 1)
                  (recorded_status outside now found))
                l.in_time (t, (iso, in_time));
          settled =
              recorded-Settles outside now s.node_manifests node found s.identity_records first
                l.settled;
          keyed = l.keyed;
        }

    store_node-IsSettled :
        (node : Node)
        → require_allowed_announcement_update outside now node
            (lookup node.node_id s.nodes)
            (lookup node.node_id s.node_manifests)
          ≡ ok tt
        → SignedByNow node
        → IsSettled outside (store_node outside now node s).1
    unfolding store_node record_signed_identity
    store_node-IsSettled node allowed by_now =
        let stored = announced outside now node (lookup node.node_id s.nodes) in
        elim (allowed-Verified outside now node (lookup node.node_id s.nodes)
          (lookup node.node_id s.node_manifests) allowed) [
            | inl neither ↦
                let unsigned : is_signed node ≡ false = ground (arith, neither) in
                let same : record_signed_identity outside now node
                      (put_node outside now node.node_id stored s)
                    ≡ put_node outside now node.node_id stored s =
                  rw unsigned refl in
                subst (IsSettled outside) (sym same) (put_node-IsSettled node.node_id stored)
            | inr (signed, (verified, (t, (iso, newer)))) ↦
                signed-IsSettled node stored t signed iso (by_now t iso) (
                  first_record-Settles outside now s.node_manifests node
                    (lookup node.node_id s.node_manifests) refl
                    (λ current found.
                      allowed-Entry outside now node (lookup node.node_id s.nodes) current signed (
                        sym (
                          ap
                            (require_allowed_announcement_update outside now node
                              (lookup node.node_id s.nodes))
                            found)
                        ∙ allowed)))
          ]

    pub announce-IsSettled :
        (config : RegistryConfig) (node : Node)
        → SignedByNow node
        → IsSettled outside (announce outside now config node s).1
    announce-IsSettled config node by_now =
        announce-keeps outside (IsSettled outside) now config node s l
          (λ allowed. store_node-IsSettled node allowed by_now)

    pub heartbeat-IsSettled :
        (payload : HeartbeatRequest) → IsSettled outside (heartbeat outside now payload s).1
    heartbeat-IsSettled payload =
        heartbeat-keeps outside (IsSettled outside) now payload s l (λ stored found passed.
          beat-keeps outside (IsSettled outside) now payload stored s
            (λ changed. put_node-IsSettled payload.node_id changed))

    pub node_manifest-IsSettled :
        (payload : NodeManifestRequest)
        → FitsManifest s payload
        → IsSettled outside (node_manifest outside now payload s).1
    unfolding store_manifest
    node_manifest-IsSettled payload (unique, complete) =
        let stored : StoredManifest = record { manifest = payload.manifest; stored_at = now } in
        node_manifest-keeps outside (IsSettled outside) now payload s l (λ passed. record {
          in_time = l.in_time;
          settled =
              apply-Settles outside now s.node_manifests stored
                (lookup payload.manifest.node_id s.node_manifests) s.identity_records refl unique
                complete l.settled;
          keyed = insert-IsKeyed stored s.node_manifests l.keyed;
        })
