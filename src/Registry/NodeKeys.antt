-- ===== src/Registry/NodeKeys.antt =====
-- A node that has announced itself with a key keeps the key (`announce` and `heartbeat` of
-- registry/routes.py).
pub mod Run
use p4p.Prelude.{
  ℕ, ◌≤◌, ◌<◌, String, ◌==◌, ◌≡◌, refl, ap, sym, ◌∙◌, arith, Bool, true, false, not, Option, none,
  some, List, [], ◌∷◌, Bool-cases, Option-cases, inl, inr, ◌⊎◌, clash, eq_iff, if◌then◌else◌,
}
use p4p.Prelude.Dict.{Dict, lookup, insert, lookup-insert, lookup-insert_other, lookup-insert_self}
use p4p.Prelude.Result.{Result, ok, err, require, ◌>>=◌, ◌>>◌, >>-eq-ok}
use p4p.Registry.Node.{Node, HeartbeatRequest, NodeManifestRequest}
use p4p.Registry.Store.{
  Outside, HttpException, http, Checked, aware, read_iso, StoredNode, RegistryConfig, RegistryStore,
  truthy, text_or_empty,
}
use p4p.Registry.Recording.{record_signed_identity}
use p4p.Registry.Operations.{
  Request, checked, always, announce, heartbeat, node_manifest, store_node, store_manifest,
  store_heartbeat, announced, beaten, beat_signed, beat_known, deserialize_datetime, put_node,
}
use p4p.Registry.Validation.{is_signed}
use p4p.Registry.Validation.Announcement.{
  require_allowed_announcement_update, require_valid_heartbeat_signature,
}
use p4p.Registry.Validation.Beats.{heartbeat-Verified}
use p4p.Registry.Validation.Allowed.{SignedLater, Verified, allowed-same_key, announce-allowed}
use p4p.Registry.Requests.{nodes-recorded}
use p4p.Registry.Log.Newest.{not_replay}
use p4p.Registry.Log.Announced.{announced-last}
use p4p.Registry.Log.Kept.{some_eq}
use p4p.Registry.Log.Run.{NodeRequest, announcement, beat, new_manifest, serve, serve_all}

-- The node has the key, and its last signed event is not older than `last`.
abbrev pub HasKey : String → String → ℕ → Dict StoredNode → Type 0
HasKey node_id key last nodes =
    (stored : StoredNode) × ((lookup node_id nodes ≡ some stored)
      × ((text_or_empty stored.node.node_public_key ≡ key)
          × ((t : ℕ) × ((stored.last_signed_event_at ≡ some t) × (last ≤ t)))))

module _ (outside : Outside) (key : String) (is_key : (key == "") ≡ false) where
  pub is_truthy : (t : Option String) → text_or_empty t ≡ key → truthy t ≡ true
  is_truthy t same = ap (λ k. not (k == "")) same ∙ rw is_key refl

  -- An allowed announcement of the node is signed by the key, later than the last event.
  pub allowed_by_key :
      (now last : ℕ) (s : RegistryStore) (node : Node)
      → HasKey node.node_id key last s.nodes
      → require_allowed_announcement_update outside now node
          (lookup node.node_id s.nodes)
          (lookup node.node_id s.node_manifests)
        ≡ ok tt
      → (text_or_empty node.node_public_key ≡ key)
        × ((is_signed node ≡ true)
            × (Verified outside now node
                × ((t : ℕ) × ((read_iso outside (text_or_empty node.signed_at) ≡ aware t)
                      × (last < t)))))
  allowed_by_key now last s node (old, (found, (own, (u, (is_last, later))))) allowed =
      let allowed' =
        sym (
          ap
            (λ o.
              require_allowed_announcement_update outside now node o
                (lookup node.node_id s.node_manifests))
            found)
        ∙ allowed in
      let (same, (signed, (verified, (t, (iso, newer))))) =
        allowed-same_key outside now node old (lookup node.node_id s.node_manifests) allowed'
          (is_truthy old.node.node_public_key own) in
      (
        same ∙ own,
        (
          signed,
          (
            verified,
            (t, (iso, omega (arith, later, not_replay outside now t u old is_last newer))),
          ),
        ),
      )

  pub HasKey-other :
      (node_id other : String) (last : ℕ) (new : StoredNode) (nodes : Dict StoredNode)
      → (other == node_id) ≡ false
      → HasKey node_id key last nodes
      → HasKey node_id key last (insert other new nodes)
  HasKey-other node_id other last new nodes apart (old, (found, more)) =
      (old, (lookup-insert_other other node_id new nodes apart ∙ found, more))

  pub store_node-HasKey :
      (now last : ℕ) (node_id : String) (node : Node) (s : RegistryStore)
      → HasKey node_id key last s.nodes
      → require_allowed_announcement_update outside now node
          (lookup node.node_id s.nodes)
          (lookup node.node_id s.node_manifests)
        ≡ ok tt
      → HasKey node_id key last (store_node outside now node s).1.nodes
  unfolding store_node
  store_node-HasKey now last node_id node s has allowed =
      let new = announced outside now node (lookup node.node_id s.nodes) in
      rw (nodes-recorded outside now node (put_node outside now node.node_id new s))
        (elim (Bool-cases (node.node_id == node_id)) [
          | inr other ↦ HasKey-other node_id node.node_id last new s.nodes other has
          | inl own ↦
              let same_id = (eq_iff node.node_id node_id).0 own in
              let has' : HasKey node.node_id key last s.nodes = rw same_id has in
              let (same, (signed, (verified, (t, (iso, later))))) =
                allowed_by_key now last s node has' allowed in
              (
                new,
                (
                  ap (λ i. lookup i (insert node.node_id new s.nodes)) (sym same_id)
                      ∙ lookup-insert_self node.node_id new s.nodes,
                  (
                    same,
                    (
                      t,
                      (
                        announced-last outside now t node (lookup node.node_id s.nodes)
                            (ground (arith, signed)) iso,
                        omega (arith, later),
                      ),
                    ),
                  ),
                ),
              )
        ])
