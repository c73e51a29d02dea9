-- ===== src/Registry/NodeKeys/Run.antt =====
-- The keys of nodes over a run of requests.
use p4p.Prelude.{
  ℕ, ◌<◌, String, ◌==◌, ◌≡◌, refl, ap, sym, ◌∙◌, arith, true, false, some, List, Bool-cases, inl,
  inr, eq_iff,
}
use p4p.Prelude.Dict.{lookup, insert, lookup-insert_self}
use p4p.Prelude.Result.{ok}
use p4p.Registry.Node.{Node, HeartbeatRequest}
use p4p.Registry.Store.{
  Outside, aware, read_iso, StoredNode, RegistryConfig, RegistryStore, text_or_empty,
}
use p4p.Registry.Operations.{always, announce, store_node, store_manifest, store_heartbeat, beaten}
use p4p.Registry.Validation.{is_signed}
use p4p.Registry.Validation.Announcement.{require_valid_heartbeat_signature}
use p4p.Registry.Validation.Beats.{heartbeat-Verified}
use p4p.Registry.Validation.Allowed.{Verified, announce-allowed}
use p4p.Registry.Log.Newest.{not_replay}
use p4p.Registry.Log.Kept.{some_eq}
use p4p.Registry.Log.Run.{NodeRequest, serve_all}
use p4p.Registry.Runs.{
  beat-keeps, announce-keeps, heartbeat-keeps, node_manifest-keeps, serve_all-keeps,
}
use p4p.Registry.Requests.{checked-accepts}
use p4p.Registry.NodeKeys.{HasKey, is_truthy, allowed_by_key, HasKey-other, store_node-HasKey}

module _ (outside : Outside) (key : String) (is_key : (key == "") ≡ false) where
  abbrev HasIt : String → ℕ → RegistryStore → Type 0
  HasIt node_id last s = HasKey node_id key last s.nodes

  beat-HasKey :
      (now last : ℕ) (node_id : String) (payload : HeartbeatRequest) (stored : StoredNode)
      (s : RegistryStore)
      → lookup payload.node_id s.nodes ≡ some stored
      → require_valid_heartbeat_signature outside now payload stored
          (lookup payload.node_id s.node_manifests)
        ≡ ok tt
      → HasKey node_id key last s.nodes
      → HasKey node_id key last (store_heartbeat outside now payload stored s).1.nodes
  unfolding store_heartbeat
  beat-HasKey now last node_id payload stored s found passed has =
      elim (Bool-cases (payload.node_id == node_id)) [
        | inr apart ↦ beat-keeps outside (HasIt node_id last) now payload stored s (λ changed.
            HasKey-other outside key is_key node_id payload.node_id last changed s.nodes apart has)
        | inl own ↦
            let same_id = (eq_iff payload.node_id node_id).0 own in
            let (old, (found', (own_key, (u, (is_last, later))))) = has in
            let same : stored ≡ old =
              some_eq stored old (sym found ∙ (ap (λ i. lookup i s.nodes) same_id ∙ found')) in
            let key' =
              ap (λ (n : StoredNode). text_or_empty n.node.node_public_key) same ∙ own_key in
            let (signed, (verified, (t, (iso, newer)))) =
              heartbeat-Verified outside now payload stored
                (lookup payload.node_id s.node_manifests) passed
                (is_truthy outside key is_key stored.node.node_public_key key') in
            let new = beaten outside now payload (some t) stored in
            rw signed (
              rw iso (
                new,
                (
                  ap (λ i. lookup i (insert payload.node_id new s.nodes)) (sym same_id)
                      ∙ lookup-insert_self payload.node_id new s.nodes,
                  (
                    key',
                    (
                      t,
                      (
                        refl,
                        omega (
                          arith,
                          later,
                          not_replay outside now t u stored
                              (ap (λ (n : StoredNode). n.last_signed_event_at) same ∙ is_last)
                              newer,
                        ),
                      ),
                    ),
                  ),
                ),
              ))
      ]

  serve_all-HasKey :
      (last : ℕ) (node_id : String) (config : RegistryConfig) (requests : List (ℕ × NodeRequest))
      (s : RegistryStore)
      → HasIt node_id last s
      → HasIt node_id last (serve_all outside config requests s)
  unfolding store_manifest
  serve_all-HasKey last node_id config =
      let Kept : RegistryStore → Type 0 = HasIt node_id last in
      serve_all-keeps outside Kept config
        (λ now node s has.
          announce-keeps outside Kept now config node s has
            (λ allowed. store_node-HasKey outside key is_key now last node_id node s has allowed))
        (λ now payload s has.
          heartbeat-keeps outside Kept now payload s has
            (λ stored found passed. beat-HasKey now last node_id payload stored s found passed has))
        (λ now payload s has. node_manifest-keeps outside Kept now payload s has (λ passed. has))

  -- After any run of requests, an announcement for a node that had a key is accepted only with that
  -- key, a signature that the key verifies, and a time of signing later than the node's last signed
  -- event before the run; so nobody takes the node over, and no earlier announcement is replayed.
  pub announce-KeepsKey :
      (last now : ℕ) (config : RegistryConfig) (requests : List (ℕ × NodeRequest))
      (s : RegistryStore) (node : Node) (stored : StoredNode)
      → HasKey node.node_id key last s.nodes
      → (announce outside now config node (serve_all outside config requests s)).0 ≡ ok stored
      → (text_or_empty node.node_public_key ≡ key)
        × ((is_signed node ≡ true)
            × (Verified outside now node
                × ((t : ℕ) × ((read_iso outside (text_or_empty node.signed_at) ≡ aware t)
                      × (last < t)))))
  unfolding announce
  announce-KeepsKey last now config requests s node stored has accepted =
      let s' = serve_all outside config requests s in
      allowed_by_key outside key is_key now last s' node
        (serve_all-HasKey last node.node_id config requests s has)
        (announce-allowed config node _
          (checked-accepts _ (always (store_node outside now node)) s' accepted).0)
