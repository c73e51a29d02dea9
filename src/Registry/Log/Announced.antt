-- ===== src/Registry/Log/Announced.antt =====
-- An accepted announcement keeps the identity log in order (`RegistryStore.announce`).
use mathlib.Core.Path.{subst}
use p4p.Prelude.{
  ℕ, ◌+◌, ◌≤◌, ◌≡◌, refl, ap, sym, ◌∙◌, arith, true, false, Option, some, [], ◌∷◌, ◌++◌, All,
  All-map, All-append_one, length, inl, inr,
}
use p4p.Prelude.Dict.{lookup, insert, lookup-insert_self}
use p4p.Prelude.Result.{ok}
use p4p.Registry.Node.{Node}
use p4p.Registry.Identity.{find_record}
use p4p.Registry.Store.{Outside, aware, read_iso, StoredNode, RegistryStore, truthy, text_or_empty}
use p4p.Registry.Recording.{identity_event, recorded_status, record_signed_identity, node_key}
use p4p.Registry.Operations.{store_node, announced, put_node}
use p4p.Registry.Validation.{is_signed, is_replay}
use p4p.Registry.Validation.Announcement.{require_allowed_announcement_update}
use p4p.Registry.Validation.Allowed.{allowed-same_key, allowed-Verified}
use p4p.Registry.Log.{Sequenced, NoRepeat}
use p4p.Registry.Log.Events.{Sequenced-append, NoRepeat-append}
use p4p.Registry.Log.Records.{record_signed_identity-IsConsistent}
use p4p.Registry.Log.Run.{Newest, IsLogged}
use p4p.Registry.Log.Newest.{Improves, Newest-insert, not_replay, fingerprints_new, IsLogged-nodes}

pub announced-last :
    (outside : Outside) (now t : ℕ) (node : Node) (existing : Option StoredNode)
    → truthy node.signed_at ≡ true
    → read_iso outside (text_or_empty node.signed_at) ≡ aware t
    → (announced outside now node existing).last_signed_event_at ≡ some t
announced-last outside now t node existing signed iso = rw signed (rw iso refl)

pub announced-Improves :
    (outside : Outside) (now : ℕ) (s : RegistryStore) (node : Node)
    → require_allowed_announcement_update outside now node
        (lookup node.node_id s.nodes)
        (lookup node.node_id s.node_manifests)
      ≡ ok tt
    → Improves s.nodes node.node_id (announced outside now node (lookup node.node_id s.nodes))
announced-Improves outside now s node allowed old found key last is_last =
    let allowed' : require_allowed_announcement_update outside now node (some old)
          (lookup node.node_id s.node_manifests)
        ≡ ok tt =
      sym (
        ap
          (λ o.
            require_allowed_announcement_update outside now node o
              (lookup node.node_id s.node_manifests))
          found)
      ∙ allowed in
    let (same, (signed, (verified, (t, (iso, newer))))) =
      allowed-same_key outside now node old (lookup node.node_id s.node_manifests) allowed' key in
    (
      ground (arith, signed),
      (
        t,
        (
          announced-last outside now t node (lookup node.node_id s.nodes) (ground (arith, signed))
              iso,
          omega (arith, not_replay outside now t last old is_last newer),
        ),
      ),
    )

-- The event of a signed announcement goes to the end of the log.
signed-IsLogged :
    (outside : Outside) (before now t : ℕ) (s : RegistryStore) (node : Node)
    → before ≤ now
    → is_signed node ≡ true
    → read_iso outside (text_or_empty node.signed_at) ≡ aware t
    → is_replay outside now t (lookup node.node_id s.nodes) ≡ false
    → Improves s.nodes node.node_id (announced outside now node (lookup node.node_id s.nodes))
    → IsLogged outside before s
    → IsLogged outside now (store_node outside now node s).1
unfolding store_node record_signed_identity
signed-IsLogged outside before now t s node h signed iso newer improves l =
    let new = announced outside now node (lookup node.node_id s.nodes) in
    let id = length s.identity_events + 1 in
    let status =
      recorded_status outside now (find_record (node_key outside now node) s.identity_records) in
    let added = identity_event outside now node id status in
    let start = put_node outside now node.node_id new s in
    let events : (record_signed_identity outside now node start).identity_events
        ≡ s.identity_events ++ added ∷ [] =
      rw signed refl in
    let nodes : (record_signed_identity outside now node start).nodes
        ≡ insert node.node_id new s.nodes =
      rw signed refl in
    record {
      consistent = record_signed_identity-IsConsistent outside before now node start h l.consistent;
      ordered =
          subst (Sequenced 1 0 now) (sym events) (
            Sequenced-append 1 0 before now s.identity_events added l.ordered refl h (omega arith));
      distinct = subst (NoRepeat []) (sym events) (
          NoRepeat-append [] s.identity_events added l.distinct refl
            (fingerprints_new outside now t s node id status s.identity_events iso newer l.newest));
      newest =
          subst
            (λ es. All (Newest outside (record_signed_identity outside now node start).nodes) es)
            (sym events)
            (subst (λ d. All (Newest outside d) (s.identity_events ++ added ∷ [])) (sym nodes)
              (All-append_one (Newest outside (insert node.node_id new s.nodes)) s.identity_events
                added
                (All-map (Newest outside s.nodes) (Newest outside (insert node.node_id new s.nodes))
                  (λ e n. Newest-insert outside s.nodes node.node_id new e improves n)
                  s.identity_events l.newest)
                (
                  new,
                  (
                    lookup-insert_self node.node_id new s.nodes,
                    (
                      ground (arith, signed),
                      (
                        t,
                        (
                          announced-last outside now t node (lookup node.node_id s.nodes)
                              (ground (arith, signed)) iso,
                          (t, (iso, omega arith)),
                        ),
                      ),
                    ),
                  ),
                )));
    }

unsigned-IsLogged :
    (outside : Outside) (before now : ℕ) (s : RegistryStore) (node : Node)
    → before ≤ now
    → is_signed node ≡ false
    → Improves s.nodes node.node_id (announced outside now node (lookup node.node_id s.nodes))
    → IsLogged outside before s
    → IsLogged outside now (store_node outside now node s).1
unfolding store_node record_signed_identity
unsigned-IsLogged outside before now s node h unsigned improves l =
    let new = announced outside now node (lookup node.node_id s.nodes) in
    let start = put_node outside now node.node_id new s in
    let same : record_signed_identity outside now node start ≡ start = rw unsigned refl in
    subst (IsLogged outside now) (sym same)
      (IsLogged-nodes outside before now s node.node_id new h improves l)

pub store_node-IsLogged :
    (outside : Outside) (before now : ℕ) (s : RegistryStore) (node : Node)
    → before ≤ now
    → require_allowed_announcement_update outside now node
        (lookup node.node_id s.nodes)
        (lookup node.node_id s.node_manifests)
      ≡ ok tt
    → IsLogged outside before s
    → IsLogged outside now (store_node outside now node s).1
store_node-IsLogged outside before now s node h allowed l =
    let improves = announced-Improves outside now s node allowed in
    elim (allowed-Verified outside now node (lookup node.node_id s.nodes)
      (lookup node.node_id s.node_manifests) allowed) [
        | inl neither ↦
            unsigned-IsLogged outside before now s node h (ground (arith, neither)) improves l
        | inr (signed, (verified, (t, (iso, newer)))) ↦
            signed-IsLogged outside before now t s node h signed iso newer improves l
      ]
