-- ===== src/Registry/Ahead.antt =====
-- Announcements that are signed ahead of the registry's clock (`require_not_too_far_in_future` of
-- registry/validation.py), and the log that the registry exports after them.
use mathlib.Core.Path.{subst}
use p4p.Prelude.{
  ℕ, ◌+◌, ◌<◌, String, ◌≡◌, refl, ap, ◌∙◌, arith, true, not, Option, none, some, List, [], ◌∷◌,
  ◌++◌, All, Bool-cases, inl, inr, leb, ltb, leb→le, any, length,
}
use p4p.Prelude.Dict.{lookup}
use p4p.Prelude.Result.{ok, require, >>-eq-ok, >>=-eq-ok, require-eq-ok}
use p4p.Registry.Node.{Node}
use p4p.Registry.Identity.{NodeIdentityEvent, find_record}
use p4p.Registry.Source.{RegistrySourceNode}
use p4p.Registry.Store.{
  Outside, aware, read_iso, StoredNode, RegistryConfig, RegistryStore, text_or_empty,
}
use p4p.Registry.Validation.{is_signed, parse_timestamp, require_not_too_far_in_future}
use p4p.Registry.Validation.Allowed.{parse_timestamp-aware}
use p4p.Registry.Validation.Log.{require_events, same_fingerprint, is_before}
use p4p.Registry.Validation.Snapshot.{require_event_order}
use p4p.Registry.Export.{source_snapshot}
use p4p.Registry.Refused.{aware_both}
use p4p.Registry.Recording.{identity_event, recorded_status, node_key, record_signed_identity}
use p4p.Registry.Operations.{always, announce, store_node, store_manifest, put_node, announced}
use p4p.Registry.Runs.{
  beat-keeps, announce-keeps, heartbeat-keeps, node_manifest-keeps, serve_all-keeps,
}
use p4p.Registry.Requests.{checked-accepts}
use p4p.Registry.Log.Accepted.{SignedInTime}
use p4p.Registry.Log.Run.{NodeRequest, serve_all}

module _ (outside : Outside) (now exported_at : ℕ) where
  events-in_time :
      (seen : List NodeIdentityEvent) (previous_id : ℕ) (previous_at : Option ℕ)
      (es : List NodeIdentityEvent)
      → require_events outside now exported_at seen previous_id previous_at es ≡ ok tt
      → All (SignedInTime outside) es
  unfolding require_events
  events-in_time seen previous_id previous_at [] h = tt
  events-in_time seen previous_id previous_at (e ∷ es) h =
      let (t, (time, h2)) =
        >>=-eq-ok (parse_timestamp outside now e.signed_at "identity_events[].signed_at") _ h in
      let (a, h3) = >>-eq-ok (require (not (any (same_fingerprint e) seen)) _) _ h2 in
      let (b, h4) =
        >>-eq-ok
          (require_not_too_far_in_future outside now e.recorded_at "identity_events[].recorded_at")
          _ h3 in
      let (c, h5) = >>-eq-ok (require (leb e.recorded_at exported_at) _) _ h4 in
      let (in_time, h6) = >>-eq-ok (require (leb t e.recorded_at) _) _ h5 in
      let (d, h7) = >>-eq-ok (require (ltb previous_id e.event_id) _) _ h6 in
      let (f, more) = >>-eq-ok (require (not (is_before e.recorded_at previous_at)) _) _ h7 in
      (
        (
          t,
          (
            parse_timestamp-aware outside now e.signed_at "identity_events[].signed_at" t time,
            leb→le t e.recorded_at (require-eq-ok _ _ in_time),
          ),
        ),
        events-in_time (e ∷ seen) e.event_id (some e.recorded_at) es more,
      )

-- The log has grown, or is the same.
abbrev Grown : List NodeIdentityEvent → RegistryStore → Type 0
Grown es s = (more : List NodeIdentityEvent) × (s.identity_events ≡ es ++ more)

append_nil : (es : List NodeIdentityEvent) → es ≡ es ++ []
append_nil [] = refl
append_nil (e ∷ es) = ap (λ t. e ∷ t) (append_nil es)

append_assoc : (xs ys zs : List NodeIdentityEvent) → (xs ++ ys) ++ zs ≡ xs ++ (ys ++ zs)
append_assoc [] ys zs = refl
append_assoc (x ∷ xs) ys zs = ap (λ t. x ∷ t) (append_assoc xs ys zs)

module _ (outside : Outside) (es : List NodeIdentityEvent) where
  recorded-Grown :
      (now : ℕ) (node : Node) (s : RegistryStore)
      → Grown es s
      → Grown es (record_signed_identity outside now node s)
  unfolding record_signed_identity
  recorded-Grown now node s (more, grown) = elim (Bool-cases (is_signed node)) [
    | inr unsigned ↦ rw unsigned (more, grown)
    | inl signed ↦
        let added : List NodeIdentityEvent =
          identity_event outside now node (length s.identity_events + 1) (
            recorded_status outside now
              (find_record (node_key outside now node) s.identity_records))
          ∷ [] in
        rw signed (more ++ added, ap (λ t. t ++ added) grown ∙ append_assoc es more added)
  ]

  announce-Grown :
      (now : ℕ) (config : RegistryConfig) (node : Node) (s : RegistryStore)
      → Grown es s
      → Grown es (announce outside now config node s).1
  unfolding store_node
  announce-Grown now config node s h =
      announce-keeps outside (Grown es) now config node s h (λ allowed.
        recorded-Grown now node
          (put_node outside now node.node_id
            (announced outside now node (lookup node.node_id s.nodes)) s)
          h)

  serve_all-Grown :
      (config : RegistryConfig) (requests : List (ℕ × NodeRequest)) (s : RegistryStore)
      → Grown es s
      → Grown es (serve_all outside config requests s)
  unfolding store_manifest
  serve_all-Grown config =
      serve_all-keeps outside (Grown es) config (λ now node s h. announce-Grown now config node s h)
        (λ now payload s h.
          heartbeat-keeps outside (Grown es) now payload s h (λ stored found passed.
            beat-keeps outside (Grown es) now payload stored s (λ changed. h)))
        (λ now payload s h. node_manifest-keeps outside (Grown es) now payload s h (λ passed. h))

All-prefix {ℓ κ} : {A : Type ℓ} (P : A → Type κ) (xs ys : List A) → All P (xs ++ ys) → All P xs
All-prefix P [] ys h = tt
All-prefix P (x ∷ xs) ys (p, h) = (p, All-prefix P xs ys h)

All-last {ℓ κ} : {A : Type ℓ} (P : A → Type κ) (xs : List A) (x : A) → All P (xs ++ x ∷ []) → P x
All-last P [] x (p, h) = p
All-last P (y ∷ xs) x (q, h) = All-last P xs x h

module _ (outside : Outside) (now : ℕ) (node : Node) (s : RegistryStore) where
  abbrev added_event : NodeIdentityEvent
  added_event =
      identity_event outside now node (length s.identity_events + 1)
        (recorded_status outside now (find_record (node_key outside now node) s.identity_records))

  stored_events :
      is_signed node ≡ true
      → (store_node outside now node s).1.identity_events ≡ s.identity_events ++ added_event ∷ []
  unfolding store_node record_signed_identity
  stored_events signed = rw signed refl

  accepted_events :
      (config : RegistryConfig) (stored : StoredNode)
      → (announce outside now config node s).0 ≡ ok stored
      → is_signed node ≡ true
      → (announce outside now config node s).1.identity_events
        ≡ s.identity_events ++ added_event ∷ []
  unfolding announce
  accepted_events config stored accepted signed =
      ap (λ (u : RegistryStore). u.identity_events)
        (checked-accepts _ (always (store_node outside now node)) s accepted).1
      ∙ stored_events signed

  -- A registry that accepted an announcement signed ahead of its clock exports, at whatever time and
  -- after whatever requests, a log that no importer accepts.
  pub signed_ahead-NotExported :
      (config : RegistryConfig) (stored : StoredNode) (t : ℕ) (requests : List (ℕ × NodeRequest))
      (exported_at later : ℕ) (registry_url : String) (nodes : List RegistrySourceNode)
      → (announce outside now config node s).0 ≡ ok stored
      → is_signed node ≡ true
      → read_iso outside (text_or_empty node.signed_at) ≡ aware t
      → now < t
      → ¬ (
          require_event_order outside later (
            source_snapshot outside exported_at config registry_url
              (serve_all outside config requests (announce outside now config node s).1)
              nodes)
          ≡ ok tt)
  unfolding require_event_order
  signed_ahead-NotExported config stored t requests exported_at later registry_url nodes accepted
        signed iso ahead imported =
      let first = (announce outside now config node s).1 in
      let s' = serve_all outside config requests first in
      let (more, grown) =
        serve_all-Grown outside first.identity_events config requests first
          ([], append_nil first.identity_events) in
      let (checks, rest) =
        >>-eq-ok (require_events outside later exported_at [] 0 none s'.identity_events) _
          imported in
      let in_time = events-in_time outside later exported_at [] 0 none s'.identity_events checks in
      let (u, (iso', before)) = All-last (SignedInTime outside) s.identity_events added_event (
        subst (All (SignedInTime outside)) (accepted_events config stored accepted signed) (
          All-prefix (SignedInTime outside) first.identity_events more
            (subst (All (SignedInTime outside)) grown in_time))) in
      omega (arith, aware_both outside (text_or_empty node.signed_at) t u iso iso', before, ahead)
