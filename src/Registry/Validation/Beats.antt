-- ===== src/Registry/Validation/Beats.antt =====
-- What an accepted heartbeat satisfies.
use p4p.Prelude.{ℕ, ◌≡◌, refl, sym, ◌∙◌, arith, true, not, ◌&&◌, Option, some, if◌then◌else◌}
use p4p.Prelude.Result.{ok, require, >>=-eq-ok, >>-eq-ok, require-eq-ok}
use p4p.Registry.Node.{HeartbeatRequest}
use p4p.Registry.Store.{
  Outside, heartbeat_payload, valid, StoredNode, StoredManifest, truthy, text_or_empty,
}
use p4p.Registry.Validation.{
  parse_timestamp, require_verdict, require_not_too_far_in_future, require_monotonic_signed_event,
  is_replay,
}
use p4p.Registry.Validation.Announcement.{
  is_some, require_valid_heartbeat_signature, require_signed_heartbeat,
}
use p4p.Registry.Validation.Allowed.{
  SignedLater, require_verdict-valid, not-true, parse_timestamp-aware,
}

module _ (outside : Outside) (now : ℕ) where
  -- A heartbeat for a node with a key is signed by that key, later than the last event.
  abbrev pub VerifiedBeat : HeartbeatRequest → StoredNode → Type 0
  VerifiedBeat payload stored =
      (truthy payload.signed_at ≡ true)
      × ((outside.verify_payload (heartbeat_payload payload)
              (text_or_empty stored.node.node_public_key) (text_or_empty payload.signature)
            ≡ valid)
          × SignedLater outside now payload.signed_at (some stored))

  signed_heartbeat-Verified :
      (payload : HeartbeatRequest) (stored : StoredNode) (manifest : Option StoredManifest)
      → require_signed_heartbeat outside now payload stored manifest ≡ ok tt
      → VerifiedBeat payload stored
  unfolding require_signed_heartbeat require_monotonic_signed_event
  signed_heartbeat-Verified payload stored manifest h =
      let (fields, rest) =
        >>-eq-ok (require (truthy payload.signed_at && truthy payload.signature) _) _ h in
      let (verdict, rest') =
        >>-eq-ok
          (require_verdict "Invalid heartbeat signature" (
            outside.verify_payload (heartbeat_payload payload)
              (text_or_empty stored.node.node_public_key) (text_or_empty payload.signature)))
          _ rest in
      let (t, (time, rest'')) =
        >>=-eq-ok (parse_timestamp outside now (text_or_empty payload.signed_at) "signed_at") _
          rest' in
      let (monotonic, others) =
        >>-eq-ok (require_monotonic_signed_event outside now t (some stored) "signed_at") _
          rest'' in
      let (future, newer) =
        >>-eq-ok (require_not_too_far_in_future outside now t "signed_at") _ monotonic in
      (
        ground
            (arith, require-eq-ok (truthy payload.signed_at && truthy payload.signature) _ fields),
        (
          require_verdict-valid "Invalid heartbeat signature" _ verdict,
          (
            t,
            (
              parse_timestamp-aware outside now (text_or_empty payload.signed_at) "signed_at" t
                  time,
              not-true (is_replay outside now t (some stored)) (require-eq-ok _ _ newer),
            ),
          ),
        ),
      )

  pub heartbeat-Verified :
      (payload : HeartbeatRequest) (stored : StoredNode) (manifest : Option StoredManifest)
      → require_valid_heartbeat_signature outside now payload stored manifest ≡ ok tt
      → truthy stored.node.node_public_key ≡ true
      → VerifiedBeat payload stored
  unfolding require_valid_heartbeat_signature
  heartbeat-Verified payload stored manifest h protected =
      let (a, rest) =
        >>-eq-ok (require (not (is_some manifest && not (truthy stored.node.node_public_key))) _) _
          h in
      let protects : (if not (truthy stored.node.node_public_key)
            then ok tt
            else require_signed_heartbeat outside now payload stored manifest)
          ≡ require_signed_heartbeat outside now payload stored manifest =
        rw protected refl in
      signed_heartbeat-Verified payload stored manifest (sym protects ∙ rest)
