-- ===== src/Registry/Validation/Signature.antt =====
-- What `require_valid_registry_source_snapshot` says of the signature of a source that it accepts.
use p4p.Prelude.{
  String, ◌≡◌, refl, Option, none, some, Bool, true, false, arith, ℕ, if◌then◌else◌, [], ◌==◌,
}
use p4p.Prelude.Result.{ok, require, >>-eq-ok}
use p4p.Registry.Source.{RegistrySourceResponse}
use p4p.Registry.Store.{Outside, Verdict, valid, invalid, malformed, source_payload, raised}
use p4p.Registry.Validation.{require_verdict, require_not_too_far_in_future}
use p4p.Registry.Validation.Snapshot.{
  manifests_by_node_id, require_source_nodes, require_source_manifests, require_identity_log,
  require_protected_nodes, require_event_order, require_source_signature,
  require_valid_registry_source_snapshot,
}

-- There is a key and a signature by it over the whole of the source.
abbrev IsVerified : Outside → RegistrySourceResponse → Option String → Option String → Type 0
IsVerified outside payload public_key given =
    (key : String) × ((signature : String) × ((public_key ≡ some key)
        × ((given ≡ some signature)
            × (outside.verify_payload (source_payload payload) key signature ≡ valid))))

-- The registry of the source has signed the whole of it.
abbrev pub IsSigned : Outside → RegistrySourceResponse → Type 0
IsSigned outside payload =
    IsVerified outside payload payload.snapshot.registry_public_key payload.snapshot.signature

require_verdict-valid :
    (detail : String) (v : Verdict) → require_verdict detail v ≡ ok tt → v ≡ valid
unfolding require_verdict
require_verdict-valid detail valid h = refl
require_verdict-valid detail invalid h = absurd (ground arith)
require_verdict-valid detail (malformed text) h = absurd (ground arith)

unsigned : (b : Bool) (detail : String) → (if b then ok false else raised 403 detail) ≡ ok true → ⊥
unsigned true detail h = ground arith
unsigned false detail h = ground arith

module _ (outside : Outside) (now : ℕ) where
  require_source_signature-IsVerified :
      (payload : RegistrySourceResponse) (k s : Option String)
      → require_source_signature outside now payload k s ≡ ok true
      → IsVerified outside payload k s
  unfolding require_source_signature
  require_source_signature-IsVerified payload (some key) (some signature) h =
      let (checked, rest) =
        >>-eq-ok
          (require_verdict "Invalid registry source signature"
            (outside.verify_payload (source_payload payload) key signature))
          _ h in
      (key, (signature, (refl, (refl, require_verdict-valid _ _ checked))))
  require_source_signature-IsVerified payload none none h = absurd (unsigned _ _ h)
  require_source_signature-IsVerified payload none (some signature) h = absurd (ground arith)
  require_source_signature-IsVerified payload (some key) none h = absurd (ground arith)

  pub require_valid_registry_source_snapshot-IsSigned :
      (payload : RegistrySourceResponse)
      → require_valid_registry_source_snapshot outside now payload ≡ ok true
      → IsSigned outside payload
  unfolding require_valid_registry_source_snapshot
  require_valid_registry_source_snapshot-IsSigned payload h =
      let source = payload.snapshot in
      let manifests = manifests_by_node_id source.manifests in
      let (a, h1) = >>-eq-ok (require (source.registry_version == "0.1") _) _ h in
      let (b, h2) =
        >>-eq-ok (require_not_too_far_in_future outside now source.exported_at "exported_at") _
          h1 in
      let (c, h3) =
        >>-eq-ok (require_source_nodes outside now source.exported_at [] source.nodes) _ h2 in
      let (d, h4) =
        >>-eq-ok (require_source_manifests outside now source.exported_at [] source.manifests) _
          h3 in
      let (e, h5) = >>-eq-ok (require_identity_log outside now source) _ h4 in
      let (f, h6) =
        >>-eq-ok
          (require_protected_nodes outside now source.exported_at manifests source.identity_records
            source.nodes)
          _ h5 in
      let (g, h7) = >>-eq-ok (require_event_order outside now source) _ h6 in
      require_source_signature-IsVerified payload source.registry_public_key source.signature h7
