-- ===== src/Registry/Validation/Response.antt =====
-- `require_valid_registry_source` of registry/validation.py: a source with those that it relays.
use p4p.Prelude.{
  ℕ, String, ◌==◌, ◌≡◌, ◌≤◌, ap, ◌∙◌, arith, Bool, true, false, not, ◌||◌, List, [], ◌∷◌, All, leb,
  leb→le, member, if◌then◌else◌,
}
use p4p.Prelude.Result.{Result, ok, require, ◌>>=◌, ◌>>◌, >>=-eq-ok, >>-eq-ok, require-eq-ok}
use p4p.Registry.Source.{
  RegistryExportScope, local_only, local_plus_trusted_mirrors, RegistrySourceSnapshot,
  RegistrySourceMirrorExport, RegistrySourceResponse, as_response, relayed_sources,
}
use p4p.Registry.Store.{Outside, HttpException, http, Checked, normalized_registry_url}
use p4p.Registry.Validation.Allowed.{not-true}
use p4p.Registry.Validation.{require_not_too_far_in_future}
use p4p.Registry.Validation.Signature.{IsSigned, require_valid_registry_source_snapshot-IsSigned}
use p4p.Registry.Validation.Snapshot.{require_valid_registry_source_snapshot}

abbrev pub is_local_only : RegistryExportScope → Bool
is_local_only local_only = true
is_local_only local_plus_trusted_mirrors = false

abbrev pub has_any {ℓ} : {A : Type ℓ} → List A → Bool
has_any [] = false
has_any (x ∷ xs) = true

abbrev pub basis_allowed : RegistrySourceMirrorExport → Bool
basis_allowed mirrored =
    if mirrored.discovery_eligible
    then mirrored.discovery_basis == "trusted_upstream"
    else mirrored.discovery_basis == "trusted_upstream_no_visible_nodes"

module _ (outside : Outside) (now : ℕ) where
  unfoldable pub require_mirrored_source : String → ℕ → RegistrySourceMirrorExport → Checked
  unfolding require_not_too_far_in_future require_valid_registry_source_snapshot
      normalized_registry_url
  require_mirrored_source registry_url exported_at mirrored = do
    require_not_too_far_in_future outside now mirrored.imported_at "mirrored_sources[].imported_at"
    require (leb mirrored.snapshot.exported_at mirrored.imported_at) (
        http 400
          "Re-exported mirrored source imported_at cannot be earlier than nested exported_at")
    require (leb mirrored.imported_at exported_at) (
        http 400
          "Re-exported mirrored source imported_at cannot be later than top-level exported_at")
    require mirrored.verified_signature
        (http 403 "Re-exported mirrored source must carry a verified upstream signature")
    nested ← require_valid_registry_source_snapshot outside now (as_response mirrored.snapshot)
    require nested (http 403 "Re-exported mirrored source must carry a verified upstream signature")
    require (basis_allowed mirrored)
        (http 403 "Only trusted upstream mirrored sources may be re-exported")
    require
        (normalized_registry_url mirrored.relayed_by_registry_url
          == normalized_registry_url registry_url)
        (http 400 "Re-exported mirrored source must declare the current registry as relay")
    require (is_local_only mirrored.snapshot.export_scope)
        (http 400 "Nested mirrored source snapshots must keep export_scope=local_only")

  unfoldable pub require_mirrored_sources :
      String → ℕ → List String → List RegistrySourceMirrorExport → Checked
  unfolding require_mirrored_source normalized_registry_url
  require_mirrored_sources registry_url exported_at seen [] = ok tt
  require_mirrored_sources registry_url exported_at seen (mirrored ∷ more) = do
    let url = normalized_registry_url mirrored.snapshot.registry_url
    require (not (member url seen))
        (http 400 "Re-exported mirrored sources must not repeat the same registry_url")
    require (not (url == normalized_registry_url registry_url)) (
        http 400
          "Re-exported mirrored sources must not point back to the relay registry_url itself")
    require_mirrored_source registry_url exported_at mirrored
    require_mirrored_sources registry_url exported_at (url ∷ seen) more

  unfoldable pub require_valid_registry_source : RegistrySourceResponse → Result HttpException Bool
  unfolding require_valid_registry_source_snapshot require_mirrored_sources
  require_valid_registry_source payload = do
    verified ← require_valid_registry_source_snapshot outside now payload
    require (not (has_any (relayed_sources payload)) || verified)
        (http 403 "Re-exported mirrored sources require a verified relay signature")
    require
        (is_local_only payload.snapshot.export_scope
          || payload.snapshot.registry_metadata.capabilities.can_reexport_sources)
        (http 403
          "Registry source export_scope=local_plus_trusted_mirrors requires can_reexport_sources capability")
    require
        (not (has_any (relayed_sources payload))
          || not (is_local_only payload.snapshot.export_scope))
        (http 400 "Mirrored source re-export requires export_scope=local_plus_trusted_mirrors")
    require_mirrored_sources payload.snapshot.registry_url payload.snapshot.exported_at []
        (relayed_sources payload)
    ok verified

  -- What an importer knows of a source that a registry relays.
  abbrev pub Relayed : RegistrySourceSnapshot → RegistrySourceMirrorExport → Type 0
  unfolding normalized_registry_url
  Relayed relay mirrored =
      (require_valid_registry_source_snapshot outside now (as_response mirrored.snapshot) ≡ ok true)
      × ((mirrored.snapshot.exported_at ≤ mirrored.imported_at)
          × ((mirrored.imported_at ≤ relay.exported_at)
              × ((normalized_registry_url mirrored.snapshot.registry_url
                    == normalized_registry_url relay.registry_url)
                  ≡ false)))

  mirrored-Relayed :
      (relay : RegistrySourceSnapshot) (mirrored : RegistrySourceMirrorExport)
      → (normalized_registry_url mirrored.snapshot.registry_url
          == normalized_registry_url relay.registry_url)
        ≡ false
      → require_mirrored_source relay.registry_url relay.exported_at mirrored ≡ ok tt
      → Relayed relay mirrored
  unfolding require_mirrored_source
  mirrored-Relayed relay mirrored apart h =
      let (a, h2) =
        >>-eq-ok
          (require_not_too_far_in_future outside now mirrored.imported_at
            "mirrored_sources[].imported_at")
          _ h in
      let (after, h3) =
        >>-eq-ok (require (leb mirrored.snapshot.exported_at mirrored.imported_at) _) _ h2 in
      let (before, h4) = >>-eq-ok (require (leb mirrored.imported_at relay.exported_at) _) _ h3 in
      let (b, h5) = >>-eq-ok (require mirrored.verified_signature _) _ h4 in
      let (nested, (checked, h6)) =
        >>=-eq-ok
          (require_valid_registry_source_snapshot outside now (as_response mirrored.snapshot)) _
          h5 in
      let (verified, h7) = >>-eq-ok (require nested _) _ h6 in
      (
        checked ∙ ap ok (require-eq-ok nested _ verified),
        (
          leb→le mirrored.snapshot.exported_at mirrored.imported_at (require-eq-ok _ _ after),
          (leb→le mirrored.imported_at relay.exported_at (require-eq-ok _ _ before), apart),
        ),
      )

  mirrored_sources-Relayed :
      (relay : RegistrySourceSnapshot) (seen : List String) (ms : List RegistrySourceMirrorExport)
      → require_mirrored_sources relay.registry_url relay.exported_at seen ms ≡ ok tt
      → All (Relayed relay) ms
  unfolding require_mirrored_sources
  mirrored_sources-Relayed relay seen [] h = tt
  mirrored_sources-Relayed relay seen (m ∷ ms) h =
      let url = normalized_registry_url m.snapshot.registry_url in
      let (a, h2) = >>-eq-ok (require (not (member url seen)) _) _ h in
      let (apart, h3) =
        >>-eq-ok (require (not (url == normalized_registry_url relay.registry_url)) _) _ h2 in
      let (one, h4) =
        >>-eq-ok (require_mirrored_source relay.registry_url relay.exported_at m) _ h3 in
      (
        mirrored-Relayed relay m
            (not-true (url == normalized_registry_url relay.registry_url) (require-eq-ok _ _ apart))
            one,
        mirrored_sources-Relayed relay (url ∷ seen) ms h4,
      )

  -- Each source that an accepted response relays has passed the checks of a source with a signature
  -- that verifies, is not the relay's own, and was imported by the relay between its own export and
  -- that of the response; and the response, where it relays any, carries a key and a signature by
  -- that key over the whole of it, the relayed sources included.
  pub require_valid_registry_source-Relayed :
      (payload : RegistrySourceResponse) (verified : Bool)
      → require_valid_registry_source payload ≡ ok verified
      → All (Relayed payload.snapshot) (relayed_sources payload)
        × (has_any (relayed_sources payload) ≡ true → IsSigned outside payload)
  unfolding require_valid_registry_source
  require_valid_registry_source-Relayed payload verified h =
      let (top, (checked, h2)) =
        >>=-eq-ok (require_valid_registry_source_snapshot outside now payload) _ h in
      let (signed, h3) =
        >>-eq-ok (require (not (has_any (relayed_sources payload)) || top) _) _ h2 in
      let (a, h4) =
        >>-eq-ok
          (require
            (is_local_only payload.snapshot.export_scope
              || payload.snapshot.registry_metadata.capabilities.can_reexport_sources)
            _)
          _ h3 in
      let (b, h5) =
        >>-eq-ok
          (require
            (not (has_any (relayed_sources payload))
              || not (is_local_only payload.snapshot.export_scope))
            _)
          _ h4 in
      let (all, result) =
        >>-eq-ok
          (require_mirrored_sources payload.snapshot.registry_url payload.snapshot.exported_at []
            (relayed_sources payload))
          _ h5 in
      (
        mirrored_sources-Relayed payload.snapshot [] (relayed_sources payload) all,
        λ any.
            require_valid_registry_source_snapshot-IsSigned outside now payload
              (checked ∙ ap ok (ground (arith, any, require-eq-ok _ _ signed))),
      )
