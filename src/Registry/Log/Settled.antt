-- ===== src/Registry/Log/Settled.antt =====
-- The status of each record goes with the current manifest of its node, as `_apply_manifest_status`
-- keeps it.
use p4p.Prelude.{
  ℕ, String, ◌≡◌, refl, ap, ◌∙◌, arith, Bool, true, false, ◌&&◌, ◌==◌, Option, none, some, List, [],
  ◌∷◌, All, All-map, All-both, member, Bool-cases, inl, inr, if◌then◌else◌, eq_iff, str_eq_refl,
}
use p4p.Prelude.Dict.{Dict, lookup, insert, lookup-insert}
use p4p.Prelude.Result.{ok}
use p4p.Registry.Node.{
  NodeManifest, NodeManifestKey, ManifestKeyStatus, active, revoked, keys_are_unique,
}
use p4p.Registry.Identity.{
  NodeIdentityRecord, RecordKey, record_key, same_record_key, change_record, change_if,
}
use p4p.Registry.Store.{StoredManifest, Outside}
use p4p.Registry.Validation.{find_key, is_active_status}
use p4p.Registry.Validation.Announcement.{is_some}
use p4p.Registry.Validation.Log.{
  require_record_status, require_entry_status, is_active_identity, is_revoked,
}
use p4p.Registry.Recording.{with_identity_status, key_of, key_status, set_key_statuses}

unique-apart :
    (k : String) (seen : List String) (es : List NodeManifestKey)
    → keys_are_unique seen es ≡ true
    → member k seen ≡ true
    → All (λ e. (k == e.node_public_key) ≡ false) es
unique-apart k seen [] u m = tt
unique-apart k seen (e ∷ es) u m = (
  ground (arith, u, m, eq_iff k e.node_public_key),
  unique-apart k (e.node_public_key ∷ seen) es (ground (arith, u)) (ground (arith, m)),
)

abbrev pub Found : List NodeManifestKey → NodeManifestKey → Type 0
Found keys e = find_key e.node_public_key keys ≡ some e

-- Each entry of a manifest is the one that its key finds.
pub unique-Found :
    (seen : List String) (es : List NodeManifestKey)
    → keys_are_unique seen es ≡ true
    → All (Found es) es
unique-Found seen [] u = tt
unique-Found seen (e ∷ es) u = (
  rw (str_eq_refl e.node_public_key) refl,
  All-both (λ d. (e.node_public_key == d.node_public_key) ≡ false) (Found es) (Found (e ∷ es))
      (λ d other found. rw other found) es
      (unique-apart e.node_public_key (e.node_public_key ∷ seen) es (ground (arith, u))
        (ground (arith, str_eq_refl e.node_public_key)))
      (unique-Found (e.node_public_key ∷ seen) es (ground (arith, u))),
)

-- The manifest of a node that the registry has now.
abbrev pub manifest_of : Option StoredManifest → Option NodeManifest
manifest_of none = none
manifest_of (some stored) = some stored.manifest

abbrev pub current_manifest : Dict StoredManifest → String → Option NodeManifest
current_manifest manifests node_id = manifest_of (lookup node_id manifests)

-- What an importer asks of the status of a record.
abbrev pub Settles : Dict StoredManifest → NodeIdentityRecord → Type 0
Settles manifests r = require_record_status r (current_manifest manifests r.node_id) ≡ ok tt

-- The record is of the node of the manifest, and of one of the keys.
abbrev pub covers : NodeManifest → List NodeManifestKey → NodeIdentityRecord → Bool
covers manifest keys r = r.node_id == manifest.node_id && is_some (find_key r.node_public_key keys)

pub All-change_record :
    (P Q : NodeIdentityRecord → Type 0) (k : RecordKey)
    (f : NodeIdentityRecord → NodeIdentityRecord)
    → ((r : NodeIdentityRecord) → P r → Q (change_if k f r))
    → (rs : List NodeIdentityRecord) → All P rs
    → All Q (change_record k f rs)
unfolding change_record
All-change_record P Q k f g [] h = tt
All-change_record P Q k f g (r ∷ rs) (p, h) = (g r p, All-change_record P Q k f g rs h)

module _ (outside : Outside) (now : ℕ) (manifests : Dict StoredManifest)
    (stored : StoredManifest) where
  -- With the manifest stored, the record is settled, unless it is of one of the keys.
  abbrev pub SettlesBut : List NodeManifestKey → NodeIdentityRecord → Type 0
  SettlesBut keys r =
      covers stored.manifest keys r ≡ false
      → Settles (insert stored.manifest.node_id stored manifests) r

  pub own_manifest :
      (node_id : String)
      → (node_id == stored.manifest.node_id) ≡ true
      → current_manifest (insert stored.manifest.node_id stored manifests) node_id
        ≡ some stored.manifest
  own_manifest node_id own =
      let found : lookup node_id (insert stored.manifest.node_id stored manifests) ≡ some stored =
        lookup-insert stored.manifest.node_id node_id stored manifests
        ∙ ground (arith, own, eq_iff node_id stored.manifest.node_id, str_eq_refl node_id) in
      ap manifest_of found

  pub other_manifest :
      (node_id : String)
      → (node_id == stored.manifest.node_id) ≡ false
      → current_manifest (insert stored.manifest.node_id stored manifests) node_id
        ≡ current_manifest manifests node_id
  other_manifest node_id other =
      let found : lookup node_id (insert stored.manifest.node_id stored manifests)
          ≡ lookup node_id manifests =
        lookup-insert stored.manifest.node_id node_id stored manifests
        ∙ ground (
          arith,
          other,
          eq_iff node_id stored.manifest.node_id,
          eq_iff stored.manifest.node_id node_id,
        ) in
      ap manifest_of found

  status_fits :
      (status : ManifestKeyStatus)
      → (if is_active_status status
          then is_active_identity (key_status outside now status)
          else is_revoked (key_status outside now status))
        ≡ true
  status_fits active = refl
  status_fits revoked = refl

  settled_key :
      (e : NodeManifestKey) (r : NodeIdentityRecord)
      → Found stored.manifest.keys e
      → (r.node_id == stored.manifest.node_id) ≡ true
      → (r.node_public_key == e.node_public_key) ≡ true
      → Settles
          (insert stored.manifest.node_id stored manifests)
          (with_identity_status outside now (key_status outside now e.status) r)
  unfolding require_record_status require_entry_status
  settled_key e r found own same =
      let key : find_key r.node_public_key stored.manifest.keys ≡ some e =
        ap (λ k. find_key k stored.manifest.keys)
          ((eq_iff r.node_public_key e.node_public_key).0 same)
        ∙ found in
      rw (own_manifest r.node_id own) (rw key (rw (status_fits e.status) refl))

  pub not_covered :
      (e : NodeManifestKey) (es : List NodeManifestKey) (r : NodeIdentityRecord)
      → same_record_key (record_key r) (key_of outside now stored.manifest e.node_public_key)
        ≡ false
      → covers stored.manifest es r ≡ false
      → covers stored.manifest (e ∷ es) r ≡ false
  not_covered e es r other h = ground (
    arith,
    other,
    h,
    eq_iff r.node_public_key e.node_public_key,
    eq_iff e.node_public_key r.node_public_key,
  )

  set_key :
      (e : NodeManifestKey) (es : List NodeManifestKey) (r : NodeIdentityRecord)
      → Found stored.manifest.keys e
      → SettlesBut (e ∷ es) r
      → SettlesBut es (
          change_if
            (key_of outside now stored.manifest e.node_public_key)
            (with_identity_status outside now (key_status outside now e.status))
            r)
  set_key e es r found before =
      elim (Bool-cases
        (same_record_key (record_key r) (key_of outside now stored.manifest e.node_public_key))) [
          | inl own ↦
              rw own (λ other. settled_key e r found (ground (arith, own)) (ground (arith, own)))
          | inr other ↦ rw other (λ h. before (not_covered e es r other h))
        ]

  pub set_keys :
      (es : List NodeManifestKey) (rs : List NodeIdentityRecord)
      → All (Found stored.manifest.keys) es
      → All (SettlesBut es) rs
      → All
          (Settles (insert stored.manifest.node_id stored manifests))
          (set_key_statuses outside now stored.manifest es rs)
  unfolding set_key_statuses
  set_keys [] rs found h =
      All-map (SettlesBut []) (Settles (insert stored.manifest.node_id stored manifests))
        (λ r before. before (ground arith)) rs h
  set_keys (e ∷ es) rs (found, more) h =
      set_keys es
        (change_record (key_of outside now stored.manifest e.node_public_key)
          (with_identity_status outside now (key_status outside now e.status)) rs)
        more
        (All-change_record (SettlesBut (e ∷ es)) (SettlesBut es)
          (key_of outside now stored.manifest e.node_public_key)
          (with_identity_status outside now (key_status outside now e.status))
          (λ r before. set_key e es r found before) rs h)
