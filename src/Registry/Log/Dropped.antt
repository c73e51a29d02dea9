-- ===== src/Registry/Log/Dropped.antt =====
-- A new manifest settles the records of its node (`_apply_manifest_status`).
use p4p.Prelude.{
  ℕ, ◌≡◌, refl, ap, sym, ◌∙◌, arith, true, false, not, ◌==◌, Option, none, some, List, [], ◌∷◌, All,
  All-map, All-both, Bool-cases, Option-cases, inl, inr, eq_iff, clash,
}
use p4p.Prelude.Dict.{Dict, lookup, insert}
use p4p.Prelude.Result.{ok}
use p4p.Registry.Node.{NodeManifest, NodeManifestKey, keys_are_unique}
use p4p.Registry.Identity.{
  NodeIdentityRecord, record_key, same_record_key, change_record, change_if,
}
use p4p.Registry.Store.{StoredManifest, Outside}
use p4p.Registry.Validation.{find_key}
use p4p.Registry.Validation.Log.{require_record_status, require_entry_status, is_active_identity}
use p4p.Registry.Recording.{
  with_identity_status, key_of, in_manifest, dropped_status, drop_keys, apply_manifest_status,
}
use p4p.Registry.Log.Settled.{
  unique-Found, current_manifest, manifest_of, Settles, covers, own_manifest, other_manifest,
  not_covered, set_keys, All-change_record, SettlesBut,
}

no_entry :
    (manifest : NodeManifest) (keys : List NodeManifestKey) (r : NodeIdentityRecord)
    → (r.node_id == manifest.node_id) ≡ true
    → covers manifest keys r ≡ false
    → find_key r.node_public_key keys ≡ none
no_entry manifest keys r own h = elim (Option-cases (find_key r.node_public_key keys)) [
  | inl absent ↦ absent
  | inr (e, found) ↦ clash (rw own (rw found refl)) h
]

module _ (outside : Outside) (now : ℕ) (manifests : Dict StoredManifest)
    (stored : StoredManifest) where
  abbrev After : NodeIdentityRecord → Type 0
  After = Settles (insert stored.manifest.node_id stored manifests)

  -- The record is settled unless the manifest has its key, or one of the other keys is its.
  abbrev AfterBut : List NodeManifestKey → NodeIdentityRecord → Type 0
  AfterBut es r =
      covers stored.manifest es r ≡ false
      → SettlesBut outside now manifests stored stored.manifest.keys r

  inactive :
      (previous : NodeManifest)
      → not (is_active_identity (dropped_status outside now previous stored.manifest)) ≡ true
  inactive previous =
      elim (Bool-cases (previous.root_public_key == stored.manifest.root_public_key)) [
        | inl same ↦ rw same refl
        | inr changed ↦ rw changed refl
      ]

  dropped-After :
      (previous : NodeManifest) (r : NodeIdentityRecord)
      → (r.node_id == stored.manifest.node_id) ≡ true
      → covers stored.manifest stored.manifest.keys r ≡ false
      → After
          (with_identity_status outside now (dropped_status outside now previous stored.manifest) r)
  unfolding require_record_status require_entry_status
  dropped-After previous r own absent =
      rw (own_manifest outside now manifests stored r.node_id own) (
        rw (no_entry stored.manifest stored.manifest.keys r own absent)
          (rw (inactive previous) refl))

  kept_key :
      (e : NodeManifestKey) (es : List NodeManifestKey) (r : NodeIdentityRecord)
      → in_manifest outside now stored.manifest e.node_public_key ≡ true
      → AfterBut (e ∷ es) r
      → AfterBut es r
  kept_key e es r kept before h absent =
      elim (Bool-cases
        (same_record_key (record_key r) (key_of outside now stored.manifest e.node_public_key))) [
          | inr other ↦ before (not_covered outside now manifests stored e es r other h) absent
          | inl own ↦
              let same = (eq_iff r.node_public_key e.node_public_key).0 (ground (arith, own)) in
              let entry = ap (in_manifest outside now stored.manifest) same ∙ kept in
              absurd (ground (arith, own, entry, absent))
        ]

  drop_key :
      (previous : NodeManifest) (e : NodeManifestKey) (es : List NodeManifestKey)
      (r : NodeIdentityRecord)
      → AfterBut (e ∷ es) r
      → AfterBut es (
          change_if
            (key_of outside now stored.manifest e.node_public_key)
            (with_identity_status outside now (dropped_status outside now previous stored.manifest))
            r)
  drop_key previous e es r before =
      elim (Bool-cases
        (same_record_key (record_key r) (key_of outside now stored.manifest e.node_public_key))) [
          | inl own ↦ rw own (λ h absent. dropped-After previous r (ground (arith, own)) absent)
          | inr other ↦
              rw other (λ h. before (not_covered outside now manifests stored e es r other h))
        ]

  dropped_keys :
      (previous : NodeManifest) (es : List NodeManifestKey) (rs : List NodeIdentityRecord)
      → All (AfterBut es) rs
      → All
          (SettlesBut outside now manifests stored stored.manifest.keys)
          (drop_keys outside now stored.manifest previous es rs)
  unfolding drop_keys
  dropped_keys previous [] rs h =
      All-map (AfterBut []) (SettlesBut outside now manifests stored stored.manifest.keys)
        (λ r before. before (ground arith)) rs h
  dropped_keys previous (e ∷ es) rs h =
      elim (Bool-cases (in_manifest outside now stored.manifest e.node_public_key)) [
        | inl kept ↦ rw kept (
            dropped_keys previous es rs (
              All-map (AfterBut (e ∷ es)) (AfterBut es) (λ r before. kept_key e es r kept before) rs
                h))
        | inr dropped ↦ rw dropped (
            dropped_keys previous es
              (change_record (key_of outside now stored.manifest e.node_public_key)
                (with_identity_status outside now
                  (dropped_status outside now previous stored.manifest))
                rs)
              (All-change_record (AfterBut (e ∷ es)) (AfterBut es)
                (key_of outside now stored.manifest e.node_public_key)
                (with_identity_status outside now
                  (dropped_status outside now previous stored.manifest))
                (λ r before. drop_key previous e es r before) rs h))
      ]

  other-After :
      (r : NodeIdentityRecord)
      → (r.node_id == stored.manifest.node_id) ≡ false
      → Settles manifests r
      → After r
  other-After r other settled =
      rw (other_manifest outside now manifests stored r.node_id other) settled

  -- The records that the manifest leaves for the keys of the one before it.
  before_drop :
      (existing : StoredManifest) (r : NodeIdentityRecord)
      → lookup stored.manifest.node_id manifests ≡ some existing
      → Settles manifests r
      → AfterBut existing.manifest.keys r
  unfolding require_record_status require_entry_status
  before_drop existing r found settled h absent =
      elim (Bool-cases (r.node_id == stored.manifest.node_id)) [
        | inr other ↦ other-After r other settled
        | inl own ↦
            let current : current_manifest manifests r.node_id ≡ some existing.manifest =
              ap (current_manifest manifests) ((eq_iff r.node_id stored.manifest.node_id).0 own)
              ∙ ap manifest_of found in
            let entry : find_key r.node_public_key existing.manifest.keys ≡ none =
              no_entry stored.manifest existing.manifest.keys r own h in
            let inactive_before : require_entry_status r none ≡ ok tt =
              sym (ap (require_entry_status r) entry)
              ∙ (sym (ap (require_record_status r) current) ∙ settled) in
            rw (own_manifest outside now manifests stored r.node_id own)
              (rw (no_entry stored.manifest stored.manifest.keys r own absent) inactive_before)
      ]

  first_manifest :
      (r : NodeIdentityRecord)
      → ((r.node_id == stored.manifest.node_id) ≡ true
          → in_manifest outside now stored.manifest r.node_public_key ≡ true)
      → Settles manifests r
      → SettlesBut outside now manifests stored stored.manifest.keys r
  first_manifest r complete settled absent =
      elim (Bool-cases (r.node_id == stored.manifest.node_id)) [
        | inr other ↦ other-After r other settled
        | inl own ↦ absurd (ground (arith, own, complete own, absent))
      ]

  -- A first manifest has to have the keys of the records that its node has already.
  abbrev pub IsComplete : Option StoredManifest → NodeIdentityRecord → Type 0
  IsComplete none r =
      (r.node_id == stored.manifest.node_id) ≡ true
      → in_manifest outside now stored.manifest r.node_public_key ≡ true
  IsComplete (some existing) r = Unit

  pub apply-Settles :
      (existing : Option StoredManifest) (rs : List NodeIdentityRecord)
      → lookup stored.manifest.node_id manifests ≡ existing
      → keys_are_unique [] stored.manifest.keys ≡ true
      → All (IsComplete existing) rs
      → All (Settles manifests) rs
      → All After (apply_manifest_status outside now stored.manifest existing rs)
  unfolding apply_manifest_status
  apply-Settles none rs found unique complete h =
      set_keys outside now manifests stored stored.manifest.keys rs
        (unique-Found [] stored.manifest.keys unique)
        (All-both (IsComplete none) (Settles manifests)
          (SettlesBut outside now manifests stored stored.manifest.keys)
          (λ r c settled. first_manifest r c settled) rs complete h)
  apply-Settles (some existing) rs found unique complete h =
      set_keys outside now manifests stored stored.manifest.keys
        (drop_keys outside now stored.manifest existing.manifest existing.manifest.keys rs)
        (unique-Found [] stored.manifest.keys unique)
        (dropped_keys existing.manifest existing.manifest.keys rs (
          All-map (Settles manifests) (AfterBut existing.manifest.keys)
            (λ r settled. before_drop existing r found settled) rs h))
