-- ===== src/Registry/Log/Statuses.antt =====
-- A manifest changes the status of records and nothing else (`_apply_manifest_status`).
use p4p.Prelude.{
  ℕ, ◌≡◌, refl, ◌∙◌, true, Option, none, some, List, [], ◌∷◌, any, All, All-map, Bool-cases, inl,
  inr,
}
use p4p.Registry.Node.{NodeManifest, NodeManifestKey}
use p4p.Registry.Identity.{
  NodeIdentityEvent, NodeIdentityRecord, RecordKey, record_key, event_key, same_record_key,
  change_record, IdentityStatus,
}
use p4p.Registry.Validation.Log.{has_key, history}
use p4p.Registry.Store.{StoredManifest, Outside}
use p4p.Registry.Recording.{
  with_identity_status, key_of, in_manifest, dropped_status, key_status, drop_keys,
  set_key_statuses, apply_manifest_status,
}
use p4p.Registry.Log.{Agrees, IsConsistent}
use p4p.Registry.Log.Keys.{any-change_record, count_key-change_record, KeepsKey}

module _ (outside : Outside) (now : ℕ) (es : List NodeIdentityEvent) where
  agree_status :
      (k : RecordKey) (status : IdentityStatus) (rs : List NodeIdentityRecord)
      → All (λ r. Agrees now r (history (record_key r) es)) rs
      → All
          (λ r. Agrees now r (history (record_key r) es))
          (change_record k (with_identity_status outside now status) rs)
  unfolding change_record
  agree_status k status [] h = tt
  agree_status k status (r ∷ rs) (a, h) = (
    elim (Bool-cases (same_record_key (record_key r) k)) [
      | inl own ↦ rw own a
      | inr other ↦ rw other a
    ],
    agree_status k status rs h,
  )

  change_record-IsConsistent :
      (k : RecordKey) (status : IdentityStatus) (rs : List NodeIdentityRecord)
      → IsConsistent now rs es
      → IsConsistent now (change_record k (with_identity_status outside now status) rs) es
  change_record-IsConsistent k status rs c =
      let keeps : KeepsKey (with_identity_status outside now status) = λ r. refl in
      record {
        agree = agree_status k status rs c.agree;
        single = λ j.
            rw (count_key-change_record (with_identity_status outside now status) keeps k j rs)
              (c.single j);
        logged =
            All-map (λ e. any (has_key (event_key e)) rs ≡ true)
              (λ e.
                any (has_key (event_key e))
                  (change_record k (with_identity_status outside now status) rs)
                ≡ true)
              (λ e logged.
                any-change_record (with_identity_status outside now status) keeps k (event_key e) rs
                ∙ logged)
              es c.logged;
      }

  set_key_statuses-IsConsistent :
      (manifest : NodeManifest) (entries : List NodeManifestKey) (rs : List NodeIdentityRecord)
      → IsConsistent now rs es
      → IsConsistent now (set_key_statuses outside now manifest entries rs) es
  unfolding set_key_statuses
  set_key_statuses-IsConsistent manifest [] rs c = c
  set_key_statuses-IsConsistent manifest (entry ∷ entries) rs c =
      set_key_statuses-IsConsistent manifest entries
        (change_record (key_of outside now manifest entry.node_public_key)
          (with_identity_status outside now (key_status outside now entry.status)) rs)
        (change_record-IsConsistent (key_of outside now manifest entry.node_public_key)
          (key_status outside now entry.status) rs c)

  drop_keys-IsConsistent :
      (manifest previous : NodeManifest) (entries : List NodeManifestKey)
      (rs : List NodeIdentityRecord)
      → IsConsistent now rs es
      → IsConsistent now (drop_keys outside now manifest previous entries rs) es
  unfolding drop_keys
  drop_keys-IsConsistent manifest previous [] rs c = c
  drop_keys-IsConsistent manifest previous (entry ∷ entries) rs c =
      elim (Bool-cases (in_manifest outside now manifest entry.node_public_key)) [
        | inl kept ↦ rw kept (drop_keys-IsConsistent manifest previous entries rs c)
        | inr dropped ↦ rw dropped (
            drop_keys-IsConsistent manifest previous entries
              (change_record (key_of outside now manifest entry.node_public_key)
                (with_identity_status outside now (dropped_status outside now previous manifest))
                rs)
              (change_record-IsConsistent (key_of outside now manifest entry.node_public_key)
                (dropped_status outside now previous manifest) rs c))
      ]

  pub apply_manifest_status-IsConsistent :
      (manifest : NodeManifest) (existing : Option StoredManifest) (rs : List NodeIdentityRecord)
      → IsConsistent now rs es
      → IsConsistent now (apply_manifest_status outside now manifest existing rs) es
  unfolding apply_manifest_status
  apply_manifest_status-IsConsistent manifest none rs c =
      set_key_statuses-IsConsistent manifest manifest.keys rs c
  apply_manifest_status-IsConsistent manifest (some existing) rs c =
      set_key_statuses-IsConsistent manifest manifest.keys
        (drop_keys outside now manifest existing.manifest existing.manifest.keys rs)
        (drop_keys-IsConsistent manifest existing.manifest existing.manifest.keys rs c)
