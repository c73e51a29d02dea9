-- ===== src/Registry/Log/Recorded.antt =====
-- The status of a record that an announcement adds or counts again (`_record_signed_identity`).
use p4p.Prelude.{
  ℕ, ◌≡◌, refl, ap, sym, ◌∙◌, arith, ◌==◌, Option, none, some, List, [], ◌∷◌, All, All-append_one,
  Bool-cases, inl, inr, eq_iff,
}
use p4p.Prelude.Dict.{Dict, lookup, insert, lookup-insert}
use p4p.Registry.Node.{Node}
use p4p.Registry.Identity.{NodeIdentityRecord, RecordKey, record_key, same_record_key, change_if}
use p4p.Registry.Store.{Outside, StoredManifest, RegistryStore}
use p4p.Registry.Validation.Entry.{HasActiveEntry}
use p4p.Registry.Validation.Log.{require_record_status, require_entry_status}
use p4p.Registry.Recording.{recorded, first_record, seen_again, node_key}
use p4p.Registry.Log.Accepted.{SignedInTime}
use p4p.Registry.Log.Settled.{Settles, All-change_record}

-- A manifest stands under its node_id, and each node_id once.
abbrev pub IsKeyed : Dict StoredManifest → Type 0
IsKeyed [] = Unit
IsKeyed ((k, stored) ∷ d) = (stored.manifest.node_id ≡ k) × ((lookup k d ≡ none) × IsKeyed d)

pub record IsSettled (outside : Outside) (s : RegistryStore) : Type 0 where
  pub in_time : All (SignedInTime outside) s.identity_events
  pub settled : All (Settles s.node_manifests) s.identity_records
  pub keyed : IsKeyed s.node_manifests

pub insert-IsKeyed :
    (stored : StoredManifest) (d : Dict StoredManifest)
    → IsKeyed d
    → IsKeyed (insert stored.manifest.node_id stored d)
insert-IsKeyed stored [] h = (refl, (refl, tt))
insert-IsKeyed stored ((k, v) ∷ d) (same, (once, h)) =
    elim (Bool-cases (k == stored.manifest.node_id)) [
      | inl own ↦
          let key = (eq_iff k stored.manifest.node_id).0 own in
          rw own (refl, (ap (λ i. lookup i d) (sym key) ∙ once, h))
      | inr other ↦ rw other (
        same,
        (
          lookup-insert stored.manifest.node_id k stored d
              ∙ ground (
                arith,
                other,
                once,
                eq_iff k stored.manifest.node_id,
                eq_iff stored.manifest.node_id k,
              ),
          insert-IsKeyed stored d h,
        ),
      )
    ]

module _ (outside : Outside) (now : ℕ) where
  pub seen_again-Settles :
      (manifests : Dict StoredManifest) (node : Node) (k : RecordKey) (r : NodeIdentityRecord)
      → Settles manifests r
      → Settles manifests (change_if k (seen_again outside now node) r)
  unfolding require_record_status require_entry_status
  seen_again-Settles manifests node k r h = elim (Bool-cases (same_record_key (record_key r) k)) [
    | inl own ↦ rw own h
    | inr other ↦ rw other h
  ]

  pub first_record-Settles :
      (manifests : Dict StoredManifest) (node : Node) (stored : Option StoredManifest)
      → lookup node.node_id manifests ≡ stored
      → ((current : StoredManifest)
          → stored ≡ some current
          → HasActiveEntry outside now current.manifest node)
      → Settles manifests (first_record outside now node)
  unfolding require_record_status require_entry_status
  first_record-Settles manifests node none found has = rw found refl
  first_record-Settles manifests node (some current) found has =
      let (e, (entry, active)) = has current refl in rw found (rw entry (rw active refl))

  pub recorded-Settles :
      (manifests : Dict StoredManifest) (node : Node) (found : Option NodeIdentityRecord)
      (rs : List NodeIdentityRecord)
      → Settles manifests (first_record outside now node)
      → All (Settles manifests) rs
      → All (Settles manifests) (recorded outside now node found rs)
  recorded-Settles manifests node none rs first h =
      All-append_one (Settles manifests) rs (first_record outside now node) h first
  recorded-Settles manifests node (some r) rs first h =
      All-change_record (Settles manifests) (Settles manifests) (node_key outside now node)
        (seen_again outside now node)
        (λ q settled. seen_again-Settles manifests node (node_key outside now node) q settled) rs h
