-- ===== src/Registry/Mirrors/Imports.antt =====
-- Imports of one source, repeated or in another order.
use p4p.Prelude.{
  ℕ, String, ◌==◌, ◌≡◌, refl, ap, sym, ◌∙◌, arith, Bool, true, false, Option, none, some,
  Bool-cases, inl, inr, clash, str_eq_refl, ltb, eq_iff,
}
use p4p.Prelude.Dict.{Dict, lookup, insert, lookup-insert_self, insert-insert}
use p4p.Prelude.Result.{ok}
use p4p.Registry.Source.{StoredMirrorSource}
use p4p.Registry.Store.{Outside, RegistryConfig, RegistryStore, normalized_registry_url}
use p4p.Registry.Mirrors.{
  MirrorSourceStoreDecision, Provenance, provenance_before, same_provenance, priority_before,
  same_priority, stored_priority, registry_source_content_hash, is_self_source, skip_detail,
  existing_detail, skip_or_raise, store_if, put_source, store_mirror_source,
}

not_before_itself : (a : Provenance) → provenance_before a a ≡ false
not_before_itself a = ground arith

same_as_itself : (a : Provenance) → same_provenance a a ≡ true
same_as_itself a = ground arith

before_one_way :
    (p q : ℕ × Provenance)
    → priority_before p q ≡ true
    → (priority_before q p ≡ false) × (same_priority q p ≡ false)
before_one_way (m, a) (n, b) h = (ground (arith, h), ground (arith, h))

module _ (outside : Outside) (config : RegistryConfig) where
  unchanged :
      (stored : StoredMirrorSource)
      → skip_detail outside config stored.snapshot stored.verified_signature
          stored.relayed_by_registry_url stored
        ≡ some "Skipped unchanged mirror snapshot"
  unfolding skip_detail
  unchanged stored =
      let p = (stored_priority outside config stored).1 in
      rw (str_eq_refl (registry_source_content_hash outside stored.snapshot))
        (rw (not_before_itself p) (rw (same_as_itself p) refl))

  skip-NotStored :
      (allow : Bool) (detail text : String) (d : MirrorSourceStoreDecision)
      → skip_or_raise allow detail text ≡ ok d
      → d.stored ≡ false
  skip-NotStored true detail text d h = ground (arith, h)
  skip-NotStored false detail text d h = absurd (ground (arith, h))

  if-stored :
      (self : Bool) (o : Option String) (allow : Bool) (stored : StoredMirrorSource)
      (s t : RegistryStore) (d : MirrorSourceStoreDecision)
      → store_if outside config self o allow stored s ≡ (ok d, t)
      → d.stored ≡ true
      → (self ≡ false) × (t ≡ put_source outside config stored s)
  unfolding store_if
  if-stored true o allow stored s t d h is_stored =
      clash is_stored (skip-NotStored _ "Skipped self mirror source" _ d (ap (λ p. p.0) h))
  if-stored false none allow stored s t d h is_stored = (refl, sym (ap (λ p. p.1) h))
  if-stored false (some detail) allow stored s t d h is_stored =
      clash is_stored (skip-NotStored allow detail _ d (ap (λ p. p.0) h))

  abbrev again : ℕ → StoredMirrorSource → StoredMirrorSource
  again imported_at stored = record stored { imported_at = imported_at }

  found_put :
      (stored : StoredMirrorSource) (s : RegistryStore)
      → lookup
          (normalized_registry_url stored.snapshot.snapshot.registry_url)
          (put_source outside config stored s).mirror_sources
        ≡ some stored
  unfolding put_source
  found_put stored s =
      lookup-insert_self (normalized_registry_url stored.snapshot.snapshot.registry_url) stored
        s.mirror_sources

  store-by :
      (stored : StoredMirrorSource) (allow : Bool) (s : RegistryStore) (self : Bool)
      (o : Option String)
      → is_self_source outside config stored.snapshot.snapshot.registry_url ≡ self
      → existing_detail outside config stored.snapshot stored.verified_signature
          stored.relayed_by_registry_url
          (lookup (normalized_registry_url stored.snapshot.snapshot.registry_url) s.mirror_sources)
        ≡ o
      → store_mirror_source outside config stored allow s
        ≡ store_if outside config self o allow stored s
  unfolding store_mirror_source
  store-by stored allow s self o p q =
      let detail =
        existing_detail outside config stored.snapshot stored.verified_signature
          stored.relayed_by_registry_url
          (lookup (normalized_registry_url stored.snapshot.snapshot.registry_url)
            s.mirror_sources) in
      ap (λ b. store_if outside config b detail allow stored s) p
      ∙ ap (λ e. store_if outside config self e allow stored s) q

  -- A source that was stored is not stored again, at whatever time, and nothing changes.
  pub store_mirror_source-repeat :
      (allow : Bool) (stored : StoredMirrorSource) (s t : RegistryStore)
      (d : MirrorSourceStoreDecision) (imported_at : ℕ)
      → store_mirror_source outside config stored allow s ≡ (ok d, t)
      → d.stored ≡ true
      → store_mirror_source outside config (again imported_at stored) true t
        ≡ (ok (record { stored = false; detail = some "Skipped unchanged mirror snapshot" }), t)
  unfolding store_if existing_detail
  store_mirror_source-repeat allow stored s t d imported_at h is_stored =
      let url = normalized_registry_url stored.snapshot.snapshot.registry_url in
      let (other, put) =
        if-stored _ _ allow stored s t d (sym (store-by stored allow s _ _ refl refl) ∙ h)
          is_stored in
      let found : lookup url t.mirror_sources ≡ some stored =
        ap (λ (u : RegistryStore). lookup url u.mirror_sources) put ∙ found_put stored s in
      store-by (again imported_at stored) true t false (some "Skipped unchanged mirror snapshot")
        other
        (ap
            (existing_detail outside config stored.snapshot stored.verified_signature
              stored.relayed_by_registry_url)
            found
          ∙ unchanged stored)

  abbrev detail_of : StoredMirrorSource → StoredMirrorSource → Option String
  detail_of c existing =
      skip_detail outside config c.snapshot c.verified_signature c.relayed_by_registry_url existing

  higher-replaces :
      (a b : StoredMirrorSource)
      → (registry_source_content_hash outside a.snapshot
          == registry_source_content_hash outside b.snapshot)
        ≡ false
      → priority_before (stored_priority outside config a) (stored_priority outside config b) ≡ true
      → detail_of b a ≡ none
  unfolding skip_detail
  higher-replaces a b differ lower =
      let (after, apart) =
        before_one_way (stored_priority outside config a) (stored_priority outside config b)
          lower in
      let differ' : (registry_source_content_hash outside b.snapshot
            == registry_source_content_hash outside a.snapshot)
          ≡ false =
        ground (
          arith,
          differ,
          eq_iff (registry_source_content_hash outside a.snapshot)
              (registry_source_content_hash outside b.snapshot),
          eq_iff (registry_source_content_hash outside b.snapshot)
              (registry_source_content_hash outside a.snapshot),
        ) in
      rw differ' (rw after (rw apart refl))

  lower-skipped :
      (a b : StoredMirrorSource)
      → (registry_source_content_hash outside a.snapshot
          == registry_source_content_hash outside b.snapshot)
        ≡ false
      → priority_before (stored_priority outside config a) (stored_priority outside config b) ≡ true
      → (detail : String) × (detail_of a b ≡ some detail)
  unfolding skip_detail
  lower-skipped a b differ lower =
      elim (Bool-cases (ltb a.snapshot.snapshot.exported_at b.snapshot.snapshot.exported_at)) [
        | inl older ↦ ("Skipped older mirror snapshot", rw differ (rw lower (rw older refl)))
        | inr weaker ↦ ("Skipped weaker mirror snapshot", rw differ (rw lower (rw weaker refl)))
      ]

  put-put :
      (a b : StoredMirrorSource) (s : RegistryStore)
      → normalized_registry_url a.snapshot.snapshot.registry_url
        ≡ normalized_registry_url b.snapshot.snapshot.registry_url
      → put_source outside config b (put_source outside config a s) ≡ put_source outside config b s
  unfolding put_source
  put-put a b s same_url =
      let url = normalized_registry_url b.snapshot.snapshot.registry_url in
      ap (λ (d : Dict StoredMirrorSource). record s { mirror_sources = d })
        (ap (λ (u : String). insert url b (insert u a s.mirror_sources)) same_url
          ∙ insert-insert url a b s.mirror_sources)

  -- What an import gives where the source of its URL is known.
  import_after :
      (c : StoredMirrorSource) (o : Option StoredMirrorSource) (s : RegistryStore)
      → is_self_source outside config c.snapshot.snapshot.registry_url ≡ false
      → lookup (normalized_registry_url c.snapshot.snapshot.registry_url) s.mirror_sources ≡ o
      → store_mirror_source outside config c true s
        ≡ store_if outside config false
            (existing_detail outside config c.snapshot c.verified_signature
              c.relayed_by_registry_url o)
            true
            c
            s
  import_after c o s other found =
      store-by c true s false
        (existing_detail outside config c.snapshot c.verified_signature c.relayed_by_registry_url o)
        other
        (ap
          (existing_detail outside config c.snapshot c.verified_signature c.relayed_by_registry_url)
          found)

  -- Of two sources that are not the registry's own, with one URL that it does not mirror yet and with
  -- different content, of which the second is higher in time of export and provenance, the second
  -- alone is mirrored, in whichever order they are imported.
  pub store_mirror_source-commute :
      (a b : StoredMirrorSource) (s : RegistryStore)
      → normalized_registry_url a.snapshot.snapshot.registry_url
        ≡ normalized_registry_url b.snapshot.snapshot.registry_url
      → is_self_source outside config a.snapshot.snapshot.registry_url ≡ false
      → is_self_source outside config b.snapshot.snapshot.registry_url ≡ false
      → lookup (normalized_registry_url b.snapshot.snapshot.registry_url) s.mirror_sources ≡ none
      → (registry_source_content_hash outside a.snapshot
          == registry_source_content_hash outside b.snapshot)
        ≡ false
      → priority_before (stored_priority outside config a) (stored_priority outside config b) ≡ true
      → ((store_mirror_source outside config b true
            (store_mirror_source outside config a true s).1).1
          ≡ put_source outside config b s)
        × ((store_mirror_source outside config a true
              (store_mirror_source outside config b true s).1).1
            ≡ put_source outside config b s)
  unfolding store_if existing_detail
  store_mirror_source-commute a b s same_url other_a other_b nothing differ lower =
      let nothing_a = ap (λ u. lookup u s.mirror_sources) same_url ∙ nothing in
      let with_a = put_source outside config a s in
      let with_b = put_source outside config b s in
      let found_a = ap (λ u. lookup u with_a.mirror_sources) (sym same_url) ∙ found_put a s in
      let found_b = ap (λ u. lookup u with_b.mirror_sources) same_url ∙ found_put b s in
      let (detail, skipped) = lower-skipped a b differ lower in
      (
        rw (import_after a none s other_a nothing_a) (
            rw (import_after b (some a) with_a other_b found_a)
              (rw (higher-replaces a b differ lower) (put-put a b s same_url))),
        rw (import_after b none s other_b nothing)
            (rw (import_after a (some b) with_b other_a found_b) (rw skipped refl)),
      )
