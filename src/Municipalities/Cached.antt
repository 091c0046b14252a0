-- ===== src/Municipalities/Cached.antt =====
-- `ListMunicipalities` where the cache holds an answer.
use integration_nfeio.Base.{
  ℕ, ◌+◌, ◌<◌, String, true, none, some, List, [], ◌∷◌, ltb, eq_str, ◌≡◌, refl, inl, inr, arith,
  Bool-cases, eq_refl,
}
use integration_nfeio.Config.{Config}
use integration_nfeio.Http.{Net, Result, ok, err, World}
use integration_nfeio.Municipalities.{
  ListInput, ListOutput, Entry, Cache, lookup, store_entry, cache_key, set_entry, normalize,
  fetched, serve, list_municipalities,
}

lookup-store_entry :
    (k : String) (e : Entry) (es : List (String × Entry)) → lookup k (store_entry k e es) ≡ some e
unfolding lookup store_entry
lookup-store_entry k e [] = ground (arith, eq_refl k)
lookup-store_entry k e ((j, f) ∷ es) = elim (Bool-cases (eq_str j k)) [
  | inl same ↦ ground (arith, eq_refl k)
  | inr other ↦ rw (other, other) (lookup-store_entry k e es)
]

lookup-set_entry :
    (k : String) (out : ListOutput) (now : ℕ) (c : Cache)
    → lookup k (set_entry k out now c).entries
      ≡ some (record { stored = out; expires_at = now + c.ttl })
unfolding set_entry
lookup-set_entry k out now c = lookup-store_entry k _ c.entries

module _ {S : Type 0} (net : Net S) (now : S → ℕ) (cfg : Config) (op : String) where
  abbrev listing : ListInput → Cache → World S → Result ListOutput × (Cache × World S)
  listing = list_municipalities net now cfg op

  fetched_present :
      (k : String) (c : Cache) (p : Result ListOutput × World S) {e : Entry}
      → lookup k c.entries ≡ some e
      → (out : ListOutput) × ((fetched net now cfg op k c p).0 ≡ ok out)
  fetched_present k c (ok out, w) h = (out, refl)
  fetched_present k c (err y, w) {e} h = (e.stored, rw h)

  fetched_stored :
      (k : String) (c c' : Cache) (p : Result ListOutput × World S) (w' : World S)
      {out : ListOutput}
      → fetched net now cfg op k c p ≡ (ok out, (c', w'))
      → lookup k c.entries ≡ none
      → c' ≡ set_entry k out (now w'.net) c
  fetched_stored k c c' (ok o, v) w' h absent = cc
  fetched_stored k c c' (err y, v) w' {out} h absent =
      let contra : ◌≡◌ {A = Result ListOutput × (Cache × World S)} (err y, (c, v))
          (ok out, (c', w')) =
        rw absent at h in
      absurd (cc)

  serve_fresh :
      (in' : ListInput) (c : Cache) (w : World S) (e : Entry)
      → ltb (now w.net) e.expires_at ≡ true
      → serve net now cfg op in' c w (some e) ≡ (ok e.stored, (c, w))
  serve_fresh in' c w e fresh = rw fresh

  -- While the cache holds an answer to the input, of any age, the operation succeeds.
  pub list_present :
      (in' : ListInput) (c : Cache) (w : World S) {e : Entry}
      → lookup (cache_key (normalize in')) c.entries ≡ some e
      → (out : ListOutput) × ((listing in' c w).0 ≡ ok out)
  unfolding list_municipalities
  list_present in' c w {e} h = elim (Bool-cases (ltb (now w.net) e.expires_at)) [
    | inl fresh ↦ rw (h, fresh) (e.stored, refl)
    | inr stale ↦ rw (h, stale) (fetched_present (cache_key (normalize in')) c _ h)
  ]

  -- Where an answer was fetched and the cache has a lifetime, the same question asked at once is
  -- answered the same from the cache: nothing is sent, and neither cache nor world changes.
  pub list_again :
      (in' : ListInput) (c c' : Cache) (w w' : World S) {out : ListOutput}
      → listing in' c w ≡ (ok out, (c', w'))
      → lookup (cache_key (normalize in')) c.entries ≡ none
      → 0 < c.ttl
      → listing in' c' w' ≡ (ok out, (c', w'))
  unfolding list_municipalities
  list_again in' c c' w w' {out} h absent lives =
      let k = cache_key (normalize in') in
      let entry : Entry = record { stored = out; expires_at = now w'.net + c.ttl } in
      let stored = fetched_stored k c c' _ w' (rw absent at h) absent in
      let found : lookup k c'.entries ≡ some entry =
        rw stored (lookup-set_entry k out (now w'.net) c) in
      rw found (serve_fresh (normalize in') c' w' entry (ground arith))
