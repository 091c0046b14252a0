-- ===== src/Municipalities/Reads.antt =====
-- `ListMunicipalities` only reads.
use integration_nfeio.Base.{
  refl, inl, inr, ℕ, String, Option, none, some, ◌≡◌, arith, Bool-cases, ltb,
}
use integration_nfeio.Config.{Config}
use integration_nfeio.Http.{Net, Result, ok, err, World}
use integration_nfeio.Client.Sends.{SentOnly, SentOnly-refl, SentOnly-weaken}
use integration_nfeio.Client.Reads.{IsGet, Reads-get}
use integration_nfeio.Municipalities.{
  ListInput, ListOutput, Entry, Cache, lookup, cache_key, normalize, fall_back, fetched, fetch,
  serve, list_municipalities,
}

module _ {S : Type 0} (net : Net S) (now : S → ℕ) (cfg : Config) (op : String) where
  fall_back-world :
      (o : Option Entry) (r : Result ListOutput) (c : Cache) (w : World S)
      → (fall_back net now cfg op o r c w).1.1 ≡ w
  fall_back-world none r c w = refl
  fall_back-world (some e) r c w = refl

  fetched-world :
      (k : String) (c : Cache) (p : Result ListOutput × World S)
      → (fetched net now cfg op k c p).1.1 ≡ p.1
  fetched-world k c (ok out, w) = refl
  fetched-world k c (err e, w) = fall_back-world (lookup k c.entries) (err e) c w

  fetch-Reads :
      (in' : ListInput) (c : Cache) (w : World S)
      → SentOnly IsGet 3 w (fetch net now cfg op in' c w).1.1
  fetch-Reads in' c w = rw (fetched-world (cache_key in') c) ((Reads-get net cfg op _ _).run w)

  serve-Reads :
      (in' : ListInput) (c : Cache) (w : World S) (o : Option Entry)
      → SentOnly IsGet 3 w (serve net now cfg op in' c w o).1.1
  serve-Reads in' c w none = fetch-Reads in' c w
  serve-Reads in' c w (some e) = elim (Bool-cases (ltb (now w.net) e.expires_at)) [
    | inl fresh ↦ rw fresh (SentOnly-weaken IsGet 0 3 w w (omega arith) (SentOnly-refl IsGet w))
    | inr stale ↦ rw stale (fetch-Reads in' c w)
  ]

  pub list_municipalities-Reads :
      (in' : ListInput) (c : Cache) (w : World S)
      → SentOnly IsGet 3 w (list_municipalities net now cfg op in' c w).1.1
  unfolding list_municipalities
  list_municipalities-Reads in' c w =
      let in'' = normalize in' in serve-Reads in'' c w (lookup (cache_key in'') c.entries)
