-- ===== src/Municipalities/History.antt =====
-- The municipalities cache over any sequence of calls: what it holds, and what it serves.
use integration_nfeio.Base.{
  IsInt64, ℕ, String, Bool, true, false, Option, none, some, List, [], ◌∷◌, All, ℤ, pos, eq_int,
  ltb, eq_str, if◌then◌else◌, ◌≡◌, refl, inl, inr, arith, Bool-cases, eq_iff,
}
use integration_nfeio.Config.{Config}
use integration_nfeio.Http.{get_method, Response, answered, Net, Result, ok, err, World}
use integration_nfeio.Client.{make_request, into, read_body, is_success, do_request}
use integration_nfeio.Client.Answers.{do_request-eq-ok}
use integration_nfeio.Municipalities.{
  ListInput, ListOutput, Entry, Cache, lookup, store_entry, cache_key, set_entry, above_500,
  normalize, municipalities_path, decode_list, no_list, fall_back, fetched, fetch, serve,
  list_municipalities,
}
use integration_nfeio.Municipalities.Keyed.{IsQuery, cache_key_injective}

module _ {S : Type 0} (net : Net S) (now : S → ℕ) (cfg : Config) (op : String) where
  -- The provider answered the query with 2xx at some time, and its body holds `out`.
  pub record IsAnswer (in' : ListInput) (out : ListOutput) : Type 0 where
    pub response : Response
    pub before : S
    pub behind : S
    pub replied :
        net.send (make_request cfg get_method (municipalities_path in') none) before
        ≡ (answered response, behind)
    pub success : is_success response.status ≡ true
    pub body : read_body (into decode_list no_list) response.body ≡ ok out

  -- An entry holds an answer to the query of its key.
  pub record IsKept (p : String × Entry) : Type 0 where
    pub query : ListInput
    pub in_range : IsQuery query
    pub keyed : cache_key query ≡ p.0
    pub answer : IsAnswer query p.1.stored

  -- The states that calls lead to, from a new cache on; between them the world may change at will.
  pub data Reached : Cache → World S → Type 0 where
    fresh : (c : Cache) (w : World S) → c.entries ≡ [] → Reached c w
    elsewhere : (c : Cache) (w w' : World S) → Reached c w → Reached c w'
    called :
        (in' : ListInput) (c c' : Cache) (w w' : World S) (r : Result ListOutput)
        → IsQuery in'
        → Reached c w
        → list_municipalities net now cfg op in' c w ≡ (r, (c', w'))
        → Reached c' w'

  store_entry-All :
      (k : String) (e : Entry) (es : List (String × Entry))
      → IsKept (k, e)
      → All IsKept es
      → All IsKept (store_entry k e es)
  unfolding store_entry
  store_entry-All k e [] h hs = (h, tt)
  store_entry-All k e ((j, f) ∷ es) h (g, hs) = elim (Bool-cases (eq_str j k)) [
    | inl same ↦ rw same (h, hs)
    | inr other ↦ rw other (g, store_entry-All k e es h hs)
  ]

  lookup-IsKept :
      (k : String) (es : List (String × Entry)) {e : Entry}
      → All IsKept es
      → lookup k es ≡ some e
      → IsKept (k, e)
  unfolding lookup
  lookup-IsKept k [] hs h = absurd (cc)
  lookup-IsKept k ((j, f) ∷ es) {e} (g, hs) h = elim (Bool-cases (eq_str j k)) [
    | inl same ↦
        let key : j ≡ k = (eq_iff j k).0 same in
        let entry : f ≡ e = ground arith in rw (key, entry) at g
    | inr other ↦ lookup-IsKept k es {e = e} hs (rw other at h)
  ]

  or_default-IsInt64 : (b : Bool) (y z : ℤ) → IsInt64 y → IsInt64 z → IsInt64 (if b then y else z)
  or_default-IsInt64 true y z hy hz = hy
  or_default-IsInt64 false y z hy hz = hz

  bounded-IsInt64 : (z : ℤ) → IsInt64 z → IsInt64 (if above_500 z then pos 500 else z)
  bounded-IsInt64 z h = or_default-IsInt64 (above_500 z) (pos 500) z (omega arith) h

  normalize-IsQuery : (in' : ListInput) → IsQuery in' → IsQuery (normalize in')
  unfolding normalize
  normalize-IsQuery in' (page, size) = (
    or_default-IsInt64 (eq_int in'.page (pos 0)) (pos 1) in'.page (omega arith) page,
    bounded-IsInt64 _ (
        or_default-IsInt64 (eq_int in'.page_size (pos 0)) (pos 100) in'.page_size (omega arith)
          size),
  )

  -- What a call serves is an answer, and it keeps the cache to answers.
  abbrev Serves : ListInput → Result ListOutput × (Cache × World S) → Type 0
  Serves in' (ok out, (c, w)) = IsAnswer in' out × All IsKept c.entries
  Serves in' (err e, (c, w)) = All IsKept c.entries

  entry_answer :
      (in' : ListInput) (e : Entry)
      → IsQuery in'
      → IsKept (cache_key in', e)
      → IsAnswer in' e.stored
  entry_answer in' e q kept =
      rw (cache_key_injective kept.query in' kept.in_range q kept.keyed) at kept.answer

  fetched-Serves :
      (in' : ListInput) (c : Cache) (p : Result ListOutput × World S)
      → IsQuery in'
      → All IsKept c.entries
      → ((out : ListOutput) → p.0 ≡ ok out → IsAnswer in' out)
      → Serves in' (fetched net now cfg op (cache_key in') c p)
  unfolding set_entry
  fetched-Serves in' c (ok out, w) q hs h = (
    h out refl,
    store_entry-All (cache_key in') _ c.entries
        (record { query = in'; in_range = q; keyed = refl; answer = h out refl }) hs,
  )
  fetched-Serves in' c (err e, w) q hs h = fall_back-Serves (lookup (cache_key in') c.entries) refl
    where
      fall_back-Serves :
          (o : Option Entry)
          → lookup (cache_key in') c.entries ≡ o
          → Serves in' (fall_back net now cfg op o (err e) c w)
      fall_back-Serves none found = hs
      fall_back-Serves (some f) found =
          (entry_answer in' f q (lookup-IsKept (cache_key in') c.entries {e = f} hs found), hs)

  fetch-Serves :
      (in' : ListInput) (c : Cache) (w : World S)
      → IsQuery in'
      → All IsKept c.entries
      → Serves in' (fetch net now cfg op in' c w)
  fetch-Serves in' c w q hs =
      let path = municipalities_path in' in
      let target = into decode_list no_list in
      fetched-Serves in' c (do_request net cfg op get_method path none target w) q hs (λ out e.
        let (r, (s, sent), success, body) =
          do_request-eq-ok net cfg op get_method path none target w {a = out} e in
        record {
          response = r;
          before = s;
          behind = (do_request net cfg op get_method path none target w).1.net;
          replied = sent;
          success = success;
          body = body;
        })

  serve-Serves :
      (in' : ListInput) (c : Cache) (w : World S) (o : Option Entry)
      → lookup (cache_key in') c.entries ≡ o
      → IsQuery in'
      → All IsKept c.entries
      → Serves in' (serve net now cfg op in' c w o)
  serve-Serves in' c w none e q hs = fetch-Serves in' c w q hs
  serve-Serves in' c w (some f) e q hs = elim (Bool-cases (ltb (now w.net) f.expires_at)) [
    | inl valid ↦
        rw valid (entry_answer in' f q (lookup-IsKept (cache_key in') c.entries {e = f} hs e), hs)
    | inr stale ↦ rw stale (fetch-Serves in' c w q hs)
  ]

  list-Serves :
      (in' : ListInput) (c : Cache) (w : World S)
      → IsQuery in'
      → All IsKept c.entries
      → Serves (normalize in') (list_municipalities net now cfg op in' c w)
  unfolding list_municipalities
  list-Serves in' c w q hs =
      serve-Serves (normalize in') c w (lookup (cache_key (normalize in')) c.entries) refl
        (normalize-IsQuery in' q) hs

  entries-IsKept :
      (in' : ListInput) (p : Result ListOutput × (Cache × World S))
      → Serves in' p
      → All IsKept p.1.0.entries
  entries-IsKept in' (ok out, (c, w)) h = h.1
  entries-IsKept in' (err e, (c, w)) h = h

  -- The invariant: in every state that calls lead to, each entry of the cache holds an answer of the
  -- provider to the query of its key.
  Reached-IsKept : (c : Cache) (w : World S) → Reached c w → All IsKept c.entries
  Reached-IsKept _ _ (fresh c w e) = rw e tt
  Reached-IsKept _ _ (elsewhere c w w' h) = Reached-IsKept c w h
  Reached-IsKept _ _ (called in' c c' w w' r q h e) = rw e at (
      entries-IsKept (normalize in') (list_municipalities net now cfg op in' c w)
        (list-Serves in' c w q (Reached-IsKept c w h)))

  -- After any sequence of calls, whatever happens between them, a call that succeeds serves what a
  -- 2xx answer of the provider to that very query held, its defaults filled in, be it fresh, cached or
  -- stale: never the answer to another query.
  pub served-IsAnswer :
      (c c' : Cache) (w w' : World S) (in' : ListInput) {out : ListOutput}
      → Reached c w
      → IsQuery in'
      → list_municipalities net now cfg op in' c w ≡ (ok out, (c', w'))
      → IsAnswer (normalize in') out
  served-IsAnswer c c' w w' in' {out} h q e =
      let served : Serves (normalize in') (ok out, (c', w')) =
        rw e at (list-Serves in' c w q (Reached-IsKept c w h)) in
      served.0
