-- ===== src/Municipalities.antt =====
-- providers/nfeio/adapter/list_municipalities.go: the municipalities, behind a cache.
pub mod Cached
pub mod Keyed
pub mod History
pub mod Reads
use integration_nfeio.Base.{
  ℕ, ◌+◌, String, ◌<>◌, Bool, true, false, ◌&&◌, not, Option, none, some, List, [], ◌∷◌, ℤ, pos,
  negsuc, eq_int, gt_zero, ltb, eq_str, show_int, if◌then◌else◌,
}
use integration_nfeio.Json.{
  Json, null, arr, Decoder, Decoded, decode_struct, store, keep, read_string, read_int, read_bool,
}
use integration_nfeio.Config.{Config}
use integration_nfeio.Http.{get_method, Net, Result, ok, err, World}
use integration_nfeio.Client.{into, do_request}
use integration_nfeio.Invoice.Observe.{decode_items}

pub record Municipality : Type 0 where
  pub code : String
  pub name : String
  pub state : String
  pub supports_nfse : Bool

-- `ListMunicipalitiesInput`.
pub record ListInput : Type 0 where
  pub state_code : String
  pub page : ℤ
  pub page_size : ℤ

-- `ListMunicipalitiesOutput`.
pub record ListOutput : Type 0 where
  pub municipalities : List Municipality
  pub total : ℤ
  pub page : ℤ

-- `municipalitiesCacheEntry`, with the time in milliseconds.
pub record Entry : Type 0 where
  pub stored : ListOutput
  pub expires_at : ℕ

-- `MunicipalitiesCache`: its lifetime, and each key once.
pub record Cache : Type 0 where
  pub ttl : ℕ
  pub entries : List (String × Entry)

unfoldable pub lookup : String → List (String × Entry) → Option Entry
lookup k [] = none
lookup k ((j, e) ∷ es) = if eq_str j k then some e else lookup k es

unfoldable pub store_entry : String → Entry → List (String × Entry) → List (String × Entry)
store_entry k e [] = (k, e) ∷ []
store_entry k e ((j, f) ∷ es) = if eq_str j k then (k, e) ∷ es else (j, f) ∷ store_entry k e es

-- `MunicipalitiesCache.key`.
unfoldable pub cache_key : ListInput → String
cache_key in' = in'.state_code <> ("|p" <> (show_int in'.page <> ("|s" <> show_int in'.page_size)))

-- `MunicipalitiesCache.set`.
unfoldable pub set_entry : String → ListOutput → ℕ → Cache → Cache
unfolding store_entry
set_entry k out now c = record c {
  entries = store_entry k (record { stored = out; expires_at = now + c.ttl }) c.entries;
}

abbrev above_500 : ℤ → Bool
above_500 (pos n) = ltb 500 n
above_500 (negsuc n) = false

-- The input with its defaults and its bound.
unfoldable pub normalize : ListInput → ListInput
normalize in' =
    let page = if eq_int in'.page (pos 0) then pos 1 else in'.page in
    let size = if eq_int in'.page_size (pos 0) then pos 100 else in'.page_size in
    record in' { page = page; page_size = if above_500 size then pos 500 else size }

unfoldable pub municipalities_path : ListInput → String
municipalities_path in' =
    let path =
      "/v2/municipalities?page="
      <> (show_int in'.page <> ("&pageSize=" <> show_int in'.page_size)) in
    if not (eq_str in'.state_code "") then path <> ("&stateCode=" <> in'.state_code) else path

abbrev set_municipality : String → Json → Municipality → Decoded Municipality
set_municipality n v x =
    if eq_str n "code"
    then store (read_string v) (λ s. record x { code = s }) x
    else if eq_str n "name"
    then store (read_string v) (λ s. record x { name = s }) x
    else if eq_str n "state"
    then store (read_string v) (λ s. record x { state = s }) x
    else store (read_bool v) (λ b. record x { supports_nfse = b }) x

abbrev decode_municipality : Decoder Municipality
decode_municipality =
    decode_struct ("code" ∷ "name" ∷ "state" ∷ "supportsNfse" ∷ []) set_municipality

abbrev no_municipality : Municipality
no_municipality = record { code = ""; name = ""; state = ""; supports_nfse = false }

abbrev set_municipalities : Json → ListOutput → Decoded ListOutput
set_municipalities null x = keep x
set_municipalities (arr vs) x =
    let items = decode_items decode_municipality no_municipality vs in
    record { value = record x { municipalities = items.value }; failed = items.failed }
set_municipalities _ x = record { value = x; failed = true }

abbrev set_list : String → Json → ListOutput → Decoded ListOutput
set_list n v x =
    if eq_str n "municipalities"
    then set_municipalities v x
    else if eq_str n "total"
    then store (read_int v) (λ i. record x { total = i }) x
    else store (read_int v) (λ i. record x { page = i }) x

unfoldable pub decode_list : Decoder ListOutput
unfolding decode_struct decode_items
decode_list = decode_struct ("municipalities" ∷ "total" ∷ "page" ∷ []) set_list

abbrev pub no_list : ListOutput
no_list = record { municipalities = []; total = pos 0; page = pos 0 }

-- `now` reads the clock.
module _ {S : Type 0} (net : Net S) (now : S → ℕ) (cfg : Config) (op : String) where
  abbrev Listed : Type 0
  Listed = Result ListOutput × (Cache × World S)

  -- The last cached answer, whatever its age.
  abbrev fall_back : Option Entry → Result ListOutput → Cache → World S → Listed
  fall_back none r c w = (r, (c, w))
  fall_back (some e) r c w = (ok e.stored, (c, w))

  abbrev fetched : String → Cache → Result ListOutput × World S → Listed
  fetched k c (ok out, w) = (ok out, (set_entry k out (now w.net) c, w))
  fetched k c (err e, w) = fall_back (lookup k c.entries) (err e) c w

  abbrev fetch : ListInput → Cache → World S → Listed
  fetch in' c w =
      fetched (cache_key in') c (
        do_request net cfg op get_method (municipalities_path in') none (into decode_list no_list)
          w)

  abbrev serve : ListInput → Cache → World S → Option Entry → Listed
  serve in' c w none = fetch in' c w
  serve in' c w (some e) =
      let again = fetch in' c w in
      if ltb (now w.net) e.expires_at then (ok e.stored, (c, w)) else again

  -- `ListMunicipalities`.
  unfoldable pub list_municipalities : ListInput → Cache → World S → Listed
  unfolding lookup set_entry
  list_municipalities in' c w =
      let in'' = normalize in' in serve in'' c w (lookup (cache_key in'') c.entries)
