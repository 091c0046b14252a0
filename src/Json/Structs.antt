-- ===== src/Json/Structs.antt =====
-- What decoding into a struct keeps: a predicate that every field's setter keeps.
use integration_nfeio.Base.{String, Option, none, some, List}
use integration_nfeio.Json.{
  Json, null, bool, num, str, arr, obj, Fields, end, field, Read, unset, wrong, got, Decoded, store,
  keep, find_field, set_found, decode_field, decode_fields, decode_struct, unmarshal_doc,
}

module _ {ℓ κ} {A : Type ℓ} (P : A → Type κ) where
  pub store-keeps :
      {B : Type 0} (r : Read B) (put : B → A) (a : A)
      → P a
      → ((b : B) → P (put b))
      → P (store r put a).value
  store-keeps unset put a h k = h
  store-keeps wrong put a h k = h
  store-keeps (got b) put a h k = k b

  module _ (names : List String) (set : String → Json → A → Decoded A)
      (keeps : (n : String) (v : Json) (a : A) → P a → P (set n v a).value) where
    set_found-keeps :
        (v : Json) (d : Decoded A) (o : Option String)
        → P d.value
        → P (set_found names set v d o).value
    set_found-keeps v d none h = h
    set_found-keeps v d (some n) h = keeps n v d.value h

    decode_fields-keeps :
        (fs : Fields) (d : Decoded A) → P d.value → P (decode_fields names set fs d).value
    unfolding decode_fields
    decode_fields-keeps end d h = h
    decode_fields-keeps (field k v r) d h =
        decode_fields-keeps r (decode_field names set k v d)
          (set_found-keeps v d (find_field k names) h)

    decode_struct-keeps : (v : Json) (a : A) → P a → P (decode_struct names set v a).value
    unfolding decode_struct
    decode_struct-keeps null a h = h
    decode_struct-keeps (bool b) a h = h
    decode_struct-keeps (num s) a h = h
    decode_struct-keeps (str s) a h = h
    decode_struct-keeps (arr vs) a h = h
    decode_struct-keeps (obj fs) a h = decode_fields-keeps fs (keep a) h

    pub unmarshal_doc-keeps :
        (doc : Option Json) (a : A) → P a → P (unmarshal_doc (decode_struct names set) doc a).value
    unmarshal_doc-keeps none a h = h
    unmarshal_doc-keeps (some v) a h = decode_struct-keeps v a h
