-- ===== src/Json.antt =====
-- `encoding/json` as the sources use it: documents, objects decoded into Go maps and into structs.
pub mod Maps
pub mod Reparsed
pub mod Structs
use integration_nfeio.Base.{
  ℕ, String, Bool, true, false, ◌||◌, Option, none, some, List, [], ◌∷◌, ℤ, atoi, eq_str,
  equal_fold, if◌then◌else◌,
}

-- A number is its literal. The fields of an object stand in the order of the text.
mutual
  pub data Json : Type 0 where
    null : Json
    bool : Bool → Json
    num : String → Json
    str : String → Json
    arr : Items → Json
    obj : Fields → Json

  pub data Items : Type 0 where
    nil : Items
    item : Json → Items → Items

  pub data Fields : Type 0 where
    end : Fields
    field : String → Json → Fields → Fields

-- The bytes of a body with the document that they spell, `none` where they are not JSON.
pub record Bytes : Type 0 where
  pub text : String
  pub doc : Option Json

-- A Go map is a `Fields` with each key once.
unfoldable pub get : String → Fields → Option Json
get k end = none
get k (field j v m) = if eq_str j k then some v else get k m

unfoldable pub insert : String → Json → Fields → Fields
insert k v end = field k v end
insert k v (field j w m) = if eq_str j k then field k v m else field j w (insert k v m)

-- Decoding an object into a map: a later duplicate replaces the value of an earlier one.
unfoldable pub insert_all : Fields → Fields → Fields
unfolding insert
insert_all acc end = acc
insert_all acc (field k v r) = insert_all (insert k v acc) r

-- `json.Unmarshal` into a nil map with the test `err != nil || m == nil`.
unfoldable pub as_map : Json → Option Fields
unfolding insert_all
as_map (obj fs) = some (insert_all end fs)
as_map _ = none

-- The same of a raw message that may be missing.
abbrev pub raw_map : Option Json → Option Fields
raw_map none = none
raw_map (some v) = as_map v

-- What decoding one value does to its target: `null` leaves it, a value of another kind is an error.
pub data Read {ℓ} (A : Type ℓ) : Type ℓ where
  unset wrong : Read A
  got : A → Read A

abbrev pub read_string : Json → Read String
read_string null = unset
read_string (str s) = got s
read_string _ = wrong

abbrev pub read_bool : Json → Read Bool
read_bool null = unset
read_bool (bool b) = got b
read_bool _ = wrong

abbrev read_literal : Option ℤ → Read ℤ
read_literal none = wrong
read_literal (some n) = got n

abbrev pub read_int : Json → Read ℤ
read_int null = unset
read_int (num s) = read_literal (atoi s)
read_int _ = wrong

-- `json.Unmarshal(raw, &s)` with `s` empty before: `none` is an error.
abbrev pub string_of : Option Json → Option String
string_of none = none
string_of (some null) = some ""
string_of (some (str s)) = some s
string_of (some _) = none

-- The same for a `bool` that is false before.
abbrev pub bool_of : Option Json → Option Bool
bool_of none = none
bool_of (some null) = some false
bool_of (some (bool b)) = some b
bool_of (some _) = none

-- A struct after decoding, with the error that `json.Unmarshal` returns at its end.
pub record Decoded {ℓ} (A : Type ℓ) : Type ℓ where
  pub value : A
  pub failed : Bool

abbrev pub Decoder {ℓ} : Type ℓ → Type ℓ
Decoder A = Json → A → Decoded A

-- One field of the struct set from what was read.
abbrev pub store {ℓ κ} : {A : Type ℓ} {B : Type κ} → Read B → (B → A) → A → Decoded A
store unset put a = record { value = a; failed = false }
store wrong put a = record { value = a; failed = true }
store (got b) put a = record { value = put b; failed = false }

abbrev pub keep {ℓ} : {A : Type ℓ} → A → Decoded A
keep a = record { value = a; failed = false }

unfoldable pub find_exact : String → List String → Option String
find_exact k [] = none
find_exact k (n ∷ ns) = if eq_str n k then some n else find_exact k ns

unfoldable pub find_folded : String → List String → Option String
unfolding equal_fold
find_folded k [] = none
find_folded k (n ∷ ns) = if equal_fold n k then some n else find_folded k ns

-- The struct field that a key names: an exact match first, then one up to case.
unfoldable pub find_field : String → List String → Option String
unfolding find_exact find_folded
find_field k names = elim (find_exact k names) [ some n ↦ some n | none ↦ find_folded k names ]

module _ {ℓ} {A : Type ℓ} (names : List String) (set : String → Json → A → Decoded A) where
  abbrev set_found : Json → Decoded A → Option String → Decoded A
  set_found v d none = d
  set_found v d (some n) = record {
    value = (set n v d.value).value;
    failed = d.failed || (set n v d.value).failed;
  }

  abbrev pub decode_field : String → Json → Decoded A → Decoded A
  decode_field k v d = set_found v d (find_field k names)

  unfoldable pub decode_fields : Fields → Decoded A → Decoded A
  unfolding find_field
  decode_fields end d = d
  decode_fields (field k v r) d = decode_fields r (decode_field k v d)

  -- `json.Unmarshal` into a struct.
  unfoldable pub decode_struct : Json → A → Decoded A
  unfolding decode_fields
  decode_struct (obj fs) a = decode_fields fs (keep a)
  decode_struct null a = keep a
  decode_struct _ a = record { value = a; failed = true }

-- `json.Unmarshal` of bytes: nothing is decoded where they are not JSON.
abbrev pub unmarshal_doc {ℓ} : {A : Type ℓ} → Decoder A → Option Json → A → Decoded A
unmarshal_doc dec none a = record { value = a; failed = true }
unmarshal_doc dec (some v) a = dec v a
