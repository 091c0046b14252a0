-- ===== src/Json/Reparsed.antt =====
-- A Go map printed as an object and decoded again.
use integration_nfeio.Base.{
  String, Option, none, some, eq_str, ◌≡◌, refl, ◌∙◌, sym, inl, inr, Bool-cases, eq_iff,
  ne_of_eq-false,
}
use integration_nfeio.Json.{Json, obj, Fields, end, field, get, insert, insert_all, as_map}
use integration_nfeio.Json.Maps.{get-insert_self, get-insert_ne}

-- Each key stands once.
abbrev pub IsMap : Fields → Type 0
IsMap end = Unit
IsMap (field k v m) = (get k m ≡ none) × IsMap m

pub insert-IsMap : (k : String) (v : Json) (m : Fields) → IsMap m → IsMap (insert k v m)
unfolding insert get
insert-IsMap k v end h = (refl, tt)
insert-IsMap k v (field j x m) (fresh, h) = elim (Bool-cases (eq_str j k)) [
  | inl same ↦ let e : j ≡ k = (eq_iff j k).0 same in rw same (rw e at fresh, h)
  | inr other ↦
      rw other (
        get-insert_ne k j v m (λ e. ne_of_eq-false j k other (sym e)) ∙ fresh,
        insert-IsMap k v m h,
      )
]

insert_all-IsMap : (acc m : Fields) → IsMap acc → IsMap (insert_all acc m)
unfolding insert_all
insert_all-IsMap acc end h = h
insert_all-IsMap acc (field k v m) h = insert_all-IsMap (insert k v acc) m (insert-IsMap k v acc h)

pub as_map-IsMap : (v : Json) {m : Fields} → as_map v ≡ some m → IsMap m
unfolding as_map
as_map-IsMap (obj fs) {m} e =
    let same : insert_all end fs ≡ m = cc in rw same at (insert_all-IsMap end fs tt)
as_map-IsMap Json.null e = absurd (cc)
as_map-IsMap (Json.bool b) e = absurd (cc)
as_map-IsMap (Json.num s) e = absurd (cc)
as_map-IsMap (Json.str s) e = absurd (cc)
as_map-IsMap (Json.arr vs) e = absurd (cc)

abbrev pub or_else : Option Json → Option Json → Option Json
or_else (some v) o = some v
or_else none o = o

get-insert_all :
    (k : String) (acc m : Fields)
    → IsMap m
    → get k (insert_all acc m) ≡ or_else (get k m) (get k acc)
unfolding insert_all get
get-insert_all k acc end h = refl
get-insert_all k acc (field j v m) (fresh, h) = elim (Bool-cases (eq_str j k)) [
  | inl same ↦
      let e : j ≡ k = (eq_iff j k).0 same in
      let gone : get k m ≡ none = rw e at fresh in
      rw (same, get-insert_all k (insert j v acc) m h, gone, e) (get-insert_self k v acc)
  | inr other ↦
      rw
        (
          other,
          get-insert_all k (insert j v acc) m h,
          get-insert_ne j k v acc (ne_of_eq-false j k other),
        )
        refl
]

-- The map decoded again has the same value under each key.
pub get-insert_all_end : (k : String) (m : Fields) → IsMap m → get k (insert_all end m) ≡ get k m
unfolding get
get-insert_all_end k m h = get-insert_all k end m h ∙ last (get k m)
  where
    last : (o : Option Json) → or_else o none ≡ o
    last none = refl
    last (some v) = refl
