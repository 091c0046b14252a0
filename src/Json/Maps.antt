-- ===== src/Json/Maps.antt =====
-- Laws of Go maps: reading after writing, and what decoding an object keeps.
use integration_nfeio.Base.{
  String, ◌≡◌, refl, ◌∙◌, some, arith, eq_iff, eq_refl, eq_str, if◌then◌else◌, ◌≢◌, eq-false_of_ne,
}
use integration_nfeio.Json.{Json, Fields, end, field, get, insert}

pub get-insert :
    (k j : String) (v : Json) (m : Fields)
    → get j (insert k v m) ≡ (if eq_str k j then some v else get j m)
unfolding get insert
get-insert k j v end = refl
get-insert k j v (field i w m) =
    ground (arith, eq_iff k j, eq_iff i k, eq_iff i j, get-insert k j v m)

pub get-insert_self : (k : String) (v : Json) (m : Fields) → get k (insert k v m) ≡ some v
get-insert_self k v m = simp (get-insert, eq_refl)

pub get-insert_ne : (k j : String) (v : Json) (m : Fields) → k ≢ j → get j (insert k v m) ≡ get j m
get-insert_ne k j v m h = get-insert k j v m ∙ rw (eq-false_of_ne k j h)
