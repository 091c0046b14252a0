-- ===== src/Municipalities/Keyed.antt =====
-- The keys of the municipalities cache: a key tells the query that it was made for.
use text.Mathlib.TextLemmas.{
  nil-append, cons-append, append_assoc, nil≢cons, head-eq_of_cons-eq, tail-eq_of_cons-eq,
}
use integration_nfeio.Base.{
  IsInt64, atoi-show_int, show_int-AllChars, AllChars, Char, code, String, ◌<>◌, some, ℤ, show_int,
  atoi, ◌≡◌, ◌≢◌, refl, ap, ap₂, sym, ◌∙◌, arith,
}
use integration_nfeio.Municipalities.{ListInput, cache_key}

abbrev HasNoBar : String → Type 0
HasNoBar s = AllChars (λ c. c ≢ b'|') s

-- A bar between two texts.
abbrev barred : String → String → String
barred s t = s <> String.◌∷◌ "|" t

no_bar_barred : (s t u : String) → HasNoBar u → u ≢ barred s t
no_bar_barred String.[] t String.[] h e = nil≢cons (e ∙ nil-append _)
no_bar_barred String.[] t (String.◌∷◌ c u) h e =
    h.0 (ap code (head-eq_of_cons-eq (e ∙ nil-append _)))
no_bar_barred (String.◌∷◌ d s) t String.[] h e = nil≢cons (e ∙ cons-append d s _)
no_bar_barred (String.◌∷◌ d s) t (String.◌∷◌ c u) h e =
    no_bar_barred s t u h.1 (tail-eq_of_cons-eq (e ∙ cons-append d s _))

-- The last bar parts a text in one way.
barred_injective :
    (s s' t t' : String)
    → HasNoBar t
    → HasNoBar t'
    → barred s t ≡ barred s' t'
    → (s ≡ s') × (t ≡ t')
barred_injective String.[] String.[] t t' h h' e =
    (refl, tail-eq_of_cons-eq (sym (nil-append _) ∙ (e ∙ nil-append _)))
barred_injective String.[] (String.◌∷◌ d s') t t' h h' e =
    absurd
      (no_bar_barred s' t' t h (tail-eq_of_cons-eq (sym (nil-append _) ∙ (e ∙ cons-append d s' _))))
barred_injective (String.◌∷◌ c s) String.[] t t' h h' e = absurd (
    no_bar_barred s t t' h' (tail-eq_of_cons-eq (sym (nil-append _) ∙ (sym e ∙ cons-append c s _))))
barred_injective (String.◌∷◌ c s) (String.◌∷◌ d s') t t' h h' e =
    let whole : String.◌∷◌ c (barred s t) ≡ String.◌∷◌ d (barred s' t') =
      sym (cons-append c s _) ∙ (e ∙ cons-append d s' _) in
    let (front, back) = barred_injective s s' t t' h h' (tail-eq_of_cons-eq whole) in
    (ap₂ (λ (x : Char) (y : String). String.◌∷◌ x y) (head-eq_of_cons-eq whole) front, back)

show_int-HasNoBar : (z : ℤ) → HasNoBar (show_int z)
show_int-HasNoBar z = show_int-AllChars (λ c. c ≢ b'|') (λ d less. ground arith) (ground arith) z

prefixed-HasNoBar : (c : Char) (z : ℤ) → code c ≢ b'|' → HasNoBar (String.◌∷◌ c (show_int z))
prefixed-HasNoBar c z h = (h, show_int-HasNoBar z)

literal_page : (x : String) → "|p" <> x ≡ String.◌∷◌ "|" (String.◌∷◌ "p" x)
literal_page x = rw (cons-append "|" "p" x, cons-append "p" "" x, nil-append) refl

literal_size : (x : String) → "|s" <> x ≡ String.◌∷◌ "|" (String.◌∷◌ "s" x)
literal_size x = rw (cons-append "|" "s" x, cons-append "s" "" x, nil-append) refl

key_parts :
    (in' : ListInput)
    → cache_key in'
      ≡ barred
          (barred in'.state_code (String.◌∷◌ "p" (show_int in'.page)))
          (String.◌∷◌ "s" (show_int in'.page_size))
unfolding cache_key
key_parts in' =
    let page = String.◌∷◌ "p" (show_int in'.page) in
    let size = String.◌∷◌ "s" (show_int in'.page_size) in
    rw
      (
        literal_size (show_int in'.page_size),
        literal_page (show_int in'.page <> String.◌∷◌ "|" size),
        append_assoc in'.state_code (String.◌∷◌ "|" page) (String.◌∷◌ "|" size),
        cons-append "|" page (String.◌∷◌ "|" size),
        cons-append "p" (show_int in'.page) (String.◌∷◌ "|" size),
      )
      refl

show_int_injective : (y z : ℤ) → IsInt64 y → IsInt64 z → show_int y ≡ show_int z → y ≡ z
show_int_injective y z hy hz e =
    let same : some y ≡ some z = sym (atoi-show_int y hy) ∙ (ap atoi e ∙ atoi-show_int z hz) in cc

-- A query whose numbers are 64-bit integers.
abbrev pub IsQuery : ListInput → Type 0
IsQuery in' = IsInt64 in'.page × IsInt64 in'.page_size

-- Two queries with one key are one query, whatever their state codes hold.
pub cache_key_injective :
    (in' in'' : ListInput)
    → IsQuery in'
    → IsQuery in''
    → cache_key in' ≡ cache_key in''
    → in' ≡ in''
cache_key_injective in' in'' (page, size) (page', size') e =
    let sized : (code "s") ≢ b'|' = ground arith in
    let paged : (code "p") ≢ b'|' = ground arith in
    let (front, back) =
      barred_injective _ _ _ _ (prefixed-HasNoBar "s" in'.page_size sized)
        (prefixed-HasNoBar "s" in''.page_size sized) (sym (key_parts in') ∙ (e ∙ key_parts in'')) in
    let (state, middle) =
      barred_injective _ _ _ _ (prefixed-HasNoBar "p" in'.page paged)
        (prefixed-HasNoBar "p" in''.page paged) front in
    let same_page = show_int_injective in'.page in''.page page page' (tail-eq_of_cons-eq middle) in
    let same_size =
      show_int_injective in'.page_size in''.page_size size size' (tail-eq_of_cons-eq back) in
    λ i. record { state_code = state i; page = same_page i; page_size = same_size i }
