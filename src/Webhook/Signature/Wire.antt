-- ===== src/Webhook/Signature/Wire.antt =====
-- The headers of a callback on the wire, described apart from the code that reads them.
use integration_nfeio.Base.{
  String, Bool, true, false, List, [], ◌∷◌, ◌++◌, ◌≡◌, refl, ap, ◌∙◌, ◌⊎◌, inl, inr, arith, All,
  Bool-cases, equal_fold, has_prefix, has_char, eq_str, ◌||◌, trim_space,
}
use integration_nfeio.Webhook.Signature.{Headers, single_of, header_values, single_http_header}

module _ (name : String) where
  -- No header has the name, in any case of its letters.
  abbrev pub IsMissing : Headers → Type 0
  IsMissing headers = All (λ (h : String × List String). equal_fold h.0 name ≡ false) headers

  -- The headers of the name hold no value.
  abbrev pub IsBlank : Headers → Type 0
  IsBlank headers =
      All (λ (h : String × List String). (equal_fold h.0 name ≡ false) ⊎ (h.1 ≡ [])) headers

  -- One header of the name holds one value, and the others of the name hold none.
  pub record IsOnly (value : String) (headers : Headers) : Type 0 where
    pub before : Headers
    pub key : String
    pub behind : Headers
    pub split : headers ≡ before ++ ((key, value ∷ []) ∷ behind)
    pub named : equal_fold key name ≡ true
    pub blank_before : IsBlank before
    pub blank_behind : IsBlank behind

  values-skip :
      (before rest : Headers)
      → IsBlank before
      → (header_values name (before ++ rest)).1 ≡ (header_values name rest).1
  unfolding header_values
  values-skip [] rest h = refl
  values-skip ((key, vs) ∷ before) rest (inl other, h) = rw other (values-skip before rest h)
  values-skip ((key, vs) ∷ before) rest (inr none_held, h) =
      elim (Bool-cases (equal_fold key name)) [
        | inl same ↦ rw (same, none_held) (values-skip before rest h)
        | inr other ↦ rw other (values-skip before rest h)
      ]

  values-blank : (headers : Headers) → IsBlank headers → (header_values name headers).1 ≡ []
  unfolding header_values
  values-blank [] h = refl
  values-blank ((key, vs) ∷ headers) (inl other, h) = rw other (values-blank headers h)
  values-blank ((key, vs) ∷ headers) (inr none_held, h) = elim (Bool-cases (equal_fold key name)) [
    | inl same ↦ rw (same, none_held) (values-blank headers h)
    | inr other ↦ rw other (values-blank headers h)
  ]

  values-only :
      (value : String) (headers : Headers)
      → IsOnly value headers
      → (header_values name headers).1 ≡ value ∷ []
  unfolding header_values
  values-only value headers o = rw o.split (
      values-skip o.before _ o.blank_before
      ∙ rw o.named (ap (◌∷◌ value) (values-blank o.behind o.blank_behind)))

  IsBlank-values : (headers : Headers) → (header_values name headers).1 ≡ [] → IsBlank headers
  unfolding header_values
  IsBlank-values [] e = tt
  IsBlank-values ((key, vs) ∷ headers) e = elim (Bool-cases (equal_fold key name)) [
    | inl same ↦
        let (none_held, rest) = append_empty vs ((header_values name headers).1) (rw same at e) in
        (inr none_held, IsBlank-values headers rest)
    | inr other ↦ (inl other, IsBlank-values headers (rw other at e))
  ]
    where
      append_empty : (xs ys : List String) → xs ++ ys ≡ [] → (xs ≡ []) × (ys ≡ [])
      append_empty [] ys e = (refl, e)
      append_empty (x ∷ xs) ys e = cc

  -- A header before the only one.
  IsOnly-behind :
      (value key : String) (vs : List String) (headers : Headers)
      → (equal_fold key name ≡ false) ⊎ (vs ≡ [])
      → IsOnly value headers
      → IsOnly value ((key, vs) ∷ headers)
  IsOnly-behind value key vs headers blank o = record {
    before = (key, vs) ∷ o.before;
    key = o.key;
    behind = o.behind;
    split = ap (◌∷◌ (key, vs)) o.split;
    named = o.named;
    blank_before = (blank, o.blank_before);
    blank_behind = o.blank_behind;
  }

  -- A header of the name, before headers that hold what is left of the only value.
  IsOnly-here :
      (value key : String) (vs : List String) (headers : Headers)
      → equal_fold key name ≡ true
      → vs ++ (header_values name headers).1 ≡ value ∷ []
      → ((header_values name headers).1 ≡ value ∷ [] → IsOnly value headers)
      → IsOnly value ((key, vs) ∷ headers)
  IsOnly-here value key [] headers same e behind =
      IsOnly-behind value key [] headers (inr refl) (behind e)
  IsOnly-here value key (v ∷ []) headers same e behind =
      let first : v ≡ value = ground arith in
      let rest : (header_values name headers).1 ≡ [] = ground arith in
      record {
        before = [];
        key = key;
        behind = headers;
        split = ap (λ (x : String). (key, x ∷ []) ∷ headers) first;
        named = same;
        blank_before = tt;
        blank_behind = IsBlank-values headers rest;
      }
  IsOnly-here value key (v ∷ w ∷ vs) headers same e behind = absurd (ground arith)

  IsOnly-values :
      (value : String) (headers : Headers)
      → (header_values name headers).1 ≡ value ∷ []
      → IsOnly value headers
  unfolding header_values
  IsOnly-values value [] e = absurd (cc)
  IsOnly-values value ((key, vs) ∷ headers) e = elim (Bool-cases (equal_fold key name)) [
    | inl same ↦ IsOnly-here value key vs headers same (rw same at e) (IsOnly-values value headers)
    | inr other ↦
        IsOnly-behind value key vs headers (inl other) (IsOnly-values value headers (rw other at e))
  ]

  -- A header is not present exactly where it is missing.
  found-IsMissing :
      (headers : Headers)
      → (header_values name headers).0 ≡ false
      → IsMissing headers × ((header_values name headers).1 ≡ [])
  unfolding header_values
  found-IsMissing [] e = (tt, refl)
  found-IsMissing ((key, vs) ∷ headers) e = elim (Bool-cases (equal_fold key name)) [
    | inl same ↦ let contra : true ≡ false = rw same at e in absurd (cc)
    | inr other ↦
        let (missing, none_held) = found-IsMissing headers (rw other at e) in
        ((other, missing), rw other none_held)
  ]

  missing-found : (headers : Headers) → IsMissing headers → header_values name headers ≡ (false, [])
  unfolding header_values
  missing-found [] h = refl
  missing-found ((key, vs) ∷ headers) (other, h) = rw (other, missing-found headers h) refl

  single_of_absent : (p : Bool × List String) → (single_of p).present ≡ false → p.0 ≡ false
  single_of_absent (found, []) e = e
  single_of_absent (found, v ∷ []) e = ground arith
  single_of_absent (found, v ∷ w ∷ vs) e = e

  pub absent-IsMissing :
      (headers : Headers) → (single_http_header headers name).present ≡ false → IsMissing headers
  unfolding single_http_header
  absent-IsMissing headers e = (found-IsMissing headers (single_of_absent _ e)).0

  pub IsMissing-absent :
      (headers : Headers) → IsMissing headers → (single_http_header headers name).present ≡ false
  unfolding single_http_header
  IsMissing-absent headers h = rw (missing-found headers h) refl

-- A value that has the tag is the only one.
single_of-tagged :
    (p : Bool × List String)
    → has_prefix (single_of p).value "sha1=" ≡ true
    → (raw : String) × (p.1 ≡ raw ∷ []) × ((single_of p).value ≡ trim_space raw)
unfolding has_prefix
single_of-tagged (found, []) e = absurd (cc)
single_of-tagged (found, v ∷ []) e =
    elim (Bool-cases (eq_str (trim_space v) "" || has_char b',' (trim_space v))) [
      | inl bad ↦ let contra : has_prefix "" "sha1=" ≡ true = rw bad at e in absurd (cc)
      | inr fine ↦ (v, refl, rw fine refl)
    ]
single_of-tagged (found, v ∷ w ∷ vs) e = absurd (cc)

pub tagged-IsOnly :
    (name : String) (headers : Headers)
    → has_prefix (single_http_header headers name).value "sha1=" ≡ true
    → (raw : String) × IsOnly name raw headers
      × ((single_http_header headers name).value ≡ trim_space raw)
unfolding single_http_header
tagged-IsOnly name headers e =
    let (raw, only, value) = single_of-tagged (header_values name headers) e in
    (raw, IsOnly-values name raw headers only, value)

pub IsOnly-single :
    (name raw : String) (headers : Headers)
    → IsOnly name raw headers
    → eq_str (trim_space raw) "" ≡ false
    → has_char b',' (trim_space raw) ≡ false
    → single_http_header headers name ≡ record { value = trim_space raw; present = true }
unfolding single_http_header
IsOnly-single name raw headers only full plain =
    ap (λ (vs : List String). single_of ((header_values name headers).0, vs))
      (values-only name raw headers only)
    ∙ rw (full, plain) refl
