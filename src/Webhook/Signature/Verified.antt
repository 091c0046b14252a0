-- ===== src/Webhook/Signature/Verified.antt =====
-- What a verified signature means.
use text.Mathlib.TextEquality.{Char-path}
use text.Mathlib.TextLemmas.{nil-append, cons-append}
use integration_nfeio.Base.{
  ℕ, String, ◌<>◌, ◌||◌, true, false, Option, none, some, List, [], ◌∷◌, ◌≡◌, refl, sym, ap, ◌↔◌,
  ◌∙◌, arith, length, has_prefix, trim_prefix, drop_chars, trim_space, has_char, eq_str,
  eq-false_of_ne,
}
use integration_nfeio.Json.{Bytes}
use integration_nfeio.Config.{valid_runtime_webhook_secret}
use integration_nfeio.Webhook.Signature.{
  Digests, Headers, single_http_header, hex_decode, equal_bytes, digest_matches, verify_signature,
}
use integration_nfeio.Webhook.Signature.Wire.{
  IsMissing, IsOnly, absent-IsMissing, IsMissing-absent, tagged-IsOnly, IsOnly-single,
}
use integration_nfeio.Webhook.Signature.Hex.{IsHex, hex_decode-IsHex, IsHex-hex_decode, IsHex-plain}

equal_bytes_sound : (xs ys : List ℕ) → equal_bytes xs ys ≡ true → xs ≡ ys
unfolding equal_bytes
equal_bytes_sound [] [] h = refl
equal_bytes_sound (x ∷ xs) (y ∷ ys) h = ground (arith, equal_bytes_sound xs ys)
equal_bytes_sound [] (y ∷ ys) h = cc
equal_bytes_sound (x ∷ xs) [] h = cc

equal_bytes_refl : (xs : List ℕ) → equal_bytes xs xs ≡ true
unfolding equal_bytes
equal_bytes_refl [] = refl
equal_bytes_refl (x ∷ xs) = ground (arith, equal_bytes_refl xs)

-- The provider's wire contract. Under a usable secret, no header is named `X-Hub-Signature-256`, and
-- the headers named `X-Hub-Signature` hold one value in all: with the space around it left out, it is
-- `sha1=` and the hexadecimal form of the HMAC-SHA1 of the body, which has 20 bytes.
pub record IsSigned (d : Digests) (headers : Headers) (body : Bytes) (secret : String)
    : Type 0 where
  pub usable : valid_runtime_webhook_secret secret ≡ true
  pub no_sha256 : IsMissing "X-Hub-Signature-256" headers
  pub value : String
  pub only : IsOnly "X-Hub-Signature" value headers
  pub hex : String
  pub tagged : trim_space value ≡ "sha1=" <> hex
  pub digest : IsHex hex (d.hmac_sha1 secret body.text)
  pub size : length (d.hmac_sha1 secret body.text) ≡ 20

digest_matches_sound :
    (o : Option (List ℕ)) (mac : List ℕ)
    → digest_matches o mac ≡ true
    → (o ≡ some mac) × (length mac ≡ 20)
digest_matches_sound none mac h = cc
digest_matches_sound (some xs) mac h =
    let same : xs ≡ mac = equal_bytes_sound xs mac (ground arith) in
    (ap some same, rw (← same) (ground arith))

-- A text with a prefix is that prefix and the rest.
prefix_split : (s t : String) → has_prefix s t ≡ true → s ≡ t <> drop_chars s t
unfolding has_prefix drop_chars
prefix_split String.[] String.[] h = rw nil-append refl
prefix_split (String.◌∷◌ c s) String.[] h = rw nil-append refl
prefix_split String.[] (String.◌∷◌ d t) h = absurd (cc)
prefix_split (String.◌∷◌ c s) (String.◌∷◌ d t) h =
    let same : c ≡ d = Char-path c d (ground arith) in
    rw (cons-append, ← same) (ap (String.◌∷◌ c) (prefix_split s t (ground arith)))

trim_prefix_split : (s t : String) → has_prefix s t ≡ true → s ≡ t <> trim_prefix s t
unfolding trim_prefix
trim_prefix_split s t h = rw h (prefix_split s t h)

has_prefix-append : (t s : String) → has_prefix (t <> s) t ≡ true
unfolding has_prefix
has_prefix-append String.[] s = refl
has_prefix-append (String.◌∷◌ c t) s = rw cons-append (ground (arith, has_prefix-append t s))

drop_chars-append : (t s : String) → drop_chars (t <> s) t ≡ s
unfolding drop_chars
drop_chars-append String.[] s = nil-append s
drop_chars-append (String.◌∷◌ c t) s = rw cons-append (drop_chars-append t s)

trim_prefix-append : (t s : String) → trim_prefix (t <> s) t ≡ s
unfolding trim_prefix
trim_prefix-append t s = rw (has_prefix-append t s) (drop_chars-append t s)

tag-full : (hex : String) → eq_str ("sha1=" <> hex) "" ≡ false
unfolding has_prefix
tag-full hex =
    eq-false_of_ne ("sha1=" <> hex) "" (λ e.
      let contra : has_prefix "" "sha1=" ≡ true = rw e at (has_prefix-append "sha1=" hex) in cc)

verify_signature_sound :
    (d : Digests) (headers : Headers) (body : Bytes) (secret : String)
    → verify_signature d headers body secret ≡ true
    → IsSigned d headers body secret
unfolding verify_signature
verify_signature_sound d headers body secret h =
    let signature = (single_http_header headers "X-Hub-Signature").value in
    let hex = trim_prefix signature "sha1=" in
    let m : digest_matches (hex_decode hex) (d.hmac_sha1 secret body.text) ≡ true = ground arith in
    let (digest, size) = digest_matches_sound (hex_decode hex) (d.hmac_sha1 secret body.text) m in
    let tagged : has_prefix signature "sha1=" ≡ true = ground arith in
    let (value, only, trimmed) = tagged-IsOnly "X-Hub-Signature" headers tagged in
    record {
      usable = ground arith;
      no_sha256 = absent-IsMissing "X-Hub-Signature-256" headers (ground arith);
      value = value;
      only = only;
      hex = hex;
      tagged = sym trimmed ∙ trim_prefix_split signature "sha1=" tagged;
      digest = hex_decode-IsHex hex digest;
      size = size;
    }

has_char-append : (n : ℕ) (t s : String) → has_char n (t <> s) ≡ has_char n t || has_char n s
unfolding has_char
has_char-append n String.[] s = rw nil-append refl
has_char-append n (String.◌∷◌ c t) s = rw cons-append (ground (arith, has_char-append n t s))

-- The header of a signed callback, as the code reads it.
tagged_single :
    (value hex : String) (bs : List ℕ) (headers : Headers)
    → IsOnly "X-Hub-Signature" value headers
    → trim_space value ≡ "sha1=" <> hex
    → IsHex hex bs
    → single_http_header headers "X-Hub-Signature"
      ≡ record { value = "sha1=" <> hex; present = true }
unfolding has_char
tagged_single value hex bs headers only tagged digest = rw tagged at (
    IsOnly-single "X-Hub-Signature" value headers only (rw tagged (tag-full hex))
      (rw (tagged, has_char-append b',' "sha1=" hex) (IsHex-plain hex bs digest)))

verify_signature_complete :
    (d : Digests) (headers : Headers) (body : Bytes) (secret : String)
    → IsSigned d headers body secret
    → verify_signature d headers body secret ≡ true
unfolding verify_signature
verify_signature_complete d headers body secret s =
    rw
      (
        s.usable,
        IsMissing-absent "X-Hub-Signature-256" headers s.no_sha256,
        tagged_single s.value s.hex (d.hmac_sha1 secret body.text) headers s.only s.tagged s.digest,
        has_prefix-append "sha1=" s.hex,
        trim_prefix-append "sha1=" s.hex,
        IsHex-hex_decode s.hex (d.hmac_sha1 secret body.text) s.digest,
      )
      (ground (arith, equal_bytes_refl (d.hmac_sha1 secret body.text), s.size))

-- The check accepts exactly the callbacks that the provider signs: under a usable secret, none of the
-- headers is named X-Hub-Signature-256, and those named X-Hub-Signature hold one value in all, which
-- is, apart from the space around it, sha1= and the hexadecimal form of the HMAC-SHA1 of the body, of
-- 20 bytes.
pub verify_signature_iff :
    (d : Digests) (headers : Headers) (body : Bytes) (secret : String)
    → (verify_signature d headers body secret ≡ true) ↔ IsSigned d headers body secret
verify_signature_iff d headers body secret =
    (verify_signature_sound d headers body secret, verify_signature_complete d headers body secret)
