-- ===== src/Webhook/Signature.antt =====
-- `verifyNFeIOSignature` and `singleHTTPHeader` of webhook_server.go.
pub mod Verified
pub mod Wire
pub mod Hex
use integration_nfeio.Base.{
  ℕ, ◌+◌, ◌-◌, ◌*◌, Char, code, String, Bool, true, false, ◌&&◌, ◌||◌, not, Option, none, some,
  List, [], ◌∷◌, ◌++◌, leb, ltb, ◌==◌, eq_str, equal_fold, trim_space, has_char, has_prefix,
  trim_prefix, length, if◌then◌else◌,
}
use integration_nfeio.Json.{Bytes}
use integration_nfeio.Config.{valid_runtime_webhook_secret}

-- `http.Header`.
abbrev pub Headers : Type 0
Headers = List (String × List String)

-- The digests of Go's `crypto` packages: HMAC-SHA1 as bytes, and SHA-256 in hexadecimal.
pub record Digests : Type 0 where
  pub hmac_sha1 : String → String → List ℕ
  pub sha256_hex : String → String

-- The loop of `singleHTTPHeader`: whether a key was found, and the values of all that match.
unfoldable pub header_values : String → Headers → Bool × List String
header_values name [] = (false, [])
header_values name ((key, candidates) ∷ headers) =
    let (found, values) = header_values name headers in
    if equal_fold key name then (true, candidates ++ values) else (found, values)

-- `some value` where the header is single; `present` as the source returns it.
pub record Single : Type 0 where
  pub value : String
  pub present : Bool

abbrev single_value : String → Single
single_value value =
    if eq_str value "" || has_char b',' value
    then record { value = ""; present = true }
    else record { value = value; present = true }

abbrev single_of : Bool × List String → Single
single_of (found, []) = record { value = ""; present = found }
single_of (found, v ∷ []) = single_value (trim_space v)
single_of (found, v ∷ w ∷ vs) = record { value = ""; present = found }

-- `singleHTTPHeader`.
unfoldable pub single_http_header : Headers → String → Single
unfolding header_values
single_http_header headers name = single_of (header_values name headers)

-- The value of a hexadecimal digit of either case.
unfoldable pub hex_value : ℕ → Option ℕ
hex_value c =
    if leb b'0' c && leb c b'9'
    then some (c - 48)
    else if leb b'a' c && leb c b'f'
    then some (c - 87)
    else if leb b'A' c && leb c b'F'
    then some (c - 55)
    else none

abbrev joined : Option ℕ → Option ℕ → Option (List ℕ) → Option (List ℕ)
joined (some a) (some b) (some bs) = some ((a * 16 + b) ∷ bs)
joined _ _ _ = none

-- `hex.DecodeString`.
unfoldable pub hex_decode : String → Option (List ℕ)
unfolding hex_value
hex_decode String.[] = some []
hex_decode (String.◌∷◌ a String.[]) = none
hex_decode (String.◌∷◌ a (String.◌∷◌ b s)) =
    joined (hex_value (code a)) (hex_value (code b)) (hex_decode s)

-- `hmac.Equal`.
unfoldable pub equal_bytes : List ℕ → List ℕ → Bool
equal_bytes [] [] = true
equal_bytes (a ∷ as') (b ∷ bs) = a == b && equal_bytes as' bs
equal_bytes _ _ = false

abbrev digest_matches : Option (List ℕ) → List ℕ → Bool
digest_matches none mac = false
digest_matches (some digest) mac = length digest == 20 && equal_bytes digest mac

-- `verifyNFeIOSignature`.
unfoldable pub verify_signature : Digests → Headers → Bytes → String → Bool
verify_signature d headers body secret =
    let signature = single_http_header headers "X-Hub-Signature" in
    let decoded = hex_decode (trim_prefix signature.value "sha1=") in
    if not (valid_runtime_webhook_secret secret)
    then false
    else if (single_http_header headers "X-Hub-Signature-256").present
    then false
    else if not signature.present || not (has_prefix signature.value "sha1=")
    then false
    else digest_matches decoded (d.hmac_sha1 secret body.text)
