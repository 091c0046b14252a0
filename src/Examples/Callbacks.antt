-- ===== src/Examples/Callbacks.antt =====
-- Callbacks on concrete data.
use integration_nfeio.Base.{
  ℕ, String, Bool, true, false, ◌||◌, Option, none, some, List, [], ◌∷◌, ◌≡◌, refl, ◌⊎◌, inl, inr,
  ◌↔◌, eq_str, eq_refl, replicate, arith,
}
use integration_nfeio.Json.{Bytes, obj, field, end, str}
use integration_nfeio.Webhook.Signature.{Digests, Headers, verify_signature}
use integration_nfeio.Webhook.Signature.Verified.{IsSigned, verify_signature_iff}
use integration_nfeio.Webhook.Server.{Lru, Env, Server, Callback, handle}
use integration_nfeio.Webhook.Server.Delivery.{IsDue, handle-published}
use integration_nfeio.Examples.{secret}

abbrev pub digests : Digests
digests = record { hmac_sha1 = λ _ _. replicate 20 1; sha256_hex = λ s. s }

abbrev pub headers : Headers
headers =
    ("Content-Type", "application/json" ∷ [])
    ∷ ("x-hub-signature", "sha1=0101010101010101010101010101010101010101" ∷ [])
    ∷ []

abbrev pub body : Bytes
body = record {
  text = "{\"id\":\"e1\",\"event\":\"nfse.issued\"}";
  doc = some (obj (field "id" (str "e1") (field "event" (str "nfse.issued") end)));
}

unfoldable pub member : String → List String → Bool
member k [] = false
member k (x ∷ xs) = eq_str x k || member k xs

-- A cache that never forgets.
abbrev pub unbounded : Lru (List String)
unbounded = record { get = λ k c. (member k c, c); add = λ k c. k ∷ c }

-- A publisher that always fails.
abbrev pub env : Env (List String) (Unit {0})
env = record { digests = digests; lru = unbounded; publish = λ _ _ s. (false, s) }

abbrev pub empty_server : Server (List String) (Unit {0})
empty_server = record { dedup = []; outside = tt; published = []; dedup_hits = 0; received = [] }

abbrev pub callback : Callback
callback = record { headers = headers; body = some body }

verify_signature_iff_example :
    (verify_signature digests headers body secret ≡ true) ↔ IsSigned digests headers body secret
verify_signature_iff_example = verify_signature_iff digests headers body secret

pub accepted : verify_signature digests headers body secret ≡ true
unfolding verify_signature integration_nfeio.Config.valid_runtime_webhook_secret
    integration_nfeio.Base.byte_len integration_nfeio.Base.trim_space
    integration_nfeio.Webhook.Signature.single_http_header integration_nfeio.Base.equal_fold
    integration_nfeio.Base.has_char integration_nfeio.Base.has_prefix
    integration_nfeio.Webhook.Signature.hex_decode integration_nfeio.Base.trim_prefix
    integration_nfeio.Webhook.Signature.equal_bytes
accepted = refl

handle-published_example :
    ((handle env secret callback empty_server).1.published ≡ [])
    ⊎ ((queue : String) × (b : Bytes) × IsDue env secret callback empty_server queue b
        × ((handle env secret callback empty_server).1.published ≡ (queue, b) ∷ []))
handle-published_example = handle-published env secret callback empty_server
