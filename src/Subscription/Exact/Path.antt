-- ===== src/Subscription/Exact/Path.antt =====
-- `webhookExactPath` on the ids that `validWebhookID` accepts.
use integration_nfeio.Base.{AllChars, ℕ, code, String, ◌<>◌, true, ◌≡◌, ap, arith}
use integration_nfeio.Path.{is_plain}
use integration_nfeio.Path.Escape.{path_segment_plain}
use integration_nfeio.Subscription.{is_id_code, id_codes, valid_webhook_id, webhook_exact_path}

is_plain_of_is_id_code : (c : ℕ) → is_id_code c ≡ true → is_plain c ≡ true
unfolding is_plain
is_plain_of_is_id_code c h = ground arith

id_codes-AllChars : (s : String) → id_codes s ≡ true → AllChars (λ c. is_plain c ≡ true) s
unfolding id_codes
id_codes-AllChars String.[] h = tt
id_codes-AllChars (String.◌∷◌ c s) h =
    (is_plain_of_is_id_code (code c) (ground arith), id_codes-AllChars s (ground arith))

id_codes_of_valid : (id : String) → valid_webhook_id id ≡ true → id_codes id ≡ true
unfolding valid_webhook_id
id_codes_of_valid id h = ground arith

-- A valid id is written into the path as it stands.
webhook_exact_path_of_valid :
    (id : String) → valid_webhook_id id ≡ true → webhook_exact_path id ≡ "/v2/webhooks/" <> id
unfolding webhook_exact_path
webhook_exact_path_of_valid id h =
    ap (λ s. "/v2/webhooks/" <> s)
      (path_segment_plain id (id_codes-AllChars id (id_codes_of_valid id h)))
