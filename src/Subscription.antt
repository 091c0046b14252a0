-- ===== src/Subscription.antt =====
-- providers/nfeio/adapter/webhook_subscription.go: the records and checks that its operations share.
pub mod Input
pub mod Document
pub mod Exact
pub mod Ensure
pub mod Remove
use integration_nfeio.Base.{
  ℕ, String, ◌<>◌, Bool, true, false, ◌&&◌, ◌||◌, not, Option, none, some, byte_len, leb, ltb, ◌==◌,
  Char, code, eq_str, trim_space, if◌then◌else◌,
}
use integration_nfeio.Config.{valid_runtime_webhook_secret}
use integration_nfeio.Http.{
  NetError, canceled, deadline_exceeded, broken, Error, api, http_do, ctx_done, message,
  provider_status, Result, ok, err, M,
}
use integration_nfeio.Path.{path_segment}

-- `EnsureWebhookSubscriptionInput`.
pub record EnsureInput : Type 0 where
  pub id : String
  pub insecure_ssl : Option Bool
  pub set_hmac_from_runtime : Bool
  pub remove_legacy_authorization : Bool
  pub confirm_security_migration_id : String
  pub ref : String
  pub confirm_id : String

-- `EnsureWebhookSubscriptionOutput`.
pub record EnsureOutput : Type 0 where
  pub id : String
  pub insecure_ssl : Bool
  pub adopted : Bool
  pub updated : Bool

pub record DestroyInput : Type 0 where
  pub id : String
  pub confirm_id : String

pub record DestroyOutput : Type 0 where
  pub deleted : Bool
  pub already_absent : Bool

abbrev pub is_id_code : ℕ → Bool
is_id_code c =
    (leb b'a' c && leb c b'z')
    || (leb b'A' c && leb c b'Z')
    || (leb b'0' c && leb c b'9')
    || c == b'-'
    || c == b'_'
    || c == b'.'

-- The loop of `validWebhookID`.
unfoldable pub id_codes : String → Bool
id_codes String.[] = true
id_codes (String.◌∷◌ c s) = is_id_code (code c) && id_codes s

-- `validWebhookID`.
unfoldable pub valid_webhook_id : String → Bool
unfolding id_codes
valid_webhook_id id =
    if eq_str id ""
      || eq_str id "."
      || eq_str id ".."
      || ltb 128 (byte_len id)
      || not (eq_str (trim_space id) id)
    then false
    else id_codes id

-- `webhookExactPath`.
unfoldable pub webhook_exact_path : String → String
unfolding path_segment
webhook_exact_path id = "/v2/webhooks/" <> path_segment id

-- `safeWebhookOutput`.
abbrev pub safe_webhook_output : String → Bool → Bool → EnsureOutput
safe_webhook_output id insecure_ssl updated = record {
  id = id;
  insecure_ssl = insecure_ssl;
  adopted = true;
  updated = updated;
}

abbrev of_net_error : String → NetError → Error
of_net_error operation canceled = message (operation <> ": provider request canceled")
of_net_error operation deadline_exceeded = message (operation <> ": provider request timed out")
of_net_error operation (broken text) = message (operation <> ": provider request failed")

-- `sanitizeWebhookProviderError`.
unfoldable pub sanitize : String → Error → Error
sanitize operation (api e) = provider_status operation e.status
sanitize operation (http_do e) = of_net_error operation e
sanitize operation (ctx_done e) = of_net_error operation e
sanitize operation _ = message (operation <> ": provider request failed")

abbrev pub unless : Bool → Error → Result (Unit {0})
unless true e = ok tt
unless false e = err e

abbrev invalid : String → Result (Unit {0})
invalid text = err (message text)

-- The migration part of `validateWebhookEnsureInput`.
abbrev validate_migration : EnsureInput → String → Result (Unit {0})
validate_migration in' runtime_hmac =
    if not in'.set_hmac_from_runtime
      || not in'.remove_legacy_authorization
      || not (eq_str in'.confirm_security_migration_id in'.id)
    then invalid
        "ensure_webhook_subscription: complete exact-ID security migration confirmation is required"
    else if not (valid_runtime_webhook_secret runtime_hmac)
    then invalid "ensure_webhook_subscription: runtime security credential is invalid"
    else ok tt

abbrev pub migration_requested : EnsureInput → Bool
migration_requested in' =
    in'.set_hmac_from_runtime
    || in'.remove_legacy_authorization
    || not (eq_str in'.confirm_security_migration_id "")

abbrev validate_flag : EnsureInput → String → Option Bool → Result (Unit {0})
validate_flag in' runtime_hmac none =
    invalid "ensure_webhook_subscription: insecure_ssl=false is required"
validate_flag in' runtime_hmac (some true) =
    invalid "ensure_webhook_subscription: insecure_ssl=true is forbidden"
validate_flag in' runtime_hmac (some false) =
    if migration_requested in' then validate_migration in' runtime_hmac else ok tt

-- `validateWebhookEnsureInput`.
unfoldable pub validate_ensure_input : EnsureInput → String → Result (Unit {0})
unfolding valid_webhook_id
validate_ensure_input in' runtime_hmac =
    if not (valid_webhook_id in'.id)
    then invalid "ensure_webhook_subscription: valid exact id required"
    else if not (eq_str in'.ref "") || not (eq_str in'.confirm_id "")
    then invalid "ensure_webhook_subscription: destroy-only fields are not allowed"
    else validate_flag in' runtime_hmac in'.insecure_ssl
