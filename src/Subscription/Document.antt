-- ===== src/Subscription/Document.antt =====
-- `webhookDocument` of webhook_subscription.go: the provider's webhook as a map of raw fields.
pub mod Desired
use integration_nfeio.Base.{
  String, Bool, true, false, ◌&&◌, ◌||◌, Option, none, some, eq_str, equal_fold, if◌then◌else◌,
}
use integration_nfeio.Json.{
  Json, null, bool, str, Fields, end, field, get, insert, as_map, string_of, bool_of, Decoded,
}
use integration_nfeio.Config.{valid_runtime_webhook_secret}
use integration_nfeio.Http.{message, Result, ok, err}
use integration_nfeio.Subscription.{EnsureInput}

abbrev unwrapped : Fields → Option Json → Option Fields
unwrapped outer none = some outer
unwrapped outer (some wrapped) = as_map wrapped

abbrev document_of : Option Fields → Option Fields
document_of none = none
document_of (some outer) = unwrapped outer (get "webHook" outer)

abbrev decoded_document : Fields → Option Fields → Decoded Fields
decoded_document old none = record { value = old; failed = true }
decoded_document old (some fields) = record { value = fields; failed = false }

-- `webhookDocument.UnmarshalJSON`: the wrapped shape, or the flat one.
unfoldable pub decode_document : Json → Fields → Decoded Fields
unfolding as_map get
decode_document v old = decoded_document old (document_of (as_map v))

abbrev non_empty : Option String → Option String
non_empty none = none
non_empty (some s) = if eq_str s "" then none else some s

-- `webhookDocument.id`; `none` where the source returns false.
unfoldable pub document_id : Fields → Option String
unfolding get
document_id d = non_empty (string_of (get "id" d))

-- `webhookDocument.insecureSSL`.
unfoldable pub document_insecure_ssl : Fields → Option Bool
unfolding get
document_insecure_ssl d = bool_of (get "insecureSsl" d)

abbrev secret_matches : String → Option String → Bool
secret_matches runtime_hmac none = false
secret_matches runtime_hmac (some secret) =
    valid_runtime_webhook_secret secret && eq_str secret runtime_hmac

-- `webhookDocument.hasMatchingRuntimeSecret`.
unfoldable pub has_matching_runtime_secret : Fields → String → Bool
unfolding get valid_runtime_webhook_secret
has_matching_runtime_secret d runtime_hmac =
    valid_runtime_webhook_secret runtime_hmac
    && secret_matches runtime_hmac (string_of (get "secret" d))

-- The deletion of every `Authorization` header.
unfoldable pub without_authorization : Fields → Fields
without_authorization end = end
without_authorization (field name v rest) =
    let kept = without_authorization rest in
    if equal_fold name "Authorization" then kept else field name v kept

abbrev clean_headers : Fields → Option Fields → Result Fields
clean_headers fields none =
    err (message "webhook security migration could not preserve provider headers")
clean_headers fields (some headers) =
    ok (insert "headers" (Json.obj (without_authorization headers)) fields)

abbrev migrate_headers : Fields → Option Json → Result Fields
migrate_headers fields none = ok fields
migrate_headers fields (some null) = ok fields
migrate_headers fields (some raw) = clean_headers fields (as_map raw)

-- `webhookDocument.desiredFields`.
unfoldable pub desired_fields : Fields → EnsureInput → String → Result Fields
unfolding get insert as_map without_authorization
desired_fields d in' runtime_hmac =
    let secured = insert "insecureSsl" (bool false) d in
    let migrated = insert "secret" (str runtime_hmac) secured in
    if in'.set_hmac_from_runtime
    then migrate_headers migrated (get "headers" migrated)
    else ok secured

unfoldable pub any_authorization : Fields → Bool
any_authorization end = false
any_authorization (field name v rest) = equal_fold name "Authorization" || any_authorization rest

abbrev legacy_in : Option Fields → Result Bool
legacy_in none = err (message "webhook security migration confirmation is invalid")
legacy_in (some headers) = ok (any_authorization headers)

abbrev legacy_of : Option Json → Result Bool
legacy_of none = ok false
legacy_of (some null) = ok false
legacy_of (some raw) = legacy_in (as_map raw)

-- `webhookDocument.hasLegacyAuthorization`.
unfoldable pub has_legacy_authorization : Fields → Result Bool
unfolding get as_map any_authorization
has_legacy_authorization d = legacy_of (get "headers" d)
