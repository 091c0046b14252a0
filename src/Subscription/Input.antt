-- ===== src/Subscription/Input.antt =====
-- The `UnmarshalJSON` methods of webhook_subscription.go: inputs with no unknown field.
use integration_nfeio.Base.{
  String, Bool, false, Option, none, some, eq_str, has_prefix, if◌then◌else◌,
}
use integration_nfeio.Json.{Json, null, bool, str, Fields, end, field, as_map, string_of}
use integration_nfeio.Http.{message, Result, ok, err}
use integration_nfeio.Subscription.{EnsureInput, DestroyInput}

-- `decodeWebhookInputObject`; `none` is no data at all.
unfoldable pub decode_webhook_input_object : Option Json → Option Fields
unfolding as_map
decode_webhook_input_object none = some end
decode_webhook_input_object (some v) = as_map v

-- A flag or a text that must not be `null`.
abbrev strict_bool : Json → Option Bool
strict_bool (bool b) = some b
strict_bool _ = none

abbrev strict_string : Json → Option String
strict_string (str s) = some s
strict_string _ = none

-- The field's new value, or the error that the field's kind is wrong.
abbrev put_field : {A R : Type 0} → Option A → (A → R) → String → Result R
put_field none put text = err (message text)
put_field (some a) put text = ok (put a)

abbrev nullable_flag : Json → Option (Option Bool)
nullable_flag null = some none
nullable_flag (bool b) = some (some b)
nullable_flag _ = none

unfoldable pub set_ensure_field : String → Json → EnsureInput → Result EnsureInput
set_ensure_field name raw in' =
    if eq_str name "id"
    then put_field (string_of (some raw)) (λ s. record in' { id = s })
        "webhook_subscription input id must be a string"
    else if eq_str name "insecure_ssl"
    then put_field (nullable_flag raw) (λ b. record in' { insecure_ssl = b })
        "webhook_subscription input insecure_ssl must be a boolean"
    else if eq_str name "set_hmac_from_runtime"
    then put_field (strict_bool raw) (λ b. record in' { set_hmac_from_runtime = b })
        "webhook_subscription security migration flag must be a boolean"
    else if eq_str name "remove_legacy_authorization"
    then put_field (strict_bool raw) (λ b. record in' { remove_legacy_authorization = b })
        "webhook_subscription legacy authorization flag must be a boolean"
    else if eq_str name "confirm_security_migration_id"
    then put_field (strict_string raw) (λ s. record in' { confirm_security_migration_id = s })
        "webhook_subscription security migration confirmation must be a string"
    else if eq_str name "ref"
    then put_field (string_of (some raw)) (λ s. record in' { ref = s })
        "webhook_subscription input ref must be a string"
    else if eq_str name "confirm_id"
    then put_field (string_of (some raw)) (λ s. record in' { confirm_id = s })
        "webhook_subscription input confirm_id must be a string"
    else if has_prefix name "__"
    then ok in'
    else err (message "webhook_subscription input contains unsupported fields")

abbrev pub then_decode : {R : Type 0} → Result R → (R → Result R) → Result R
then_decode (ok r) k = k r
then_decode (err e) k = err e

-- The loop over the fields, which ends at the first error.
unfoldable pub decode_ensure_fields : Fields → EnsureInput → Result EnsureInput
unfolding set_ensure_field
decode_ensure_fields end in' = ok in'
decode_ensure_fields (field name raw rest) in' =
    then_decode (set_ensure_field name raw in') (λ in''. decode_ensure_fields rest in'')

abbrev pub empty_ensure_input : EnsureInput
empty_ensure_input = record {
  id = "";
  insecure_ssl = none;
  set_hmac_from_runtime = false;
  remove_legacy_authorization = false;
  confirm_security_migration_id = "";
  ref = "";
  confirm_id = "";
}

abbrev not_an_object : {R : Type 0} → Result R
not_an_object = err (message "webhook_subscription input must be a JSON object")

-- `EnsureWebhookSubscriptionInput.UnmarshalJSON`.
unfoldable pub decode_ensure_input : Option Json → Result EnsureInput
unfolding decode_webhook_input_object decode_ensure_fields
decode_ensure_input doc = elim (decode_webhook_input_object doc) [
  | none ↦ not_an_object
  | some fields ↦ decode_ensure_fields fields empty_ensure_input
]

unfoldable pub set_destroy_field : String → Json → DestroyInput → Result DestroyInput
set_destroy_field name raw in' =
    if eq_str name "id"
    then put_field (string_of (some raw)) (λ s. record in' { id = s })
        "destroy_webhook_subscription input id must be a string"
    else if eq_str name "confirm_id"
    then put_field (string_of (some raw)) (λ s. record in' { confirm_id = s })
        "destroy_webhook_subscription input confirm_id must be a string"
    else if has_prefix name "__"
    then ok in'
    else err (message "destroy_webhook_subscription input contains unsupported fields")

unfoldable pub decode_destroy_fields : Fields → DestroyInput → Result DestroyInput
unfolding set_destroy_field
decode_destroy_fields end in' = ok in'
decode_destroy_fields (field name raw rest) in' =
    then_decode (set_destroy_field name raw in') (λ in''. decode_destroy_fields rest in'')

-- `DestroyWebhookSubscriptionInput.UnmarshalJSON`.
unfoldable pub decode_destroy_input : Option Json → Result DestroyInput
unfolding decode_webhook_input_object decode_destroy_fields
decode_destroy_input doc = elim (decode_webhook_input_object doc) [
  | none ↦ not_an_object
  | some fields ↦ decode_destroy_fields fields (record { id = ""; confirm_id = "" })
]

abbrev observed_id : Option String → Result String
observed_id none = err (message "observe_webhook_subscriptions: id must be a string")
observed_id (some s) = ok s

unfoldable pub set_observe_field : String → Json → String → Result String
set_observe_field name raw id =
    if eq_str name "id"
    then observed_id (string_of (some raw))
    else if has_prefix name "__"
    then ok id
    else err (message "observe_webhook_subscriptions: only exact id lookup is supported")

unfoldable pub decode_observe_fields : Fields → String → Result String
unfolding set_observe_field
decode_observe_fields end id = ok id
decode_observe_fields (field name raw rest) id =
    then_decode (set_observe_field name raw id) (λ id'. decode_observe_fields rest id')

-- The id of an `ObserveWebhookSubscriptions` filter.
unfoldable pub decode_observe_input : Option Json → Result String
unfolding decode_webhook_input_object decode_observe_fields
decode_observe_input doc = elim (decode_webhook_input_object doc) [
  | none ↦ not_an_object
  | some fields ↦ decode_observe_fields fields ""
]
