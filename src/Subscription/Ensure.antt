-- ===== src/Subscription/Ensure.antt =====
-- `EnsureWebhookSubscription` of webhook_subscription.go.
pub mod Requests
pub mod Confirmed
use integration_nfeio.Base.{
  String, ◌<>◌, Bool, true, false, ◌&&◌, ◌||◌, not, Option, none, some, eq_str, if◌then◌else◌,
}
use integration_nfeio.Json.{Json, obj, Fields, end, field}
use integration_nfeio.Config.{Config}
use integration_nfeio.Http.{
  put_method, Net, Error, message, Result, ok, err, World, M, after, return, fail, ◌>>=◌, ◌>>◌,
}
use integration_nfeio.Client.{discard, do_request}
use integration_nfeio.Subscription.{
  EnsureInput, EnsureOutput, webhook_exact_path, safe_webhook_output, validate_ensure_input,
}
use integration_nfeio.Subscription.Document.{
  document_insecure_ssl, has_matching_runtime_secret, desired_fields, has_legacy_authorization,
}
use integration_nfeio.Subscription.Exact.{lift, sanitize_result, get_webhook_by_exact_id}

abbrev pub op_ensure : String
op_ensure = "ensure_webhook_subscription"

abbrev flag_of : Option Bool → Result Bool
flag_of none =
    err (message "ensure_webhook_subscription: provider response omitted a valid insecureSsl field")
flag_of (some b) = ok b

abbrev confirm_secure : Option Bool → Result (Unit {0})
confirm_secure (some false) = ok tt
confirm_secure _ = err (message "ensure_webhook_subscription: secure TLS setting was not confirmed")

abbrev refuse_legacy : Bool → Result (Unit {0})
refuse_legacy true =
    err (message "ensure_webhook_subscription: security migration was not confirmed")
refuse_legacy false = ok tt

abbrev confirm_legacy : Result Bool → Result (Unit {0})
confirm_legacy (ok b) = refuse_legacy b
confirm_legacy (err e) = err e

-- The check of the confirmed document after a migration.
abbrev confirm_migration : Bool → Fields → Result (Unit {0})
confirm_migration false confirmed = ok tt
confirm_migration true confirmed = confirm_legacy (has_legacy_authorization confirmed)

abbrev needs_migration : Error
needs_migration =
    message
      "ensure_webhook_subscription: exact-ID security migration is required before provider update"

-- The checks of the confirmed document.
unfoldable pub finish_update : {S : Type 0} → EnsureInput → Fields → M S EnsureOutput
finish_update in' confirmed = do
  lift (confirm_secure (document_insecure_ssl confirmed))
  lift (confirm_migration in'.set_hmac_from_runtime confirmed)
  return (safe_webhook_output in'.id false true)

module _ {S : Type 0} (net : Net S) (cfg : Config) (op : String) where
  -- The PUT of the desired fields.
  abbrev put_desired : String → Fields → M S (Unit {0})
  put_desired id desired w = sanitize_result op_ensure (
      do_request net cfg op put_method (webhook_exact_path id)
        (some (obj (field "webHook" (obj desired) end))) (discard tt) w)

  -- From the PUT on.
  unfoldable pub update_webhook : EnsureInput → Fields → M S EnsureOutput
  unfolding finish_update
  update_webhook in' current = do
    desired ← lift (desired_fields current in' cfg.webhook_secret)
    put_desired in'.id desired
    confirmed ← get_webhook_by_exact_id net cfg op in'.id op_ensure
    finish_update in' confirmed

  -- What the current document calls for.
  unfoldable pub reconcile_webhook : EnsureInput → Fields → Bool → M S EnsureOutput
  unfolding update_webhook
  reconcile_webhook in' current insecure_ssl =
      if not insecure_ssl && not in'.set_hmac_from_runtime
      then return (safe_webhook_output in'.id false false)
      else if insecure_ssl
          && not in'.set_hmac_from_runtime
          && not (has_matching_runtime_secret current cfg.webhook_secret)
      then fail needs_migration
      else update_webhook in' current

  -- `EnsureWebhookSubscription`.
  unfoldable pub ensure_webhook_subscription : EnsureInput → M S EnsureOutput
  unfolding reconcile_webhook
  ensure_webhook_subscription in' = do
    lift (validate_ensure_input in' cfg.webhook_secret)
    current ← get_webhook_by_exact_id net cfg op in'.id op_ensure
    insecure_ssl ← lift (flag_of (document_insecure_ssl current))
    reconcile_webhook in' current insecure_ssl
