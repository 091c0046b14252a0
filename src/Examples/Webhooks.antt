-- ===== src/Examples/Webhooks.antt =====
-- Webhook subscriptions on concrete data.
use integration_nfeio.Base.{
  ℕ, String, ◌<>◌, Bool, true, false, Option, none, some, List, [], ◌∷◌, ◌≡◌, ◌≢◌, refl, ◌⊎◌, inl,
  inr, arith, eq_iff,
}
use integration_nfeio.Json.{obj, field, end, str, bool, Fields}
use integration_nfeio.Http.{Reply, Error, err, World}
use integration_nfeio.Client.Sends.{SentOnly}
use integration_nfeio.Subscription.{
  EnsureInput, EnsureOutput, DestroyInput, DestroyOutput, valid_webhook_id, webhook_exact_path,
}
use integration_nfeio.Subscription.Document.{desired_fields}
use integration_nfeio.Subscription.Document.Desired.{IsDesired, desired_fields-IsDesired}
use integration_nfeio.Subscription.Exact.Lookup.{IsExactRequest}
use integration_nfeio.Subscription.Ensure.{ensure_webhook_subscription}
use integration_nfeio.Subscription.Ensure.Requests.{ensure-SentOnly}
use integration_nfeio.Subscription.Ensure.Confirmed.{IsReconciled, ensure-IsReconciled}
use integration_nfeio.Subscription.Remove.{destroy_webhook_subscription}
use integration_nfeio.Subscription.Remove.Guarded.{
  destroy_unconfirmed, IsDeleted, destroy-IsDeleted,
}
use integration_nfeio.Examples.{scripted, reply, secret, settings, at_start}

abbrev migration : EnsureInput
migration = record {
  id = "wh_1";
  insecure_ssl = some false;
  set_hmac_from_runtime = true;
  remove_legacy_authorization = true;
  confirm_security_migration_id = "wh_1";
  ref = "";
  confirm_id = "";
}

abbrev insecure : Fields
insecure = field "id" (str "wh_1") (
    field "insecureSsl" (bool true)
      (field "headers" (obj (field "authorization" (str "old") (field "X-A" (str "1") end))) end))

abbrev secured : Fields
secured =
    field "id" (str "wh_1")
      (field "insecureSsl" (bool false) (field "headers" (obj (field "X-A" (str "1") end)) end))

abbrev sent_fields : Fields
sent_fields = field "id" (str "wh_1") (
    field "insecureSsl" (bool false)
      (field "headers" (obj (field "X-A" (str "1") end)) (field "secret" (str secret) end)))

desired_fields_example : IsDesired migration secret insecure sent_fields
unfolding desired_fields integration_nfeio.Base.equal_fold
desired_fields_example = desired_fields-IsDesired insecure migration secret refl

abbrev provider : World (List Reply)
provider = at_start (
    reply 200 "{...}" (some (obj insecure))
    ∷ reply 200 "" none
    ∷ reply 200 "{...}" (some (obj (field "webHook" (obj secured) end)))
    ∷ [])

ensure-SentOnly_example :
    SentOnly
      (IsExactRequest settings "wh_1")
      9
      provider
      (ensure_webhook_subscription scripted settings "op" migration provider).1
ensure-SentOnly_example = ensure-SentOnly scripted settings "op" migration provider

ensure-IsReconciled_example :
    IsReconciled scripted settings migration
      (record { id = "wh_1"; insecure_ssl = false; adopted = true; updated = true })
      (ensure_webhook_subscription scripted settings "op" migration provider).1
unfolding ensure_webhook_subscription integration_nfeio.Subscription.validate_ensure_input
    integration_nfeio.Base.byte_len integration_nfeio.Base.trim_space
    integration_nfeio.Config.valid_runtime_webhook_secret
    integration_nfeio.Subscription.Exact.get_webhook_by_exact_id integration_nfeio.Client.do_request
    integration_nfeio.Subscription.Document.decode_document
    integration_nfeio.Subscription.Document.document_id
    integration_nfeio.Subscription.Document.document_insecure_ssl desired_fields
    integration_nfeio.Subscription.Document.has_legacy_authorization
ensure-IsReconciled_example = ensure-IsReconciled scripted settings "op" migration provider refl

abbrev unconfirmed : DestroyInput
unconfirmed = record { id = "wh_1"; confirm_id = "wh_2" }

destroy_unconfirmed_example :
    ((e : Error) × ((destroy_webhook_subscription scripted settings "op" unconfirmed provider).0
        ≡ err e))
    × ((destroy_webhook_subscription scripted settings "op" unconfirmed provider).1 ≡ provider)
destroy_unconfirmed_example =
    destroy_unconfirmed scripted settings "op" unconfirmed provider
      (inr (ground (arith, eq_iff "wh_2" "wh_1")))

abbrev confirmed : DestroyInput
confirmed = record { id = "wh_1"; confirm_id = "wh_1" }

abbrev gone : World (List Reply)
gone = at_start (reply 502 "" none ∷ reply 404 "" none ∷ [])

destroy-IsDeleted_example :
    (◌≡◌ {A = String} "wh_1" "wh_1")
    × (true ≡ true)
    × IsDeleted scripted settings "op" "wh_1" true
        (destroy_webhook_subscription scripted settings "op" confirmed gone).1
unfolding destroy_webhook_subscription valid_webhook_id integration_nfeio.Base.byte_len
    integration_nfeio.Base.trim_space integration_nfeio.Client.do_request
destroy-IsDeleted_example =
    destroy-IsDeleted scripted settings "op" confirmed gone
      {out = record { deleted = true; already_absent = true }} refl
