-- ===== src/Subscription/Remove.antt =====
-- `DestroyWebhookSubscription` and `ObserveWebhookSubscriptions` of webhook_subscription.go.
pub mod Guarded
pub mod Observed
use integration_nfeio.Base.{
  String, Bool, true, false, not, Option, none, some, List, [], ◌∷◌, pos, eq_int, eq_str,
  if◌then◌else◌,
}
use integration_nfeio.Json.{Json}
use integration_nfeio.Config.{Config}
use integration_nfeio.Http.{
  delete_method, Net, ApiError, Error, api, message, Result, ok, err, World, M, return, fail, ◌>>=◌,
}
use integration_nfeio.Client.{discard, do_request}
use integration_nfeio.Subscription.{
  DestroyInput, DestroyOutput, EnsureOutput, valid_webhook_id, webhook_exact_path, sanitize,
}
use integration_nfeio.Subscription.Input.{decode_observe_input}
use integration_nfeio.Subscription.Document.{document_insecure_ssl}
use integration_nfeio.Subscription.Exact.{lift, get_webhook_by_exact_id}

abbrev is_not_found : Error → Bool
is_not_found (api e) = eq_int e.status (pos 404)
is_not_found _ = false

abbrev destroyed : Bool → DestroyOutput
destroyed already_absent = record { deleted = true; already_absent = already_absent }

-- What the answer to the DELETE comes to.
abbrev destroy_outcome : {S : Type 0} → Result (Unit {0}) × World S → Result DestroyOutput × World S
destroy_outcome (ok _, w) = (ok (destroyed false), w)
destroy_outcome (err e, w) =
    if is_not_found e
    then (ok (destroyed true), w)
    else (err (sanitize "destroy_webhook_subscription" e), w)

abbrev observed_flag : Option Bool → Result Bool
observed_flag none =
    err
      (message "observe_webhook_subscriptions: provider response omitted a valid insecureSsl field")
observed_flag (some b) = ok b

module _ {S : Type 0} (net : Net S) (cfg : Config) (op : String) where
  -- `DestroyWebhookSubscription`.
  unfoldable pub destroy_webhook_subscription : DestroyInput → M S DestroyOutput
  destroy_webhook_subscription in' w =
      let done =
        destroy_outcome
          (do_request net cfg op delete_method (webhook_exact_path in'.id) none (discard tt) w) in
      if not (valid_webhook_id in'.id)
      then (err (message "destroy_webhook_subscription: valid exact id required"), w)
      else if not (eq_str in'.confirm_id in'.id)
      then (err (message "destroy_webhook_subscription: confirm_id must exactly match id"), w)
      else done

  abbrev check_id : String → M S String
  check_id id =
      if valid_webhook_id id
      then return id
      else fail (message "observe_webhook_subscriptions: valid exact id required")

  -- `ObserveWebhookSubscriptions`: one item.
  unfoldable pub observe_webhook_subscriptions : Option Json → M S (List EnsureOutput)
  observe_webhook_subscriptions raw = do
    id ← lift (decode_observe_input raw)
    id' ← check_id id
    current ← get_webhook_by_exact_id net cfg op id' "observe_webhook_subscriptions"
    insecure_ssl ← lift (observed_flag (document_insecure_ssl current))
    return (record { id = id'; insecure_ssl = insecure_ssl; adopted = false; updated = false } ∷ [])
