-- ===== src/Subscription/Ensure/Requests.antt =====
-- What `EnsureWebhookSubscription` asks of the provider.
use integration_nfeio.Base.{String, Bool, true, false, ◌≡◌, refl, inr, arith, ◌&&◌, not}
use integration_nfeio.Json.{Fields}
use integration_nfeio.Config.{Config}
use integration_nfeio.Http.{put_method, Net, Error, ok, err, World}
use integration_nfeio.Client.Sends.{
  SentOnly, do_request-SentOnly, Sends, Sends-pure, Sends-bind, Sends-then, Sends-if, Sends-weaken,
}
use integration_nfeio.Subscription.{EnsureInput, safe_webhook_output, validate_ensure_input}
use integration_nfeio.Subscription.Document.{
  desired_fields, document_insecure_ssl, has_matching_runtime_secret,
}
use integration_nfeio.Subscription.Exact.Lookup.{
  IsExactRequest, sanitize_result-world, get_webhook-Sends,
}
use integration_nfeio.Subscription.Ensure.{
  op_ensure, needs_migration, flag_of, confirm_secure, confirm_migration, put_desired,
  finish_update, update_webhook, reconcile_webhook, ensure_webhook_subscription,
}

module _ {S : Type 0} (net : Net S) (cfg : Config) (op : String) where
  put_desired-Sends :
      (id : String) (desired : Fields)
      → Sends (IsExactRequest cfg id) 3 (put_desired net cfg op id desired)
  put_desired-Sends id desired = record {
    run = λ w. rw (sanitize_result-world op_ensure) (
        do_request-SentOnly (IsExactRequest cfg id) net cfg op put_method _ _ _ w (refl, inr refl));
  }

  module _ (in' : EnsureInput) where
    finish_update-Sends :
        (confirmed : Fields)
        → Sends {S = S} (IsExactRequest cfg in'.id) 0 (finish_update in' confirmed)
    unfolding finish_update
    finish_update-Sends confirmed =
        Sends-then (Sends-pure (confirm_secure (document_insecure_ssl confirmed))) (
          Sends-then (Sends-pure (confirm_migration in'.set_hmac_from_runtime confirmed))
            (Sends-pure (ok (safe_webhook_output in'.id false true))))

    update_webhook-Sends :
        (current : Fields)
        → Sends (IsExactRequest cfg in'.id) 6 (update_webhook net cfg op in' current)
    unfolding update_webhook
    update_webhook-Sends current =
        Sends-bind (Sends-pure (desired_fields current in' cfg.webhook_secret)) (λ desired.
          Sends-then (put_desired-Sends in'.id desired)
            (Sends-bind (get_webhook-Sends net cfg op in'.id op_ensure) finish_update-Sends))

    reconcile_webhook-Sends :
        (current : Fields) (insecure_ssl : Bool)
        → Sends
            (IsExactRequest cfg in'.id)
            6
            (reconcile_webhook net cfg op in' current insecure_ssl)
    unfolding reconcile_webhook
    reconcile_webhook-Sends current insecure_ssl =
        Sends-if (not insecure_ssl && not in'.set_hmac_from_runtime)
          (Sends-weaken 0 6 (omega arith)
            (Sends-pure (ok (safe_webhook_output in'.id false false))))
          (Sends-if
            (insecure_ssl
              && not in'.set_hmac_from_runtime
              && not (has_matching_runtime_secret current cfg.webhook_secret))
            (Sends-weaken 0 6 (omega arith) (Sends-pure (err needs_migration)))
            (update_webhook-Sends current))

    ensure-Sends : Sends (IsExactRequest cfg in'.id) 9 (ensure_webhook_subscription net cfg op in')
    unfolding ensure_webhook_subscription
    ensure-Sends = Sends-then (Sends-pure (validate_ensure_input in' cfg.webhook_secret)) (
        Sends-bind (get_webhook-Sends net cfg op in'.id op_ensure) (λ current.
          Sends-bind (Sends-pure (flag_of (document_insecure_ssl current)))
            (λ insecure_ssl. reconcile_webhook-Sends current insecure_ssl)))

    -- Whatever its input and the provider's answers, the operation only reads and writes the exact
    -- webhook that its input names, by at most nine requests.
    pub ensure-SentOnly :
        (w : World S)
        → SentOnly (IsExactRequest cfg in'.id) 9 w (ensure_webhook_subscription net cfg op in' w).1
    ensure-SentOnly w = ensure-Sends.run w

    -- An input that the validation refuses sends nothing and changes nothing.
    pub ensure_invalid :
        (w : World S) {e : Error}
        → validate_ensure_input in' cfg.webhook_secret ≡ err e
        → ensure_webhook_subscription net cfg op in' w ≡ (err e, w)
    unfolding ensure_webhook_subscription
    ensure_invalid w h = rw h
