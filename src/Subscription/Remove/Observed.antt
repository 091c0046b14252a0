-- ===== src/Subscription/Remove/Observed.antt =====
-- `ObserveWebhookSubscriptions` only reads.
use integration_nfeio.Base.{String, ◌<>◌, Option}
use integration_nfeio.Json.{Json}
use integration_nfeio.Config.{Config}
use integration_nfeio.Http.{Net, message, ok, err, M}
use integration_nfeio.Client.Sends.{Sends-pure, Sends-bind, Sends-if}
use integration_nfeio.Client.Reads.{Reads, Reads-if, Reads-after, Reads-get}
use integration_nfeio.Subscription.{valid_webhook_id}
use integration_nfeio.Subscription.Exact as Exact
use integration_nfeio.Subscription.Exact.{is_requested, sanitize_result, get_webhook_by_exact_id}
use integration_nfeio.Subscription.Exact.Lookup.{sanitize_result-world}
use integration_nfeio.Subscription.Document.{document_id, document_insecure_ssl}
use integration_nfeio.Subscription.Input.{decode_observe_input}
use integration_nfeio.Subscription.Remove.{observed_flag, observe_webhook_subscriptions}

module _ {S : Type 0} (net : Net S) (cfg : Config) (op : String) where
  sanitize_result-Reads :
      {A : Type 0} (operation : String) {m : M S A}
      → Reads m
      → Reads (λ w. sanitize_result operation (m w))
  sanitize_result-Reads operation {m} h = record {
    run = λ w. rw (sanitize_result-world operation) (h.run w);
  }

  get_webhook-Reads :
      (id operation : String) → Reads (get_webhook_by_exact_id net cfg op id operation)
  unfolding get_webhook_by_exact_id
  get_webhook-Reads id operation =
      Reads-after (Exact.check_id id operation)
        (sanitize_result-Reads operation (Reads-get net cfg op _ _))
        (λ d. Reads-if (is_requested id (document_id d)) (Sends-pure (ok d)) (
          Sends-pure
            (err (message (operation <> ": provider response did not match the requested id")))))

  pub observe_webhook_subscriptions-Reads :
      (raw : Option Json) → Reads (observe_webhook_subscriptions net cfg op raw)
  unfolding observe_webhook_subscriptions
  observe_webhook_subscriptions-Reads raw =
      Sends-bind (Sends-pure (decode_observe_input raw)) (λ id.
        Sends-bind (Sends-if (valid_webhook_id id) (Sends-pure (ok id)) (Sends-pure (err _)))
          (λ id'. Sends-bind (get_webhook-Reads id' "observe_webhook_subscriptions") (λ current.
            Sends-bind (Sends-pure (observed_flag (document_insecure_ssl current)))
              (λ flag. Sends-pure (ok _)))))
