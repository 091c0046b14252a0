-- ===== src/Examples/Publishing.antt =====
-- The publish dispatcher on concrete data.
use integration_nfeio.Base.{
  String, none, some, List, [], ◌∷◌, ◌≡◌, ◌≢◌, refl, leb, false, arith, eq_iff,
}
use integration_nfeio.Json.{Json}
use integration_nfeio.Http.{Response, Reply, answered}
use integration_nfeio.Publish.{Dispatcher, publish_request, publish_message}
use integration_nfeio.Webhook.Server.{Env, Server, handle}
use integration_nfeio.Webhook.Server.Delivery.{IsDue}
use integration_nfeio.Webhook.Server.Dispatched.{receiver, handle_delivers}
use integration_nfeio.Examples.{scripted, reply, secret}
use integration_nfeio.Examples.Callbacks.{digests, body, unbounded, callback, accepted}

abbrev dispatcher : Dispatcher
dispatcher = record { core_url = "https://core"; instance_ref = "topology"; token = "t" }

abbrev receiving : Env (List String) (List Reply)
receiving = receiver scripted digests unbounded (some dispatcher)

-- A receiver that has seen nothing, and a core that accepts.
abbrev waiting : Server (List String) (List Reply)
waiting = record {
  dedup = [];
  outside = reply 202 "" none ∷ [];
  published = [];
  dedup_hits = 0;
  received = [];
}

callback-IsDue : IsDue receiving secret callback waiting "enterprise-payments.nfe.emitted.q" body
unfolding receiver integration_nfeio.Webhook.decode_payload
    integration_nfeio.Examples.Callbacks.member integration_nfeio.Webhook.queue_for
    integration_nfeio.Webhook.normalize_nfe_event
callback-IsDue = record {
  read = refl;
  verified = accepted;
  decoded = refl;
  fresh = refl;
  routed = refl;
  known = ground (arith, eq_iff "enterprise-payments.nfe.emitted.q" "");
}

handle_delivers_example :
    (payload : Json) × (body.doc ≡ some payload)
    × ((r : Response) × (scripted.send
            (publish_request dispatcher "enterprise-payments.nfe.emitted.q" payload)
            (reply 202 "" none ∷ [])
          ≡ (answered r, (handle receiving secret callback waiting).1.outside))
        × (leb 300 r.status ≡ false))
unfolding handle integration_nfeio.Webhook.Signature.verify_signature
    integration_nfeio.Config.valid_runtime_webhook_secret integration_nfeio.Base.byte_len
    integration_nfeio.Base.trim_space integration_nfeio.Webhook.Signature.single_http_header
    integration_nfeio.Base.equal_fold integration_nfeio.Base.has_char
    integration_nfeio.Base.has_prefix integration_nfeio.Webhook.Signature.hex_decode
    integration_nfeio.Base.trim_prefix integration_nfeio.Webhook.Signature.equal_bytes receiver
    integration_nfeio.Webhook.decode_payload integration_nfeio.Examples.Callbacks.member
    integration_nfeio.Webhook.queue_for integration_nfeio.Webhook.normalize_nfe_event
    publish_message
handle_delivers_example =
    handle_delivers scripted digests unbounded dispatcher secret callback waiting
      "enterprise-payments.nfe.emitted.q" body callback-IsDue refl
