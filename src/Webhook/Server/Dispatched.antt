-- ===== src/Webhook/Server/Dispatched.antt =====
-- The publisher that the receiver is given: `NewWebhookServer` and `SetPublisher` of
-- providers/nfeio/adapter/webhook_server.go with the dispatcher of publish_dispatch.go, as
-- cmd/adapter/main.go joins them.
use integration_nfeio.Base.{
  String, Bool, true, false, Option, none, some, leb, eq_str, ◌≡◌, ◌≢◌, refl, ap, sym, ◌∙◌, arith,
  eq-false_of_ne,
}
use integration_nfeio.Json.{Json, Bytes}
use integration_nfeio.Http.{Response, answered, Net}
use integration_nfeio.Publish.{Dispatcher, publish_request, publish_message}
use integration_nfeio.Publish.Sent.{publish_message_answered}
use integration_nfeio.Webhook.{Payload, decode_payload, normalize_nfe_event, queue_for}
use integration_nfeio.Webhook.Signature.{Digests}
use integration_nfeio.Webhook.Server.{
  Lru, Env, Server, Callback, dedup_key, accept, dedup_check, process, handle_body, handle,
  count_received, publish_to,
}
use integration_nfeio.Webhook.Server.Delivery.{IsDue}

-- The publisher of the dispatcher that the environment gives, or the one that drops the event.
unfoldable pub publisher_of :
    {S : Type 0} → Net S → Option Dispatcher → String → Bytes → S → Bool × S
publisher_of net none queue body s = (true, s)
publisher_of net (some d) queue body s = publish_message net d queue body.doc s

-- What the receiver of a process works with.
unfoldable pub receiver : {C S : Type 0} → Net S → Digests → Lru C → Option Dispatcher → Env C S
unfolding publisher_of
receiver net digests lru dispatcher = record {
  digests = digests;
  lru = lru;
  publish = publisher_of net dispatcher;
}

module _ {C S : Type 0} (env : Env C S) (secret : String) where
  count_received-outside :
      (normalized : String) (s : Server C S) → (count_received env normalized s).outside ≡ s.outside
  count_received-outside normalized s = ground arith

  -- The publisher succeeded on the queue of the event.
  abbrev Published : String → Bytes → Server C S → Server C S → Type 0
  Published queue body s t =
      ((env.publish queue body s.outside).0 ≡ true)
      × ((env.publish queue body s.outside).1 ≡ t.outside)

  publish_to-Published :
      (queue : String) (body : Bytes) (s : Server C S) (q : Bool × S)
      → env.publish queue body s.outside ≡ q
      → (publish_to env queue body s q).0.status ≡ 202
      → Published queue body s (publish_to env queue body s q).1
  publish_to-Published queue body s (true, outside) e h =
      (ap (λ (x : Bool × S). x.0) e, ap (λ (x : Bool × S). x.1) e)
  publish_to-Published queue body s (false, outside) e h = absurd (ground arith)

  accept-Published :
      (key : String) (p : Payload) (body : Bytes) (s : Server C S)
      → queue_for (normalize_nfe_event p.event) ≢ ""
      → (accept env key p body s).0.status ≡ 202
      → Published (queue_for (normalize_nfe_event p.event)) body s (accept env key p body s).1
  unfolding accept
  accept-Published key p body s known h =
      let normalized = normalize_nfe_event p.event in
      let queue = queue_for normalized in
      let same : (eq_str queue "") ≡ false = eq-false_of_ne queue "" known in
      let s' = count_received env normalized (record s { dedup = env.lru.add key s.dedup }) in
      let kept : s'.outside ≡ s.outside =
        count_received-outside normalized (record s { dedup = env.lru.add key s.dedup }) in
      let (sent, left) =
        publish_to-Published queue body s' (env.publish queue body s'.outside) refl
          (rw same at h) in
      (rw (← kept) sent, rw same (ap (λ (o : S). (env.publish queue body o).1) (sym kept) ∙ left))

  dedup_check-Published :
      (key : String) (p : Payload) (body : Bytes) (s : Server C S) (q : Bool × C)
      → q.0 ≡ false
      → queue_for (normalize_nfe_event p.event) ≢ ""
      → (dedup_check env key p body s q).0.status ≡ 202
      → Published
          (queue_for (normalize_nfe_event p.event))
          body
          s
          (dedup_check env key p body s q).1
  dedup_check-Published key p body s (true, c) miss known h = absurd (cc)
  dedup_check-Published key p body s (false, c) miss known h =
      accept-Published key p body (record s { dedup = c }) known h

  process-Published :
      (body : Bytes) (s : Server C S)
      → let p = (decode_payload body.doc).value in
        (decode_payload body.doc).failed ≡ false
        → (env.lru.get (dedup_key env.digests body p) s.dedup).0 ≡ false
        → queue_for (normalize_nfe_event p.event) ≢ ""
        → (process env body s).0.status ≡ 202
        → Published (queue_for (normalize_nfe_event p.event)) body s (process env body s).1
  unfolding process
  process-Published body s fine miss known h =
      let p = (decode_payload body.doc).value in
      let key = dedup_key env.digests body p in
      rw fine
        (dedup_check-Published key p body s (env.lru.get key s.dedup) miss known (rw fine at h))

  handle_body-Published :
      (r : Callback) (s : Server C S) (queue : String) (body : Bytes)
      → IsDue env secret r s queue body
      → (handle_body env secret r.headers (some body) s).0.status ≡ 202
      → Published queue body s (handle_body env secret r.headers (some body) s).1
  handle_body-Published r s queue body due h =
      let known : queue_for (normalize_nfe_event (decode_payload body.doc).value.event) ≢ "" =
        rw due.routed at due.known in
      rw (due.verified, due.routed)
        (process-Published body s due.decoded due.fresh known (rw due.verified at h))

module _ {C S : Type 0} (net : Net S) (digests : Digests) (lru : Lru C) (d : Dispatcher)
    (secret : String) where
  abbrev wired : Env C S
  wired = receiver net digests lru (some d)

  -- With a dispatcher, a callback that is due on a queue is answered 202 only where its body is JSON
  -- and the core answered below 300 to the request that names this queue and carries this body.
  pub handle_delivers :
      (r : Callback) (s : Server C S) (queue : String) (body : Bytes)
      → IsDue wired secret r s queue body
      → (handle wired secret r s).0.status ≡ 202
      → (payload : Json) × (body.doc ≡ some payload)
        × ((answer : Response) × (net.send (publish_request d queue payload) s.outside
              ≡ (answered answer, (handle wired secret r s).1.outside))
            × (leb 300 answer.status ≡ false))
  unfolding handle receiver
  handle_delivers r s queue body due h =
      let (sent, left) = handle_body-Published wired secret r s queue body due (rw due.read at h) in
      let (payload, doc, (response, reply, below)) =
        publish_message_answered net d queue body.doc s.outside sent in
      (
        payload,
        doc,
        (response, rw due.read (reply ∙ ap (λ (o : S). (answered response, o)) left), below),
      )
