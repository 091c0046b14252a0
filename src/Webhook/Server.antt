-- ===== src/Webhook/Server.antt =====
-- `WebhookServer.handle` of webhook_server.go over the server's state.
pub mod Delivery
pub mod History
pub mod Dispatched
use integration_nfeio.Base.{
  ◌≡◌, ℕ, ◌+◌, String, Bool, true, false, not, Option, none, some, List, [], ◌∷◌, eq_str,
  if◌then◌else◌,
}
use integration_nfeio.Json.{Bytes, Decoded}
use integration_nfeio.Webhook.Signature.{Digests, Headers, verify_signature}
use integration_nfeio.Webhook.{Payload, decode_payload, normalize_nfe_event, queue_for}

-- The deduplication cache of `hashicorp/golang-lru`: `get` may reorder, and tells whether it hit.
pub record Lru (C : Type 0) : Type 0 where
  pub get : String → C → Bool × C
  pub add : String → C → C

-- What its documentation says of the newest entry: it is found.
pub record IsLru {C : Type 0} (lru : Lru C) : Type 0 where
  pub get-add : (k : String) (c : C) → (lru.get k (lru.add k c)).0 ≡ true

-- The code outside the server: the digests, the cache and the publisher, whose call may fail.
pub record Env (C S : Type 0) : Type 0 where
  pub digests : Digests
  pub lru : Lru C
  pub publish : String → Bytes → S → Bool × S

-- The server's state, with the publisher's calls and the metrics, the latest first.
pub record Server (C S : Type 0) : Type 0 where
  pub dedup : C
  pub outside : S
  pub published : List (String × Bytes)
  pub dedup_hits : ℕ
  pub received : List String

-- A request; `none` is a body that cannot be read.
pub record Callback : Type 0 where
  pub headers : Headers
  pub body : Option Bytes

pub record Answer : Type 0 where
  pub status : ℕ
  pub text : String

abbrev pub answer : ℕ → String → Answer
answer status text = record { status = status; text = text }

-- `dedupKey`: the payload's id, or the digest of the body.
abbrev pub dedup_key : Digests → Bytes → Payload → String
dedup_key d body p = if eq_str p.id "" then d.sha256_hex body.text else p.id

module _ {C S : Type 0} (env : Env C S) where
  abbrev publish_to : String → Bytes → Server C S → Bool × S → Answer × Server C S
  publish_to queue body s (sent, outside) =
      let s' = record s { outside = outside; published = (queue, body) ∷ s.published } in
      (if sent then answer 202 "" else answer 500 "publish failed", s')

  abbrev count_received : String → Server C S → Server C S
  count_received normalized s =
      if eq_str normalized "" then s else record s { received = normalized ∷ s.received }

  -- `handle` once the key is new: it is added before anything is published.
  unfoldable pub accept : String → Payload → Bytes → Server C S → Answer × Server C S
  accept key p body s =
      let normalized = normalize_nfe_event p.event in
      let queue = queue_for normalized in
      let s' = count_received normalized (record s { dedup = env.lru.add key s.dedup }) in
      let done = publish_to queue body s' (env.publish queue body s'.outside) in
      if eq_str queue "" then (answer 202 "", s') else done

  abbrev dedup_check : String → Payload → Bytes → Server C S → Bool × C → Answer × Server C S
  dedup_check key p body s (true, c) = (
    answer 200 "{\"status\":\"duplicate\"}",
    record s { dedup = c; dedup_hits = s.dedup_hits + 1 },
  )
  dedup_check key p body s (false, c) = accept key p body (record s { dedup = c })

  -- `handle` from the decoding of a verified body on.
  unfoldable pub process : Bytes → Server C S → Answer × Server C S
  unfolding accept
  process body s =
      let d = decode_payload body.doc in
      let key = dedup_key env.digests body d.value in
      let checked = dedup_check key d.value body s (env.lru.get key s.dedup) in
      if d.failed then (answer 400 "decode", s) else checked

  module _ (secret : String) where
    abbrev handle_body : Headers → Option Bytes → Server C S → Answer × Server C S
    handle_body headers none s = (answer 400 "read body", s)
    handle_body headers (some body) s =
        let done = process body s in
        if not (verify_signature env.digests headers body secret)
        then (answer 401 "invalid signature", s)
        else done

    -- `WebhookServer.handle`.
    unfoldable pub handle : Callback → Server C S → Answer × Server C S
    unfolding process
    handle r s = handle_body r.headers r.body s
