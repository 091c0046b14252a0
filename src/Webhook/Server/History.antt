-- ===== src/Webhook/Server/History.antt =====
-- A callback that is delivered again after others, with a cache that evicts.
use integration_nfeio.Base.{
  ℕ, suc, ◌+◌, ◌≤◌, ◌<◌, String, Bool, true, false, Option, none, some, List, [], ◌∷◌, length, ◌≡◌,
  refl, ap, inl, inr, arith, Bool-cases,
}
use integration_nfeio.Json.{Bytes}
use integration_nfeio.Webhook.{Payload, decode_payload}
use integration_nfeio.Webhook.Signature.{verify_signature}
use integration_nfeio.Webhook.Server.{
  Lru, Env, Server, Callback, answer, dedup_key, dedup_check, process, handle_body, handle,
}
use integration_nfeio.Webhook.Server.Delivery.{
  duplicate, IsAccepted, accept-dedup, dedup_check_hit, process_remembers,
}

-- What the documentation of the cache says, for a cache of `capacity` keys; `Held n k c` says that `k`
-- is among the `n` keys of `c` that were used last. Using a key, by adding or finding it, makes it the
-- last one and moves every other key back by one place at most; a key that is not found moves none;
-- and only the keys beyond the capacity are forgotten.
pub record IsEvicting {C : Type 0} (lru : Lru C) (capacity : ℕ) (Held : ℕ → String → C → Type 0)
    : Type 0 where
  pub added : (k : String) (c : C) → Held 1 k (lru.add k c)
  pub moved_by_add :
      (n : ℕ) (k j : String) (c : C) → Held n k c → n < capacity → Held (suc n) k (lru.add j c)
  pub moved_by_get : (n : ℕ) (k j : String) (c : C) → Held n k c → Held (suc n) k (lru.get j c).1
  pub kept_by_miss :
      (n : ℕ) (k j : String) (c : C)
      → Held n k c
      → (lru.get j c).0 ≡ false
      → Held n k (lru.get j c).1
  pub kept : (n : ℕ) (k : String) (c : C) → Held n k c → Held (suc n) k c
  pub found : (n : ℕ) (k : String) (c : C) → Held n k c → n ≤ capacity → (lru.get k c).0 ≡ true

module _ {C S : Type 0} (env : Env C S) (secret : String) where
  -- The callbacks, one after the other.
  unfoldable pub deliver : List Callback → Server C S → Server C S
  deliver [] s = s
  deliver (r ∷ rs) s = deliver rs (handle env secret r s).1

  module _ {capacity : ℕ} {Held : ℕ → String → C → Type 0}
      (lawful : IsEvicting env.lru capacity Held) where
    dedup_check_moves :
        (n : ℕ) (k key : String) (p : Payload) (body : Bytes) (s : Server C S) (q : Bool × C)
        → env.lru.get key s.dedup ≡ q
        → Held n k s.dedup
        → n < capacity
        → Held (suc n) k (dedup_check env key p body s q).1.dedup
    dedup_check_moves n k key p body s (true, c) e h less =
        rw (ap (λ (x : Bool × C). x.1) e) at (lawful.moved_by_get n k key s.dedup h)
    dedup_check_moves n k key p body s (false, c) e h less =
        let missed : Held n k c =
          rw (ap (λ (x : Bool × C). x.1) e) at
            (lawful.kept_by_miss n k key s.dedup h (ap (λ (x : Bool × C). x.0) e)) in
        rw (accept-dedup env secret key p body (record s { dedup = c }))
          (lawful.moved_by_add n k key c missed less)

    process_moves :
        (n : ℕ) (k : String) (body : Bytes) (s : Server C S)
        → Held n k s.dedup
        → n < capacity
        → Held (suc n) k (process env body s).1.dedup
    unfolding process
    process_moves n k body s h less =
        let p = (decode_payload body.doc).value in
        let key = dedup_key env.digests body p in
        elim (Bool-cases (decode_payload body.doc).failed) [
          | inl bad ↦ rw bad (lawful.kept n k s.dedup h)
          | inr fine ↦
              rw fine (dedup_check_moves n k key p body s (env.lru.get key s.dedup) refl h less)
        ]

    handle_body_moves :
        (n : ℕ) (k : String) (r : Callback) (o : Option Bytes) (s : Server C S)
        → Held n k s.dedup
        → n < capacity
        → Held (suc n) k (handle_body env secret r.headers o s).1.dedup
    handle_body_moves n k r none s h less = lawful.kept n k s.dedup h
    handle_body_moves n k r (some body) s h less =
        elim (Bool-cases (verify_signature env.digests r.headers body secret)) [
          | inl signed ↦ rw signed (process_moves n k body s h less)
          | inr bad ↦ rw bad (lawful.kept n k s.dedup h)
        ]

    deliver_moves :
        (rs : List Callback) (n : ℕ) (k : String) (s : Server C S)
        → Held n k s.dedup
        → n + length rs ≤ capacity
        → Held (n + length rs) k (deliver rs s).dedup
    unfolding deliver handle
    deliver_moves [] n k s h less = let same : n + 0 ≡ n = omega arith in rw same h
    deliver_moves (r ∷ rs) n k s h less =
        let same : n + suc (length rs) ≡ suc n + length rs = omega arith in
        rw same (
          deliver_moves rs (suc n) k (handle env secret r s).1
            (handle_body_moves n k r r.body s h (omega arith)) (omega arith))

    process_later :
        (body : Bytes) (n : ℕ) (t : Server C S)
        → (decode_payload body.doc).failed ≡ false
        → Held n (dedup_key env.digests body (decode_payload body.doc).value) t.dedup
        → n ≤ capacity
        → ((process env body t).0 ≡ duplicate env secret)
          × ((process env body t).1.published ≡ t.published)
    unfolding process
    process_later body n t fine h less =
        let p = (decode_payload body.doc).value in
        let key = dedup_key env.digests body p in
        rw fine (
          dedup_check_hit env secret key p body t (env.lru.get key t.dedup)
            (lawful.found n key t.dedup h less))

    remembered : (key : String) (c c' : C) → c' ≡ env.lru.add key c → Held 1 key c'
    remembered key c c' e = rw e (lawful.added key c)

    handle_body_later :
        (r : Callback) (o : Option Bytes) (rs : List Callback) (s : Server C S)
        → IsAccepted env secret (handle_body env secret r.headers o s).0
        → length rs < capacity
        → let t = deliver rs (handle_body env secret r.headers o s).1 in
          ((handle_body env secret r.headers o t).0 ≡ duplicate env secret)
          × ((handle_body env secret r.headers o t).1.published ≡ t.published)
    handle_body_later r none rs s h less = absurd (ground arith)
    handle_body_later r (some body) rs s h less =
        elim (Bool-cases (verify_signature env.digests r.headers body secret)) [
          | inr bad ↦
              let contra : IsAccepted env secret (answer 401 "invalid signature") = rw bad at h in
              absurd (ground arith)
          | inl signed ↦
              let s' = (process env body s).1 in
              let (fine, (c, e)) = process_remembers env secret body s (rw signed at h) in
              let key = dedup_key env.digests body (decode_payload body.doc).value in
              rw signed (
                process_later body (1 + length rs) (deliver rs s') fine
                  (deliver_moves rs 1 key s' (remembered key c s'.dedup e) (omega arith))
                  (omega arith))
        ]

    -- A callback that was answered 202 or 500 is answered as a duplicate, with nothing published,
    -- when it is delivered again after fewer other callbacks than the cache has places, whatever they
    -- are and however they end, if the cache evicts only the keys that were not used for longest.
    pub handle_later :
        (r : Callback) (rs : List Callback) (s : Server C S)
        → IsAccepted env secret (handle env secret r s).0
        → length rs < capacity
        → let t = deliver rs (handle env secret r s).1 in
          ((handle env secret r t).0 ≡ duplicate env secret)
          × ((handle env secret r t).1.published ≡ t.published)
    unfolding handle
    handle_later r rs s h less = handle_body_later r r.body rs s h less
