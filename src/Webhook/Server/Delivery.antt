-- ===== src/Webhook/Server/Delivery.antt =====
-- What one callback, and a callback that is delivered again, do.
use integration_nfeio.Base.{
  String, Bool, true, false, Option, none, some, ◌∷◌, ◌≡◌, ◌≢◌, refl, ap, ◌∙◌, ◌⊎◌, inl, inr, arith,
  Bool-cases, eq_str, ne_of_eq-false,
}
use integration_nfeio.Json.{Bytes}
use integration_nfeio.Webhook.{Payload, decode_payload, normalize_nfe_event, queue_for}
use integration_nfeio.Webhook.Signature.{verify_signature}
use integration_nfeio.Webhook.Server.{
  IsLru, Env, Server, Callback, Answer, answer, dedup_key, accept, dedup_check, process,
  handle_body, handle,
}

module _ {C S : Type 0} (env : Env C S) (secret : String) where
  -- Everything that must hold of a callback before its body goes to a queue.
  pub record IsDue (r : Callback) (s : Server C S) (queue : String) (body : Bytes) : Type 0 where
    pub read : r.body ≡ some body
    pub verified : verify_signature env.digests r.headers body secret ≡ true
    pub decoded : (decode_payload body.doc).failed ≡ false
    pub fresh :
        (env.lru.get (dedup_key env.digests body (decode_payload body.doc).value) s.dedup).0 ≡ false
    pub routed : queue ≡ queue_for (normalize_nfe_event (decode_payload body.doc).value.event)
    pub known : queue ≢ ""

  abbrev pub duplicate : Answer
  duplicate = answer 200 "{\"status\":\"duplicate\"}"

  accept-published :
      (key : String) (p : Payload) (body : Bytes) (s : Server C S)
      → ((accept env key p body s).1.published ≡ s.published)
        ⊎ ((queue_for (normalize_nfe_event p.event) ≢ "")
            × ((accept env key p body s).1.published
                ≡ (queue_for (normalize_nfe_event p.event), body) ∷ s.published))
  unfolding accept
  accept-published key p body s =
      elim (Bool-cases (eq_str (queue_for (normalize_nfe_event p.event)) "")) [
        | inl unknown ↦ inl (ground arith)
        | inr known ↦ inr (ne_of_eq-false _ _ known, ground arith)
      ]

  -- The key is remembered on every branch, a failed publish included.
  pub accept-dedup :
      (key : String) (p : Payload) (body : Bytes) (s : Server C S)
      → (accept env key p body s).1.dedup ≡ env.lru.add key s.dedup
  unfolding accept
  accept-dedup key p body s = ground arith

  pub dedup_check_hit :
      (key : String) (p : Payload) (body : Bytes) (s : Server C S) (q : Bool × C)
      → q.0 ≡ true
      → ((dedup_check env key p body s q).0 ≡ duplicate)
        × ((dedup_check env key p body s q).1.published ≡ s.published)
  dedup_check_hit key p body s (true, c) h = (refl, refl)
  dedup_check_hit key p body s (false, c) h = cc

  dedup_check-published :
      (key : String) (p : Payload) (body : Bytes) (s : Server C S) (q : Bool × C)
      → ((dedup_check env key p body s q).1.published ≡ s.published)
        ⊎ ((q.0 ≡ false)
            × (queue_for (normalize_nfe_event p.event) ≢ "")
            × ((dedup_check env key p body s q).1.published
                ≡ (queue_for (normalize_nfe_event p.event), body) ∷ s.published))
  dedup_check-published key p body s (true, c) = inl refl
  dedup_check-published key p body s (false, c) =
      elim (accept-published key p body (record s { dedup = c })) [
        | inl same ↦ inl same
        | inr (known, grown) ↦ inr (refl, known, grown)
      ]

  process-published :
      (body : Bytes) (s : Server C S)
      → let p = (decode_payload body.doc).value in
        ((process env body s).1.published ≡ s.published)
        ⊎ (((decode_payload body.doc).failed ≡ false)
            × ((env.lru.get (dedup_key env.digests body p) s.dedup).0 ≡ false)
            × (queue_for (normalize_nfe_event p.event) ≢ "")
            × ((process env body s).1.published
                ≡ (queue_for (normalize_nfe_event p.event), body) ∷ s.published))
  unfolding process
  process-published body s = elim (Bool-cases (decode_payload body.doc).failed) [
    | inl bad ↦ inl (rw bad)
    | inr fine ↦
        elim (dedup_check-published (dedup_key env.digests body (decode_payload body.doc).value)
          (decode_payload body.doc).value body s
          (env.lru.get (dedup_key env.digests body (decode_payload body.doc).value) s.dedup)) [
            | inl same ↦ inl (rw fine same)
            | inr (miss, known, grown) ↦ inr (fine, miss, known, rw fine grown)
          ]
  ]

  handle_body-published :
      (r : Callback) (s : Server C S) (o : Option Bytes)
      → r.body ≡ o
      → ((handle_body env secret r.headers o s).1.published ≡ s.published)
        ⊎ ((queue : String) × (body : Bytes) × IsDue r s queue body
            × ((handle_body env secret r.headers o s).1.published ≡ (queue, body) ∷ s.published))
  handle_body-published r s none e = inl refl
  handle_body-published r s (some body) e =
      elim (Bool-cases (verify_signature env.digests r.headers body secret)) [
        | inr bad ↦ inl (rw bad)
        | inl signed ↦ elim (process-published body s) [
          | inl same ↦ inl (rw signed same)
          | inr (fine, miss, known, grown) ↦ inr (
            queue_for (normalize_nfe_event (decode_payload body.doc).value.event),
            body,
            record {
              read = e;
              verified = signed;
              decoded = fine;
              fresh = miss;
              routed = refl;
              known = known;
            },
            rw signed grown,
          )
        ]
      ]

  -- Whatever the callback, the publisher is called at most once, and only with the body of a
  -- callback that is signed, decodes, is not in the cache and names a known event, on its queue.
  pub handle-published :
      (r : Callback) (s : Server C S)
      → ((handle env secret r s).1.published ≡ s.published)
        ⊎ ((queue : String) × (body : Bytes) × IsDue r s queue body
            × ((handle env secret r s).1.published ≡ (queue, body) ∷ s.published))
  unfolding handle
  handle-published r s = handle_body-published r s r.body refl

  abbrev pub IsAccepted : Answer → Type 0
  IsAccepted a = (a.status ≡ 202) ⊎ (a.status ≡ 500)

  pub dedup_check_remembers :
      (key : String) (p : Payload) (body : Bytes) (s : Server C S) (q : Bool × C)
      → IsAccepted (dedup_check env key p body s q).0
      → (c : C) × ((dedup_check env key p body s q).1.dedup ≡ env.lru.add key c)
  dedup_check_remembers key p body s (true, c) h = absurd (ground arith)
  dedup_check_remembers key p body s (false, c) h =
      (c, accept-dedup key p body (record s { dedup = c }))

  pub process_remembers :
      (body : Bytes) (s : Server C S)
      → IsAccepted (process env body s).0
      → ((decode_payload body.doc).failed ≡ false)
        × ((c : C) × ((process env body s).1.dedup
              ≡ env.lru.add (dedup_key env.digests body (decode_payload body.doc).value) c))
  unfolding process
  process_remembers body s h = elim (Bool-cases (decode_payload body.doc).failed) [
    | inl bad ↦ let contra : IsAccepted (answer 400 "decode") = rw bad at h in absurd (ground arith)
    | inr fine ↦ (
      fine,
      rw fine (dedup_check_remembers _ (decode_payload body.doc).value body s _ (rw fine at h)),
    )
  ]

  process_again :
      IsLru env.lru
      → (body : Bytes) (s t : Server C S)
      → ((decode_payload body.doc).failed ≡ false)
        × ((c : C) × (t.dedup
              ≡ env.lru.add (dedup_key env.digests body (decode_payload body.doc).value) c))
      → ((process env body t).0 ≡ duplicate) × ((process env body t).1.published ≡ t.published)
  unfolding process
  process_again lawful body s t (fine, (c, e)) =
      let key = dedup_key env.digests body (decode_payload body.doc).value in
      rw fine (
        dedup_check_hit key (decode_payload body.doc).value body t (env.lru.get key t.dedup)
          (ap (λ x. (env.lru.get key x).0) e ∙ lawful.get-add key c))

  handle_body_again :
      IsLru env.lru
      → (r : Callback) (s : Server C S) (o : Option Bytes)
      → IsAccepted (handle_body env secret r.headers o s).0
      → let t = (handle_body env secret r.headers o s).1 in
        ((handle_body env secret r.headers o t).0 ≡ duplicate)
        × ((handle_body env secret r.headers o t).1.published ≡ t.published)
  handle_body_again lawful r s none h = absurd (ground arith)
  handle_body_again lawful r s (some body) h =
      elim (Bool-cases (verify_signature env.digests r.headers body secret)) [
        | inr bad ↦
            let contra : IsAccepted (answer 401 "invalid signature") = rw bad at h in
            absurd (ground arith)
        | inl signed ↦ rw signed (
            process_again lawful body s (process env body s).1
              (process_remembers body s (rw signed at h)))
      ]

  -- A callback that was answered 202 or 500 is remembered: delivered again at once, it is answered
  -- as a duplicate and nothing is published, also where the first publish failed.
  handle_again :
      IsLru env.lru
      → (r : Callback) (s : Server C S)
      → ((handle env secret r s).0.status ≡ 202) ⊎ ((handle env secret r s).0.status ≡ 500)
      → let t = (handle env secret r s).1 in
        ((handle env secret r t).0 ≡ duplicate)
        × ((handle env secret r t).1.published ≡ t.published)
  unfolding handle
  handle_again lawful r s h = handle_body_again lawful r s r.body h
