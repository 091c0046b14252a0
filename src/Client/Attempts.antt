-- ===== src/Client/Attempts.antt =====
-- How `Client.do` retries: answers that end a call at once, and servers that never recover.
use integration_nfeio.Base.{
  ℕ, zero, suc, String, Option, none, ◌∷◌, ◌++◌, ◌≡◌, refl, ap, ◌∙◌, true, false, arith, replicate,
  replicate-cons, ◌<>◌, ◌==◌, Bool,
}
use integration_nfeio.Json.{Json}
use integration_nfeio.Config.{Config}
use integration_nfeio.Http.{
  Method, Request, Response, Reply, failed, answered, Net, Error, api, http_do, Result, ok, err,
  World, M,
}
use integration_nfeio.Client.{
  make_request, Target, read_body, is_success, is_transient_status, api_error_of, classify, receive,
  conclude, count_error, do_once, attempts, do_request,
}

-- Replies after which `do` tries again.
abbrev pub IsTransient : Reply → Type 0
IsTransient (failed e) = Unit
IsTransient (answered r) = is_transient_status r.status ≡ true

-- What one answer comes to, with no retry.
abbrev pub outcome_of : {A : Type 0} → Target A → Response → Result A
outcome_of out r = elim (is_success r.status) [
  | true ↦ read_body out r.body
  | false ↦ err (api (api_error_of r))
]

module _ {S : Type 0} (net : Net S) (cfg : Config) {A : Type 0} where
  do_once-answered :
      (m : Method) (path : String) (body : Option Json) (out : Target A) (w : World S)
      (r : Response) (s : S)
      → net.url_parses (cfg.base_url <> path) ≡ true
      → net.send (make_request cfg m path body) w.net ≡ (answered r, s)
      → ((do_once net cfg m path body out w).0 ≡ classify net out r s)
        × ((do_once net cfg m path body out w).1.sent ≡ make_request cfg m path body ∷ w.sent)
        × ((do_once net cfg m path body out w).1.net ≡ s)
  unfolding do_once receive
  do_once-answered m path body out w r s fine reply =
      (rw (fine, reply), rw (fine, reply), rw (fine, reply))

  conclude_final :
      (op : String) (last : Bool) (retry : M S A) (r : Result A) (retry_after : ℕ) (w : World S)
      → ((conclude net cfg op last retry r false retry_after w).0 ≡ r)
        × ((conclude net cfg op last retry r false retry_after w).1.sent ≡ w.sent)
  conclude_final op last retry (ok a) retry_after w = (refl, refl)
  conclude_final op last retry (err e) retry_after w = (refl, refl)

  attempts_final :
      (left : ℕ) (op : String) (m : Method) (path : String) (body : Option Json) (out : Target A)
      (w : World S)
      → (do_once net cfg m path body out w).0.transient ≡ false
      → ((attempts net cfg (suc left) op m path body out w).0
          ≡ (do_once net cfg m path body out w).0.result)
        × ((attempts net cfg (suc left) op m path body out w).1.sent
            ≡ (do_once net cfg m path body out w).1.sent)
  unfolding attempts
  attempts_final left op m path body out w h =
      let d = do_once net cfg m path body out w in
      rw h (
        conclude_final op (left == 0) (attempts net cfg left op m path body out) d.0.result
          d.0.retry_after d.1)

  classify_final :
      (out : Target A) (r : Response) (s : S)
      → is_transient_status r.status ≡ false
      → ((classify net out r s).transient ≡ false)
        × ((classify net out r s).result ≡ outcome_of out r)
  unfolding classify
  classify_final out r s h = ground arith

  -- An answer whose status is neither 429 nor 5xx ends the call: one request is sent, and the
  -- result is the decoded body for 2xx and the API error for all else.
  pub do_request_final :
      (op : String) (m : Method) (path : String) (body : Option Json) (out : Target A) (w : World S)
      (r : Response) (s : S)
      → net.url_parses (cfg.base_url <> path) ≡ true
      → net.send (make_request cfg m path body) w.net ≡ (answered r, s)
      → is_transient_status r.status ≡ false
      → ((do_request net cfg op m path body out w).0 ≡ outcome_of out r)
        × ((do_request net cfg op m path body out w).1.sent ≡ make_request cfg m path body ∷ w.sent)
  unfolding do_request
  do_request_final op m path body out w r s fine reply last =
      let (once, sent, _) = do_once-answered m path body out w r s fine reply in
      let (stop, result) = classify_final out r s last in
      let (same, log) = attempts_final 2 op m path body out w (rw once stop) in
      (same ∙ rw once result, log ∙ sent)

  receive_transient :
      (out : Target A) (req : Request) (w : World S) (p : Reply × S)
      → IsTransient p.0
      → ((receive net out req w p).0.transient ≡ true)
        × ((e : Error) × ((receive net out req w p).0.result ≡ err e))
        × ((receive net out req w p).1.sent ≡ req ∷ w.sent)
  unfolding receive
  receive_transient out req w (failed e, s) h = (refl, (http_do e, refl), refl)
  receive_transient out req w (answered r, s) h =
      (ground arith, (api (api_error_of r), ground arith), refl)

  do_once_transient :
      (m : Method) (path : String) (body : Option Json) (out : Target A) (w : World S)
      → net.url_parses (cfg.base_url <> path) ≡ true
      → IsTransient (net.send (make_request cfg m path body) w.net).0
      → ((do_once net cfg m path body out w).0.transient ≡ true)
        × ((e : Error) × ((do_once net cfg m path body out w).0.result ≡ err e))
        × ((do_once net cfg m path body out w).1.sent ≡ make_request cfg m path body ∷ w.sent)
  unfolding do_once
  do_once_transient m path body out w fine h =
      rw fine (receive_transient out (make_request cfg m path body) w _ h)

  conclude_retry :
      (op : String) (last : Bool) (retry : M S A) (e : Error) (retry_after : ℕ) (w : World S)
      → last ≡ false
      → (net.pause retry_after w.net).0 ≡ none
      → (v : World S) × (conclude net cfg op last retry (err e) true retry_after w ≡ retry v)
        × (v.sent ≡ w.sent)
  conclude_retry op last retry e retry_after w more waited = (
    record (count_error net cfg op e w) { net = (net.pause retry_after w.net).1 },
    ground arith,
    refl,
  )

  conclude_last :
      (op : String) (retry : M S A) (e : Error) (transient : Bool) (retry_after : ℕ) (w : World S)
      → ((conclude net cfg op true retry (err e) transient retry_after w).0 ≡ err e)
        × ((conclude net cfg op true retry (err e) transient retry_after w).1.sent ≡ w.sent)
  conclude_last op retry e true retry_after w = (refl, refl)
  conclude_last op retry e false retry_after w = (refl, refl)

  module _ (op : String) (m : Method) (path : String) (body : Option Json) (out : Target A)
      (fine : net.url_parses (cfg.base_url <> path) ≡ true)
      (down : (s : S) → IsTransient (net.send (make_request cfg m path body) s).0)
      (patient : (d : ℕ) (s : S) → (net.pause d s).0 ≡ none) where
    attempts_exhausted :
        (left : ℕ) (w : World S)
        → ((e : Error) × ((attempts net cfg (suc left) op m path body out w).0 ≡ err e))
          × ((attempts net cfg (suc left) op m path body out w).1.sent
              ≡ replicate (suc left) (make_request cfg m path body) ++ w.sent)
    unfolding attempts
    attempts_exhausted zero w =
        let d = do_once net cfg m path body out w in
        let (again, (e, bad), sent) = do_once_transient m path body out w fine (down w.net) in
        let (same, log) =
          conclude_last op (attempts net cfg zero op m path body out) e true d.0.retry_after d.1 in
        rw (bad, again) ((e, same), log ∙ sent)
    attempts_exhausted (suc left) w =
        let d = do_once net cfg m path body out w in
        let (again, (e, bad), sent) = do_once_transient m path body out w fine (down w.net) in
        let retry : M S A = attempts net cfg (suc left) op m path body out in
        let (v, step, same) =
          conclude_retry op (suc left == 0) retry e d.0.retry_after d.1 (ground arith)
            (patient _ _) in
        let ((e', failed'), log) = attempts_exhausted left v in
        rw (bad, again)
          (
            (e', ap (λ p. p.0) step ∙ failed'),
            ap (λ p. p.1.sent) step
                ∙ (log
                    ∙ (ap (λ l. replicate (suc left) (make_request cfg m path body) ++ l)
                          (same ∙ sent)
                        ∙ replicate-cons (suc left) (make_request cfg m path body) w.sent)),
          )

    -- A server that answers 429 or 5xx to every request, or is not reached, gets the request three
    -- times, while no wait is cut short, and the call fails.
    pub do_request_exhausted :
        (w : World S)
        → ((e : Error) × ((do_request net cfg op m path body out w).0 ≡ err e))
          × ((do_request net cfg op m path body out w).1.sent
              ≡ replicate 3 (make_request cfg m path body) ++ w.sent)
    unfolding do_request
    do_request_exhausted w = attempts_exhausted 2 w
