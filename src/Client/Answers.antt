-- ===== src/Client/Answers.antt =====
-- Where the result of a call of `Client.do` comes from.
use integration_nfeio.Base.{
  ℕ, zero, suc, String, Bool, true, false, Option, ◌≡◌, refl, ap, ◌⊎◌, inl, inr, ◌||◌, not, arith,
  Bool-cases, ◌==◌,
}
use integration_nfeio.Json.{Json}
use integration_nfeio.Config.{Config}
use integration_nfeio.Http.{
  Method, Request, Response, Reply, failed, answered, Net, ApiError, api, new_request, Result, ok,
  err, World, M,
}
use integration_nfeio.Client.{
  make_request, Target, discard, into, read_body, is_success, api_error_of, receive, do_once,
  conclude, count_error, attempts, do_request, max_attempts,
}

-- A request was answered by `r`, in the last round trip that the world `w'` has seen.
abbrev pub Replied : {S : Type 0} → Net S → Request → Response → World S → Type 0
Replied {S} net req r w' = (s : S) × (net.send req s ≡ (answered r, w'.net))

module _ {S : Type 0} (net : Net S) (cfg : Config) {A : Type 0} where
  conclude-eq-ok :
      (op : String) (last : Bool) (retry : M S A) (r : Result A) (transient : Bool)
      (retry_after : ℕ) (w w' : World S) {a : A}
      → conclude net cfg op last retry r transient retry_after w ≡ (ok a, w')
      → ((r ≡ ok a) × (w ≡ w')) ⊎ ((v : World S) × (retry v ≡ (ok a, w')))
  conclude-eq-ok op last retry (ok b) transient retry_after w w' h = inl (ap result h, ap world h)
    where
      result : Result A × World S → Result A
      result p = p.0

      world : Result A × World S → World S
      world p = p.1
  conclude-eq-ok op last retry (err e) transient retry_after w w' h =
      inr (
        record (count_error net cfg op e w) { net = (net.pause retry_after w.net).1 },
        ground arith,
      )

  receive-eq-ok :
      (out : Target A) (req : Request) (w : World S) (p : Reply × S) {a : A}
      → (receive net out req w p).0.result ≡ ok a
      → (r : Response) × (p ≡ (answered r, (receive net out req w p).1.net))
        × (is_success r.status ≡ true)
        × (read_body out r.body ≡ ok a)
  unfolding receive
  receive-eq-ok out req w (failed e, s) h = cc
  receive-eq-ok out req w (answered r, s) h = (r, refl, ground arith, ground arith)

  do_once-eq-ok :
      (m : Method) (path : String) (body : Option Json) (out : Target A) (w : World S) {a : A}
      → (do_once net cfg m path body out w).0.result ≡ ok a
      → (r : Response) × Replied net
          (make_request cfg m path body)
          r
          (do_once net cfg m path body out w).1
        × (is_success r.status ≡ true)
        × (read_body out r.body ≡ ok a)
  unfolding do_once
  do_once-eq-ok m path body out w {a} h =
      elim (Bool-cases (net.url_parses (make_request cfg m path body).url)) [
        | inl fine ↦
            let (r, e, s, b) =
              receive-eq-ok out (make_request cfg m path body) w
                (net.send (make_request cfg m path body) w.net) {a = a} (rw fine at h) in
            rw fine (r, (w.net, e), s, b)
        | inr bad ↦ let contra : err new_request ≡ ok a = rw bad at h in cc
      ]

  -- A call that succeeds ends with a 2xx answer to its request, and returns what that decodes to.
  pub attempts-eq-ok :
      (left : ℕ) (op : String) (m : Method) (path : String) (body : Option Json) (out : Target A)
      (w w' : World S) {a : A}
      → attempts net cfg left op m path body out w ≡ (ok a, w')
      → (r : Response) × Replied net (make_request cfg m path body) r w'
        × (is_success r.status ≡ true)
        × (read_body out r.body ≡ ok a)
  unfolding attempts
  attempts-eq-ok zero op m path body out w w' h = cc
  attempts-eq-ok (suc left) op m path body out w w' h =
      elim (conclude-eq-ok op (left == 0) (attempts net cfg left op m path body out)
        (do_once net cfg m path body out w).0.result _ _ (do_once net cfg m path body out w).1 w'
        h) [
          | inl (e, same) ↦ rw (← same) (do_once-eq-ok m path body out w e)
          | inr (v, again) ↦ attempts-eq-ok left op m path body out v w' again
        ]

  conclude-eq-api :
      (op : String) (last : Bool) (retry : M S A) (r : Result A) (transient : Bool)
      (retry_after : ℕ) (w w' : World S) {e : ApiError}
      → conclude net cfg op last retry r transient retry_after w ≡ (err (api e), w')
      → ((r ≡ err (api e)) × (w.net ≡ w'.net)) ⊎ ((v : World S) × (retry v ≡ (err (api e), w')))
  conclude-eq-api op last retry (ok b) transient retry_after w w' h = cc
  conclude-eq-api op last retry (err e) transient retry_after w w' h =
      elim (Bool-cases (not transient || last)) [
        | inl stop ↦ inl (ground arith)
        | inr again ↦ inr (
          record (count_error net cfg op e w) { net = (net.pause retry_after w.net).1 },
          ground arith,
        )
      ]

  receive-eq-api :
      (out : Target A) (req : Request) (w : World S) (p : Reply × S) {e : ApiError}
      → (receive net out req w p).0.result ≡ err (api e)
      → (r : Response) × (p ≡ (answered r, (receive net out req w p).1.net))
        × (is_success r.status ≡ false)
        × (e ≡ api_error_of r)
  unfolding receive
  receive-eq-api out req w (failed x, s) h = cc
  receive-eq-api (discard a) req w (answered r, s) h = (r, refl, ground arith, ground arith)
  receive-eq-api (into dec a) req w (answered r, s) h = (r, refl, ground arith, ground arith)

  do_once-eq-api :
      (m : Method) (path : String) (body : Option Json) (out : Target A) (w : World S)
      {e : ApiError}
      → (do_once net cfg m path body out w).0.result ≡ err (api e)
      → (r : Response) × Replied net
          (make_request cfg m path body)
          r
          (do_once net cfg m path body out w).1
        × (is_success r.status ≡ false)
        × (e ≡ api_error_of r)
  unfolding do_once
  do_once-eq-api m path body out w {e} h =
      elim (Bool-cases (net.url_parses (make_request cfg m path body).url)) [
        | inl fine ↦
            let (r, p, s, b) =
              receive-eq-api out (make_request cfg m path body) w
                (net.send (make_request cfg m path body) w.net) {e = e} (rw fine at h) in
            rw fine (r, (w.net, p), s, b)
        | inr bad ↦
            let contra : ◌≡◌ {A = Result A} (err new_request) (err (api e)) = rw bad at h in cc
      ]

  -- A call that fails with an API error ends with an answer outside 2xx to its request.
  pub attempts-eq-api :
      (left : ℕ) (op : String) (m : Method) (path : String) (body : Option Json) (out : Target A)
      (w w' : World S) {e : ApiError}
      → attempts net cfg left op m path body out w ≡ (err (api e), w')
      → (r : Response) × Replied net (make_request cfg m path body) r w'
        × (is_success r.status ≡ false)
        × (e ≡ api_error_of r)
  unfolding attempts
  attempts-eq-api zero op m path body out w w' h = cc
  attempts-eq-api (suc left) op m path body out w w' h =
      elim (conclude-eq-api op (left == 0) (attempts net cfg left op m path body out)
        (do_once net cfg m path body out w).0.result _ _ (do_once net cfg m path body out w).1 w'
        h) [
          | inl (e, same) ↦ rw (← same) (do_once-eq-api m path body out w e)
          | inr (v, again) ↦ attempts-eq-api left op m path body out v w' again
        ]

  -- Where `do` succeeds, the last round trip answered its request with 2xx, and the result is what
  -- that answer's body decodes to.
  pub do_request-eq-ok :
      (op : String) (m : Method) (path : String) (body : Option Json) (out : Target A) (w : World S)
      {a : A}
      → (do_request net cfg op m path body out w).0 ≡ ok a
      → (r : Response) × Replied net
          (make_request cfg m path body)
          r
          (do_request net cfg op m path body out w).1
        × (is_success r.status ≡ true)
        × (read_body out r.body ≡ ok a)
  unfolding do_request
  do_request-eq-ok op m path body out w {a} h =
      let v = attempts net cfg max_attempts op m path body out w in
      attempts-eq-ok 3 op m path body out w v.1 {a = a} (ap (λ r. (r, v.1)) h)

  -- Where `do` fails with an API error, the last round trip answered its request outside 2xx, and
  -- the error is made of that answer.
  pub do_request-eq-api :
      (op : String) (m : Method) (path : String) (body : Option Json) (out : Target A) (w : World S)
      {e : ApiError}
      → (do_request net cfg op m path body out w).0 ≡ err (api e)
      → (r : Response) × Replied net
          (make_request cfg m path body)
          r
          (do_request net cfg op m path body out w).1
        × (is_success r.status ≡ false)
        × (e ≡ api_error_of r)
  unfolding do_request
  do_request-eq-api op m path body out w {e} h =
      let v = attempts net cfg max_attempts op m path body out w in
      attempts-eq-api 3 op m path body out w v.1 {e = e} (ap (λ r. (r, v.1)) h)
