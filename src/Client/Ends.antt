-- ===== src/Client/Ends.antt =====
-- The loop of `Client.do` ends by itself: its last line, "unreachable", is not reached.
use integration_nfeio.Base.{
  ℕ, zero, suc, ◌==◌, String, ◌<>◌, Bool, true, false, Option, none, some, ◌≡◌, ◌≢◌, inl, inr,
  arith, Bool-cases, not, ◌||◌, leb, eq_str,
}
use integration_nfeio.Json.{Json, unmarshal_doc}
use integration_nfeio.Config.{Config}
use integration_nfeio.Http.{
  Method, Request, Response, NetError, Reply, failed, answered, Net, Error, api, http_do, ctx_done,
  new_request, decode, unreachable, Result, ok, err, World, M,
}
use integration_nfeio.Client.{
  Target, discard, into, read_body, is_success, classify, receive, do_once, conclude, resume,
  count_error, attempts, do_request,
}

-- Not the error of the line after the loop.
abbrev Ended : {A : Type 0} → Result A → Type 0
Ended (ok a) = Unit
Ended (err unreachable) = ⊥
Ended (err _) = Unit

Ended-ne : {A : Type 0} (r : Result A) → Ended r → r ≢ err unreachable
Ended-ne (ok a) h e = cc
Ended-ne (err unreachable) h e = h
Ended-ne (err (api x)) h e = cc
Ended-ne (err (http_do x)) h e = cc
Ended-ne (err (ctx_done x)) h e = cc
Ended-ne (err new_request) h e = cc
Ended-ne (err decode) h e = cc
Ended-ne (err (Error.message x)) h e = cc
Ended-ne (err (Error.provider_status x y)) h e = cc
Ended-ne (err (Error.cancellation_pending x y z)) h e = cc

read_body-Ended : {A : Type 0} (out : Target A) (r : Response) → Ended (read_body out r.body)
unfolding read_body
read_body-Ended (discard a) r = tt
read_body-Ended (into dec a) r = elim (Bool-cases (eq_str r.body.text "")) [
  | inl empty ↦ rw empty tt
  | inr full ↦ elim (Bool-cases (unmarshal_doc dec r.body.doc a).failed) [
    | inl bad ↦ rw (full, bad) tt
    | inr fine ↦ rw (full, fine) tt
  ]
]

module _ {S : Type 0} (net : Net S) (cfg : Config) {A : Type 0} where
  classify-Ended : (out : Target A) (r : Response) (s : S) → Ended (classify net out r s).result
  unfolding classify
  classify-Ended out r s = elim (Bool-cases (is_success r.status)) [
    | inl fine ↦ rw fine (read_body-Ended out r)
    | inr bad ↦ elim (Bool-cases (r.status == 429)) [
      | inl limited ↦ rw (bad, limited) tt
      | inr other ↦ elim (Bool-cases (leb 500 r.status)) [
        | inl broken ↦ rw (bad, other, broken) tt
        | inr final ↦ rw (bad, other, final) tt
      ]
    ]
  ]

  do_once-Ended :
      (m : Method) (path : String) (body : Option Json) (out : Target A) (w : World S)
      → Ended (do_once net cfg m path body out w).0.result
  unfolding do_once
  do_once-Ended m path body out w = elim (Bool-cases (net.url_parses (cfg.base_url <> path))) [
    | inl fine ↦ rw fine (received _ (net.send _ w.net))
    | inr bad ↦ rw bad tt
  ]
    where
      received : (req : Request) (p : Reply × S) → Ended (receive net out req w p).0.result
      received req (failed e, s) = unfold receive in tt
      received req (answered r, s) = unfold receive in classify-Ended out r s

  resume-Ended :
      (w : World S) (p : Option NetError × S) (retry : M S A)
      → ((v : World S) → Ended (retry v).0)
      → Ended (resume net cfg w p retry).0
  resume-Ended w (none, s) retry h = h _
  resume-Ended w (some e, s) retry h = tt

  conclude-Ended :
      (op : String) (last : Bool) (retry : M S A) (r : Result A) (transient : Bool)
      (retry_after : ℕ) (w : World S)
      → Ended r
      → (last ≡ false → (v : World S) → Ended (retry v).0)
      → Ended (conclude net cfg op last retry r transient retry_after w).0
  conclude-Ended op last retry (ok a) transient retry_after w h g = tt
  conclude-Ended op last retry (err e) transient retry_after w h g =
      elim (Bool-cases (not transient || last)) [
        | inl stop ↦ rw stop h
        | inr again ↦ rw again (
            resume-Ended (count_error net cfg op e w) (net.pause retry_after w.net) retry
              (g (ground arith)))
      ]

  attempts-Ended :
      (left : ℕ) (op : String) (m : Method) (path : String) (body : Option Json) (out : Target A)
      (w : World S)
      → Ended (attempts net cfg (suc left) op m path body out w).0
  unfolding attempts
  attempts-Ended zero op m path body out w =
      conclude-Ended op true _ _ _ _ _ (do_once-Ended m path body out w) (λ h. absurd (cc))
  attempts-Ended (suc left) op m path body out w =
      let d = do_once net cfg m path body out w in
      conclude-Ended op (suc left == 0) (attempts net cfg (suc left) op m path body out) d.0.result
        d.0.transient d.0.retry_after d.1 (do_once-Ended m path body out w)
        (λ _ v. attempts-Ended left op m path body out v)

  -- Whatever the network does, three rounds are enough for every call: it never falls out of its
  -- loop with a retry still owed.
  pub do_request_ends :
      (op : String) (m : Method) (path : String) (body : Option Json) (out : Target A) (w : World S)
      → (do_request net cfg op m path body out w).0 ≢ err unreachable
  unfolding do_request
  do_request_ends op m path body out w = Ended-ne _ (attempts-Ended 2 op m path body out w)
