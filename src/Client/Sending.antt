-- ===== src/Client/Sending.antt =====
-- What a call of `Client.do` sends.
use integration_nfeio.Base.{
  ℕ, zero, suc, ◌≤◌, ◌<◌, String, ◌<>◌, Option-cases, Bool, true, false, Option, ◌∷◌, ◌++◌, ◌≡◌,
  refl, ap, ◌∙◌, ◌⊎◌, inl, inr, ◌||◌, not, arith, Bool-cases, replicate, replicate-cons, ◌==◌,
}
use integration_nfeio.Json.{Json}
use integration_nfeio.Config.{Config}
use integration_nfeio.Http.{
  Method, Request, Reply, failed, answered, Net, Result, ok, err, World, M,
}
use integration_nfeio.Client.{
  make_request, Target, receive, do_once, conclude, count_error, attempts, do_request,
}

module _ {S : Type 0} (net : Net S) (cfg : Config) {A : Type 0} where
  receive-sent :
      (out : Target A) (req : Request) (w : World S) (p : Reply × S)
      → (receive net out req w p).1.sent ≡ req ∷ w.sent
  unfolding receive
  receive-sent out req w (failed e, s) = refl
  receive-sent out req w (answered r, s) = refl

  do_once-sent :
      (m : Method) (path : String) (body : Option Json) (out : Target A) (w : World S)
      → net.url_parses (cfg.base_url <> path) ≡ true
      → (do_once net cfg m path body out w).1.sent ≡ make_request cfg m path body ∷ w.sent
  unfolding do_once
  do_once-sent m path body out w fine = rw fine (receive-sent out _ w _)

  -- A round of the loop ends the call, or goes on with the same log of requests.
  conclude-sent :
      (op : String) (last : Bool) (retry : M S A) (r : Result A) (transient : Bool)
      (retry_after : ℕ) (w : World S)
      → ((conclude net cfg op last retry r transient retry_after w).1.sent ≡ w.sent)
        ⊎ ((v : World S) × (v.sent ≡ w.sent)
            × ((conclude net cfg op last retry r transient retry_after w).1 ≡ (retry v).1)
            × (last ≡ false))
  conclude-sent op last retry (ok b) transient retry_after w = inl refl
  conclude-sent op last retry (err e) transient retry_after w =
      elim (Bool-cases (not transient || last)) [
        | inl stop ↦ inl (rw stop)
        | inr again ↦ elim (Option-cases (net.pause retry_after w.net).0) [
          | inl waited ↦ inr (
            record (count_error net cfg op e w) { net = (net.pause retry_after w.net).1 },
            refl,
            ground arith,
            ground arith,
          )
          | inr (x, broke) ↦ inl (ground arith)
        ]
      ]

  attempts-sent_bad_url :
      (left : ℕ) (op : String) (m : Method) (path : String) (body : Option Json) (out : Target A)
      (w : World S)
      → net.url_parses (cfg.base_url <> path) ≡ false
      → (attempts net cfg left op m path body out w).1.sent ≡ w.sent
  unfolding attempts do_once
  attempts-sent_bad_url zero op m path body out w bad = refl
  attempts-sent_bad_url (suc left) op m path body out w bad = rw bad

  -- Every request of the loop is the same one, and no more are sent than attempts are left.
  pub attempts-sent :
      (left : ℕ) (op : String) (m : Method) (path : String) (body : Option Json) (out : Target A)
      (w : World S)
      → (n : ℕ) × ((attempts net cfg left op m path body out w).1.sent
          ≡ replicate n (make_request cfg m path body) ++ w.sent)
        × (n ≤ left)
        × (net.url_parses (cfg.base_url <> path) ≡ true → 0 < left → 0 < n)
  unfolding attempts
  attempts-sent zero op m path body out w = (0, refl, omega arith, λ _ h. h)
  attempts-sent (suc left) op m path body out w =
      elim (Bool-cases (net.url_parses (cfg.base_url <> path))) [
        | inl fine ↦
            elim (conclude-sent op (left == 0) (attempts net cfg left op m path body out)
              (do_once net cfg m path body out w).0.result _ _
              (do_once net cfg m path body out w).1) [
                | inl e ↦
                    (1, e ∙ do_once-sent m path body out w fine, omega arith, λ _ _. omega arith)
                | inr (v, same, step, _) ↦
                    let (n, sent, most, _) = attempts-sent left op m path body out v in
                    (
                      suc n,
                      ap (λ x. x.sent) step
                          ∙ (sent
                              ∙ (ap (λ l. replicate n (make_request cfg m path body) ++ l)
                                    (same ∙ do_once-sent m path body out w fine)
                                  ∙ replicate-cons n (make_request cfg m path body) w.sent)),
                      omega arith,
                      λ _ _. omega arith,
                    )
              ]
        | inr bad ↦ (
          0,
          attempts-sent_bad_url (suc left) op m path body out w bad,
          omega arith,
          λ fine _. absurd (cc),
        )
      ]

  -- One call of `do` sends between zero and three requests, all of them the request that its
  -- arguments make, and at least one if the URL parses.
  pub do_request-sent :
      (op : String) (m : Method) (path : String) (body : Option Json) (out : Target A) (w : World S)
      → (n : ℕ) × ((do_request net cfg op m path body out w).1.sent
          ≡ replicate n (make_request cfg m path body) ++ w.sent)
        × (n ≤ 3)
        × (net.url_parses (cfg.base_url <> path) ≡ true → 0 < n)
  unfolding do_request
  do_request-sent op m path body out w =
      let (n, sent, most, least) = attempts-sent 3 op m path body out w in
      (n, sent, most, λ fine. least fine (omega arith))
