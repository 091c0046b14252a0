-- ===== src/Company/Registered.antt =====
-- Where the result of `EnsureCompany` comes from.
use integration_nfeio.Base.{
  true, false, some, pos, eq_int, String, ◌≡◌, refl, ap, sym, ◌∙◌, ◌⊎◌, inl, inr, arith, Bool-cases,
}
use integration_nfeio.Json.{obj}
use integration_nfeio.Config.{Config}
use integration_nfeio.Http.{post_method, Response, Net, api, Result, ok, err, World}
use integration_nfeio.Client.{make_request, do_request, into, read_body, is_success, api_error_of}
use integration_nfeio.Client.Answers.{Replied, do_request-eq-ok, do_request-eq-api}
use integration_nfeio.Client.Errors.{api_error_of-raw_body}
use integration_nfeio.Company.{
  CompanyInput, Company, Raw, no_company, decode_company, company_output, company_body,
  registered_of, register_outcome, ensure_company,
}

module _ {S : Type 0} (net : Net S) (cfg : Config) where
  -- The company `out` is what the provider's last answer to the POST holds.
  pub record IsRegistered (in' : CompanyInput) (out : Company) (w : World S) : Type 0 where
    pub response : Response
    pub replied :
        Replied net
          (make_request cfg post_method "/v2/companies" (some (obj (company_body in'))))
          response
          w
    pub outcome :
        ((is_success response.status ≡ true)
          × ((raw : Raw) × (read_body (into decode_company no_company) response.body ≡ ok raw)
              × (out ≡ company_output false raw)))
        ⊎ ((is_success response.status ≡ false)
            × ((api_error_of response).status ≡ pos 409)
            × (out ≡ registered_of response.body))

  module _ (op : String) where
    register_outcome-IsRegistered :
        (in' : CompanyInput) (w : World S) (p : Result Raw × World S) {out : Company}
        → do_request net cfg op post_method "/v2/companies"
            (some (obj (company_body in')))
            (into decode_company no_company)
            w
          ≡ p
        → (register_outcome p).0 ≡ ok out
        → IsRegistered in' out (register_outcome p).1
    register_outcome-IsRegistered in' w (ok raw, v) {out} e h =
        let (r, replied, success, read) =
          do_request-eq-ok net cfg op post_method "/v2/companies" (some (obj (company_body in')))
            (into decode_company no_company) w {a = raw} (ap (λ q. q.0) e) in
        let result : out ≡ company_output false raw = ground arith in
        record {
          response = r;
          replied = rw (ap (λ q. q.1) e) at replied;
          outcome = inl (success, (raw, read, result));
        }
    register_outcome-IsRegistered in' w (err (api x), v) {out} e h =
        elim (Bool-cases (eq_int x.status (pos 409))) [
          | inr other ↦ absurd (ground arith)
          | inl conflict ↦
              let (r, replied, bad, made) =
                do_request-eq-api net cfg op post_method "/v2/companies"
                  (some (obj (company_body in'))) (into decode_company no_company) w {e = x}
                  (ap (λ q. q.0) e) in
              let status : x.status ≡ pos 409 = ground arith in
              let result : registered_of x.raw_body ≡ out = ground arith in
              let body = ap (λ y. y.raw_body) made ∙ api_error_of-raw_body r in
              rw conflict (record {
                response = r;
                replied = rw (ap (λ q. q.1) e) at replied;
                outcome = inr (
                  bad,
                  sym (ap (λ y. y.status) made) ∙ status,
                  sym result ∙ ap registered_of body,
                );
              })
        ]
    register_outcome-IsRegistered in' w (err y, v) e h = absurd (cc)

    -- Where EnsureCompany succeeds, the result is what the last answer to its POST holds: the
    -- company of a 2xx, or, marked as already registered, the one in the body of an answer whose
    -- error carries 409.
    pub ensure-IsRegistered :
        (in' : CompanyInput) (w : World S) {out : Company}
        → (ensure_company net cfg op in' w).0 ≡ ok out
        → IsRegistered in' out (ensure_company net cfg op in' w).1
    unfolding ensure_company
    ensure-IsRegistered in' w h =
        register_outcome-IsRegistered in' w
          (do_request net cfg op post_method "/v2/companies" (some (obj (company_body in')))
            (into decode_company no_company) w)
          refl h
