-- ===== src/Invoice/Issued.antt =====
-- What `IssueNFSe` sends, and where its result comes from.
use integration_nfeio.Base.{
  String, true, false, Option, none, some, pos, eq_int, ◌≡◌, ◌≢◌, refl, ap, sym, ◌∙◌, ◌⊎◌, inl, inr,
  arith, Bool-cases, eq_str, ne_of_eq-false,
}
use integration_nfeio.Json.{obj}
use integration_nfeio.Floats.{Floats}
use integration_nfeio.Config.{Config}
use integration_nfeio.Http.{post_method, Response, Net, api, Result, ok, err, World}
use integration_nfeio.Client.{make_request, do_request, into, read_body, is_success, api_error_of}
use integration_nfeio.Client.Answers.{Replied, do_request-eq-ok, do_request-eq-api}
use integration_nfeio.Client.Errors.{api_error_of-raw_body}
use integration_nfeio.Template.{MunicipioTemplate, Templates, find_template}
use integration_nfeio.Invoice.{
  IssueInput, Invoice, company_of, invoices_path, decode_invoice, no_invoice, invoice_body,
  duplicate_of, issue_outcome, issue_with, issue_nfse,
}

module _ {F : Type 0} (floats : Floats F) {S : Type 0} (net : Net S) (cfg : Config) where
  -- The invoice `out` is what the provider's last answer to the POST holds: a 2xx, or an answer
  -- that carries 409 and the invoice that exists already.
  pub record IsIssued (tpl : MunicipioTemplate F) (in' : IssueInput F) (out : Invoice F)
      (w : World S) : Type 0 where
    pub company : company_of cfg in'.company_id ≢ ""
    pub response : Response
    pub replied :
        Replied net
          (make_request cfg post_method
            (invoices_path (company_of cfg in'.company_id))
            (some (obj (invoice_body floats tpl in'))))
          response
          w
    pub outcome :
        ((is_success response.status ≡ true)
          × (read_body (into (decode_invoice floats) (no_invoice floats)) response.body ≡ ok out))
        ⊎ ((is_success response.status ≡ false)
            × ((api_error_of response).status ≡ pos 409)
            × (out ≡ duplicate_of floats response.body))

  module _ (op : String) where
    post_invoice-IsIssued :
        (tpl : MunicipioTemplate F) (in' : IssueInput F) (w : World S)
        (p : Result (Invoice F) × World S) {out : Invoice F}
        → company_of cfg in'.company_id ≢ ""
        → do_request net cfg op post_method
            (invoices_path (company_of cfg in'.company_id))
            (some (obj (invoice_body floats tpl in')))
            (into (decode_invoice floats) (no_invoice floats))
            w
          ≡ p
        → (issue_outcome floats p).0 ≡ ok out
        → IsIssued tpl in' out (issue_outcome floats p).1
    post_invoice-IsIssued tpl in' w (ok a, v) {out} company e h =
        let (r, replied, success, read) =
          do_request-eq-ok net cfg op post_method (invoices_path (company_of cfg in'.company_id))
            (some (obj (invoice_body floats tpl in')))
            (into (decode_invoice floats) (no_invoice floats)) w {a = a} (ap (λ q. q.0) e) in
        record {
          company = company;
          response = r;
          replied = rw (ap (λ q. q.1) e) at replied;
          outcome = inl (success, read ∙ h);
        }
    post_invoice-IsIssued tpl in' w (err (api x), v) {out} company e h =
        elim (Bool-cases (eq_int x.status (pos 409))) [
          | inr other ↦ absurd (ground arith)
          | inl conflict ↦
              let (r, replied, bad, made) =
                do_request-eq-api net cfg op post_method
                  (invoices_path (company_of cfg in'.company_id))
                  (some (obj (invoice_body floats tpl in')))
                  (into (decode_invoice floats) (no_invoice floats)) w {e = x} (ap (λ q. q.0) e) in
              let status : x.status ≡ pos 409 = ground arith in
              let result : duplicate_of floats x.raw_body ≡ out = ground arith in
              let body : x.raw_body ≡ r.body =
                ap (λ y. y.raw_body) made ∙ api_error_of-raw_body r in
              rw conflict (record {
                company = company;
                response = r;
                replied = rw (ap (λ q. q.1) e) at replied;
                outcome = inr (
                  bad,
                  sym (ap (λ y. y.status) made) ∙ status,
                  sym result ∙ ap (λ b. duplicate_of floats b) body,
                );
              })
        ]
    post_invoice-IsIssued tpl in' w (err y, v) company e h = absurd (cc)

    issue_with-IsIssued :
        (in' : IssueInput F) (o : Option (MunicipioTemplate F)) (w : World S) {out : Invoice F}
        → (issue_with floats net cfg op in' o w).0 ≡ ok out
        → (tpl : MunicipioTemplate F) × (o ≡ some tpl)
          × IsIssued tpl in' out (issue_with floats net cfg op in' o w).1
    issue_with-IsIssued in' none w h = absurd (cc)
    issue_with-IsIssued in' (some tpl) w {out} h =
        elim (Bool-cases (eq_str (company_of cfg in'.company_id) "")) [
          | inl missing ↦ absurd (ground arith)
          | inr found ↦ (
            tpl,
            refl,
            rw found (
                post_invoice-IsIssued tpl in' w _ {out = out} (ne_of_eq-false _ _ found) refl
                  (rw found at h)),
          )
        ]

    -- Where the operation succeeds, there is a template for the municipality and a company, and the
    -- result is what the last answer to the POST of this invoice holds: the invoice of a 2xx, or,
    -- marked as a duplicate, the one in the body of an answer whose error carries 409.
    pub issue-IsIssued :
        (templates : Templates F) (in' : IssueInput F) (w : World S) {out : Invoice F}
        → (issue_nfse floats net cfg op templates in' w).0 ≡ ok out
        → (tpl : MunicipioTemplate F) × (find_template in'.municipio_code templates ≡ some tpl)
          × IsIssued tpl in' out (issue_nfse floats net cfg op templates in' w).1
    unfolding issue_nfse
    issue-IsIssued templates in' w h =
        issue_with-IsIssued in' (find_template in'.municipio_code templates) w h
