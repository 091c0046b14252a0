-- ===== src/Invoice/Document/Retrieved.antt =====
-- What a success of `retrieveDoc` has seen of the provider.
use integration_nfeio.Base.{
  String, ◌<>◌, none, ◌≡◌, ◌≢◌, ap, sym, ◌∙◌, inl, inr, arith, Bool-cases, eq_str, ne_of_eq-false,
  true,
}
use integration_nfeio.Config.{Config}
use integration_nfeio.Http.{get_method, Response, Net, ok, World}
use integration_nfeio.Http.Yields.{after-ok}
use integration_nfeio.Client.{make_request, do_request, into, read_body, is_success}
use integration_nfeio.Client.Answers.{Replied, do_request-eq-ok}
use integration_nfeio.Invoice.{Selection, DocOutput, company_of, invoice_path}
use integration_nfeio.Invoice.Document.{no_document, decode_doc, require_url, retrieve_doc}

abbrev pub doc_path : Config → Selection → String → String
doc_path cfg in' kind = invoice_path (company_of cfg in'.company_id) in'.invoice_id <> ("/" <> kind)

-- The provider's last answer was a 2xx to the GET of the document, and it reads as `out`.
pub record IsRetrieved {S : Type 0} (net : Net S) (cfg : Config) (in' : Selection) (kind : String)
    (out : DocOutput) (w : World S) : Type 0 where
  pub response : Response
  pub replied : Replied net (make_request cfg get_method (doc_path cfg in' kind) none) response w
  pub success : is_success response.status ≡ true
  pub read : read_body (into decode_doc no_document) response.body ≡ ok out
  pub addressed : out.url ≢ ""

require_url-ok :
    {S : Type 0} (kind : String) (a : DocOutput) (w : World S) {out : DocOutput}
    → (require_url kind a w).0 ≡ ok out
    → (a ≡ out) × (a.url ≢ "") × ((require_url kind a w).1 ≡ w)
require_url-ok kind a w h = elim (Bool-cases (eq_str a.url "")) [
  | inl empty ↦ absurd (ground arith)
  | inr full ↦ (ground arith, ne_of_eq-false _ _ full, rw full)
]

module _ {S : Type 0} (net : Net S) (cfg : Config) (op : String) where
  -- Where a document is retrieved, the last answer was a 2xx to the GET of that kind of document of
  -- the invoice, the result is what its body decodes to, and the address is not empty.
  pub retrieve-IsRetrieved :
      (in' : Selection) (kind : String) (w : World S) {out : DocOutput}
      → (retrieve_doc net cfg op in' kind w).0 ≡ ok out
      → IsRetrieved net cfg in' kind out (retrieve_doc net cfg op in' kind w).1
  unfolding retrieve_doc
  retrieve-IsRetrieved in' kind w {out} h =
      elim (Bool-cases (eq_str (company_of cfg in'.company_id) "")) [
        | inl missing ↦ absurd (ground arith)
        | inr found ↦
            let sent =
              do_request net cfg op get_method (doc_path cfg in' kind) none
                (into decode_doc no_document) w in
            let (a, v, step, result, same) =
              after-ok (require_url kind) sent {b = out} (rw found at h) in
            let (equal, full, still) = require_url-ok kind a v result in
            let (r, replied, success, read) =
              do_request-eq-ok net cfg op get_method (doc_path cfg in' kind) none
                (into decode_doc no_document) w {a = a} (ap (λ p. p.0) step) in
            let world = same ∙ (still ∙ sym (ap (λ p. p.1) step)) in
            rw (found, world)
              (record {
                response = r;
                replied = replied;
                success = success;
                read = read ∙ ap ok equal;
                addressed = rw equal at full;
              })
      ]
