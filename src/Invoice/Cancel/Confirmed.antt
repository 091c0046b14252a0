-- ===== src/Invoice/Cancel/Confirmed.antt =====
-- What a successful destroy of an invoice has seen of the provider.
use integration_nfeio.Base.{
  String, true, none, ◌≡◌, ◌≢◌, ap, sym, ◌∙◌, inl, inr, arith, Bool-cases, eq_str, eq_iff,
  ne_of_eq-false,
}
use integration_nfeio.Config.{Config}
use integration_nfeio.Http.{put_method, Response, Net, ok, World}
use integration_nfeio.Http.Yields.{after-ok}
use integration_nfeio.Client.{make_request, do_request, into, read_body, is_success}
use integration_nfeio.Client.Answers.{Replied, do_request-eq-ok}
use integration_nfeio.Invoice.{Selection, CancelOutput, company_of}
use integration_nfeio.Invoice.Cancel.{
  Cancellation, no_cancellation, decode_cancellation, cancel_path, cancel_output, read_cancellation,
  confirm, cancel_nfse, destroy_service_invoice,
}

confirm-ok :
    {S : Type 0} (ref : String) (out : CancelOutput) (w : World S)
    → (confirm ref out w).0 ≡ ok tt
    → (out.cancelled ≡ true) × ((confirm ref out w).1 ≡ w)
confirm-ok ref out w h = elim (Bool-cases out.cancelled) [
  | inl agreed ↦ (agreed, rw agreed)
  | inr refused ↦ absurd (ground arith)
]

cancelled_lem :
    (raw : Cancellation) (out : CancelOutput)
    → cancel_output raw ≡ out
    → out.cancelled ≡ true
    → raw.status ≡ "Cancelled"
cancelled_lem raw out made agreed =
    let same : eq_str raw.status "Cancelled" ≡ true = ap (λ o. o.cancelled) made ∙ agreed in
    ground (arith, eq_iff raw.status "Cancelled")

module _ {S : Type 0} (net : Net S) (cfg : Config) where
  -- The provider's last answer was a 2xx to the cancel request of this invoice, and it reads as `raw`.
  pub record IsAnswered (company_id invoice_id : String) (raw : Cancellation) (w : World S)
      : Type 0 where
    pub company : company_of cfg company_id ≢ ""
    pub response : Response
    pub replied :
        Replied net
          (make_request cfg put_method (cancel_path (company_of cfg company_id) invoice_id) none)
          response
          w
    pub success : is_success response.status ≡ true
    pub read : read_body (into decode_cancellation no_cancellation) response.body ≡ ok raw

  module _ (op : String) where
    cancel_nfse-IsAnswered :
        (in' : Selection) (w : World S) {out : CancelOutput}
        → (cancel_nfse net cfg op in' w).0 ≡ ok out
        → (raw : Cancellation) × (cancel_output raw ≡ out)
          × IsAnswered in'.company_id in'.invoice_id raw (cancel_nfse net cfg op in' w).1
    unfolding cancel_nfse
    cancel_nfse-IsAnswered in' w {out} h =
        elim (Bool-cases (eq_str (company_of cfg in'.company_id) "")) [
          | inl missing ↦ absurd (ground arith)
          | inr found ↦
              let sent =
                do_request net cfg op put_method
                  (cancel_path (company_of cfg in'.company_id) in'.invoice_id) none
                  (into decode_cancellation no_cancellation) w in
              let (raw, v, step, result, same) =
                after-ok read_cancellation sent {b = out} (rw found at h) in
              let (r, replied, success, read) =
                do_request-eq-ok net cfg op put_method
                  (cancel_path (company_of cfg in'.company_id) in'.invoice_id) none
                  (into decode_cancellation no_cancellation) w {a = raw} (ap (λ p. p.0) step) in
              let made : cancel_output raw ≡ out = ground arith in
              (
                raw,
                made,
                rw (found, same)
                    (record {
                      company = ne_of_eq-false _ _ found;
                      response = r;
                      replied = rw (ap (λ p. p.1) step) at replied;
                      success = success;
                      read = read;
                    }),
              )
        ]

    -- Where the destroy operation of an invoice succeeds, its ref is not empty, a company is known,
    -- and the provider's last answer was a 2xx to the cancel request of that invoice with the status
    -- Cancelled.
    pub destroy-IsCancelled :
        (ref company_id : String) (w : World S)
        → (destroy_service_invoice net cfg op ref company_id w).0 ≡ ok tt
        → (ref ≢ "")
          × ((raw : Cancellation) × (raw.status ≡ "Cancelled")
              × IsAnswered company_id ref raw
                  (destroy_service_invoice net cfg op ref company_id w).1)
    unfolding destroy_service_invoice
    destroy-IsCancelled ref company_id w h = elim (Bool-cases (eq_str ref "")) [
      | inl missing ↦ absurd (ground arith)
      | inr named ↦
          let in' : Selection = record { company_id = company_id; invoice_id = ref } in
          let (out, v, step, result, same) =
            after-ok (confirm ref) (cancel_nfse net cfg op in' w) {b = tt} (rw named at h) in
          let (raw, made, answered) =
            cancel_nfse-IsAnswered in' w {out = out} (ap (λ p. p.0) step) in
          let (agreed, still) = confirm-ok ref out v result in
          let status : raw.status ≡ "Cancelled" = cancelled_lem raw out made agreed in
          let world = same ∙ (still ∙ sym (ap (λ p. p.1) step)) in
          (ne_of_eq-false _ _ named, (raw, status, rw (named, world) answered))
    ]
