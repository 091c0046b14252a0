-- ===== src/Invoice/Observe/Observed.antt =====
-- What a success of `ObserveServiceInvoices` has seen of the provider.
use integration_nfeio.Base.{String, ◌≡◌, ◌≢◌, true, none, [], ◌∷◌}
use integration_nfeio.Floats.{Floats}
use integration_nfeio.Config.{Config}
use integration_nfeio.Http.{get_method, Response, Net, ok, World}
use integration_nfeio.Client.{into, make_request, read_body, is_success}
use integration_nfeio.Client.Answers.{Replied}
use integration_nfeio.Invoice.{
  Invoice, company_of, invoice_path, invoices_path, decode_invoice, no_invoice,
}
use integration_nfeio.Invoice.Observe.{Filter, Page, decode_page, no_page, with_cursor}

-- The invoice that a filter asks for: `invoice_id`, or else its alias `id`.
pub data AsksFor (in' : Filter) : String → Type 0 where
  by_invoice_id : in'.invoice_id ≢ "" → AsksFor in' in'.invoice_id
  by_alias : in'.invoice_id ≡ "" → AsksFor in' in'.id

module _ {F : Type 0} (floats : Floats F) {S : Type 0} (net : Net S) (cfg : Config) where
  -- The last answer was a 2xx to the GET of the invoice that the filter asks for, and the page holds
  -- what it reads as, alone and without a cursor.
  pub record IsLookup (in' : Filter) (out : Page (Invoice F)) (w : World S) : Type 0 where
    invoice : String
    asked : AsksFor in' invoice
    named : invoice ≢ ""
    one : Invoice F
    response : Response
    replied :
        Replied net
          (make_request cfg get_method (invoice_path (company_of cfg in'.company_id) invoice) none)
          response
          w
    success : is_success response.status ≡ true
    read : read_body (into (decode_invoice floats) (no_invoice floats)) response.body ≡ ok one
    alone : out ≡ record { items = one ∷ []; cursor = "" }

  -- The filter names no invoice, the last answer was a 2xx to the GET of the company's invoices from
  -- the filter's cursor on, and the page is what it reads as.
  pub record IsListing (in' : Filter) (out : Page (Invoice F)) (w : World S) : Type 0 where
    without_invoice_id : in'.invoice_id ≡ ""
    without_id : in'.id ≡ ""
    response : Response
    replied :
        Replied net
          (make_request cfg get_method
            (with_cursor (invoices_path (company_of cfg in'.company_id)) in'.cursor)
            none)
          response
          w
    success : is_success response.status ≡ true
    read :
        read_body
          (into (decode_page (decode_invoice floats) (no_invoice floats)) no_page)
          response.body
        ≡ ok out
