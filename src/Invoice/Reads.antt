-- ===== src/Invoice/Reads.antt =====
-- The invoice operations that only read.
use integration_nfeio.Base.{String, ◌<>◌, not, eq_str}
use integration_nfeio.Json.{Bytes, Decoded}
use integration_nfeio.Floats.{Floats}
use integration_nfeio.Config.{Config}
use integration_nfeio.Http.{Net, ok, err, message, M}
use integration_nfeio.Client.{into}
use integration_nfeio.Client.Sends.{Sends, Sends-pure}
use integration_nfeio.Client.Reads.{IsGet, Reads, Reads-pure, Reads-if, Reads-after, Reads-get}
use integration_nfeio.Invoice.{
  Selection, DocOutput, company_of, with_company, get_nfse_status, invoice_path, decode_invoice,
  no_invoice,
}
use integration_nfeio.Invoice.Document.{
  get_doc, retrieve_doc, retrieve_pdf, retrieve_xml, require_url,
}
use integration_nfeio.Invoice.Observe.{
  Filter, selected, single, observe_company, observe_filtered, decode_filter,
  observe_service_invoices,
}

module _ {S : Type 0} (net : Net S) (cfg : Config) (op : String) where
  Reads-with_company :
      {A : Type 0} (company_id : String) (k : String → M S A)
      → ((company : String) → Reads (k company))
      → Reads (with_company cfg company_id k)
  Reads-with_company company_id k h =
      Reads-if (eq_str (company_of cfg company_id) "")
        (Reads-pure (err (message "company_id required (no instance default)")))
        (h (company_of cfg company_id))

  require_url-Sends :
      (kind : String) (out : DocOutput) → Sends {S = S} IsGet 0 (require_url kind out)
  require_url-Sends kind out =
      Reads-if (eq_str out.url "")
        (Sends-pure (err (message ("retrieve_" <> (kind <> ": empty documentUrl")))))
        (Sends-pure (ok out))

  get_doc-Reads :
      (in' : Selection) (kind company : String) → Reads (get_doc net cfg op in' kind company)
  get_doc-Reads in' kind company =
      Reads-after (require_url kind) (Reads-get net cfg op _ _) (require_url-Sends kind)

  retrieve_doc-Reads : (in' : Selection) (kind : String) → Reads (retrieve_doc net cfg op in' kind)
  unfolding retrieve_doc
  retrieve_doc-Reads in' kind =
      Reads-with_company in'.company_id (get_doc net cfg op in' kind) (get_doc-Reads in' kind)

  pub retrieve_pdf-Reads : (in' : Selection) → Reads (retrieve_pdf net cfg op in')
  unfolding retrieve_pdf
  retrieve_pdf-Reads in' = retrieve_doc-Reads in' "pdf"

  pub retrieve_xml-Reads : (in' : Selection) → Reads (retrieve_xml net cfg op in')
  unfolding retrieve_xml
  retrieve_xml-Reads in' = retrieve_doc-Reads in' "xml"

  module _ {F : Type 0} (floats : Floats F) where
    get_nfse_status-Reads : (in' : Selection) → Reads (get_nfse_status floats net cfg op in')
    unfolding get_nfse_status
    get_nfse_status-Reads in' = Reads-with_company in'.company_id _ (λ company.
        Reads-get net cfg op (invoice_path company in'.invoice_id)
          (into (decode_invoice floats) (no_invoice floats)))

    observe_company-Reads :
        (in' : Filter) (company : String) → Reads (observe_company floats net cfg op in' company)
    observe_company-Reads in' company =
        Reads-if (not (eq_str (selected in') ""))
          (Reads-after single (get_nfse_status-Reads _) (λ one. Sends-pure (ok _)))
          (Reads-get net cfg op _ _)

    observe_filtered-Reads : (in' : Decoded Filter) → Reads (observe_filtered floats net cfg op in')
    observe_filtered-Reads in' =
        Reads-if in'.failed (Reads-pure (err _))
          (Reads-with_company in'.value.company_id _ (observe_company-Reads in'.value))

    pub observe_service_invoices-Reads :
        (raw : Bytes) → Reads (observe_service_invoices floats net cfg op raw)
    unfolding observe_service_invoices
    observe_service_invoices-Reads raw = observe_filtered-Reads (decode_filter raw)
