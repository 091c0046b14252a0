-- ===== src/Invoice/Document.antt =====
-- `retrieveDoc` of adapter.go, behind `RetrievePDF` and `RetrieveXML`.
pub mod Retrieved
use integration_nfeio.Base.{
  String, ◌<>◌, Option, none, List, [], ◌∷◌, eq_str, if◌then◌else◌, ◌≡◌, ◌≢◌, refl, ap, inl, inr,
  arith, Bool-cases, ne_of_eq-false,
}
use integration_nfeio.Json.{Json, Decoder, Decoded, decode_struct, store, read_string}
use integration_nfeio.Config.{Config}
use integration_nfeio.Http.{get_method, Net, message, Result, ok, err, World, M, after}
use integration_nfeio.Http.Yields.{after-ok}
use integration_nfeio.Client.{into, do_request}
use integration_nfeio.Invoice.{Selection, DocOutput, invoice_path, with_company, company_of}

abbrev no_document : DocOutput
no_document = record { url = ""; expires_at = "" }

abbrev document_fields : List String
document_fields = "documentUrl" ∷ "expiresAt" ∷ []

abbrev set_document : String → Json → DocOutput → Decoded DocOutput
set_document n v x =
    if eq_str n "documentUrl"
    then store (read_string v) (λ s. record x { url = s }) x
    else store (read_string v) (λ s. record x { expires_at = s }) x

unfoldable pub decode_doc : Decoder DocOutput
unfolding decode_struct
decode_doc = decode_struct document_fields set_document

abbrev pub require_url : {S : Type 0} → String → DocOutput → M S DocOutput
require_url kind out w =
    if eq_str out.url ""
    then (err (message ("retrieve_" <> (kind <> ": empty documentUrl"))), w)
    else (ok out, w)

module _ {S : Type 0} (net : Net S) (cfg : Config) (op : String) where
  abbrev pub get_doc : Selection → String → String → M S DocOutput
  get_doc in' kind company w = after (require_url kind) (
      do_request net cfg op get_method (invoice_path company in'.invoice_id <> ("/" <> kind)) none
        (into decode_doc no_document) w)

  -- `retrieveDoc`.
  unfoldable pub retrieve_doc : Selection → String → M S DocOutput
  retrieve_doc in' kind w = with_company cfg in'.company_id (get_doc in' kind) w

  -- `RetrievePDF` and `RetrieveXML`.
  unfoldable pub retrieve_pdf : Selection → M S DocOutput
  unfolding retrieve_doc
  retrieve_pdf in' = retrieve_doc in' "pdf"

  unfoldable pub retrieve_xml : Selection → M S DocOutput
  unfolding retrieve_doc
  retrieve_xml in' = retrieve_doc in' "xml"
