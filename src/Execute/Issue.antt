-- ===== src/Execute/Issue.antt =====
-- `IssueNFSeInput` of adapter.go and `BulkIssueInput` of bulk_issue.go, decoded by their JSON tags.
use integration_nfeio.Base.{String, true, false, List, [], ◌∷◌, pos, eq_str, if◌then◌else◌}
use integration_nfeio.Json.{
  Json, null, arr, Decoder, Decoded, decode_struct, store, keep, read_string, read_int, read_bool,
}
use integration_nfeio.Floats.{Floats, read_float}
use integration_nfeio.Invoice.{IssueInput}
use integration_nfeio.Invoice.Observe.{decode_items}
use integration_nfeio.Bulk.{BulkInput}
use integration_nfeio.Execute.Input.{store_map}

module _ {F : Type 0} (floats : Floats F) (printed : Json → Json) where
  abbrev pub empty_issue_input : IssueInput F
  empty_issue_input = record {
    company_id = "";
    municipio_code = "";
    external_id = "";
    borrower_name = "";
    borrower_ftn = pos 0;
    borrower_mtn = "";
    borrower_tax_regime = "";
    borrower_addr = null;
    borrower_email = "";
    service_amount = floats.zero;
    description = "";
    issued_on = "";
    rps_serial_number = "";
    additional_info = "";
    deductions_amount = floats.zero;
    discount_unconditioned_amount = floats.zero;
  }

  abbrev issue_input_fields : List String
  issue_input_fields =
      "company_id" ∷ "municipio_code" ∷ "external_id" ∷ "borrower_name"
      ∷ "borrower_federal_tax_number" ∷ "borrower_municipal_tax_number" ∷ "borrower_tax_regime"
      ∷ "borrower_address" ∷ "borrower_email" ∷ "service_amount" ∷ "description" ∷ "issued_on"
      ∷ "rps_serial_number" ∷ "additional_information" ∷ "deductions_amount"
      ∷ "discount_unconditioned_amount" ∷ []

  abbrev set_issue_input : String → Json → IssueInput F → Decoded (IssueInput F)
  set_issue_input n v x =
      if eq_str n "company_id"
      then store (read_string v) (λ s. record x { company_id = s }) x
      else if eq_str n "municipio_code"
      then store (read_string v) (λ s. record x { municipio_code = s }) x
      else if eq_str n "external_id"
      then store (read_string v) (λ s. record x { external_id = s }) x
      else if eq_str n "borrower_name"
      then store (read_string v) (λ s. record x { borrower_name = s }) x
      else if eq_str n "borrower_federal_tax_number"
      then store (read_int v) (λ i. record x { borrower_ftn = i }) x
      else if eq_str n "borrower_municipal_tax_number"
      then store (read_string v) (λ s. record x { borrower_mtn = s }) x
      else if eq_str n "borrower_tax_regime"
      then store (read_string v) (λ s. record x { borrower_tax_regime = s }) x
      else if eq_str n "borrower_address"
      then store_map printed v x.borrower_addr (λ m. record x { borrower_addr = m }) x
      else if eq_str n "borrower_email"
      then store (read_string v) (λ s. record x { borrower_email = s }) x
      else if eq_str n "service_amount"
      then store (read_float floats v) (λ a. record x { service_amount = a }) x
      else if eq_str n "description"
      then store (read_string v) (λ s. record x { description = s }) x
      else if eq_str n "issued_on"
      then store (read_string v) (λ s. record x { issued_on = s }) x
      else if eq_str n "rps_serial_number"
      then store (read_string v) (λ s. record x { rps_serial_number = s }) x
      else if eq_str n "additional_information"
      then store (read_string v) (λ s. record x { additional_info = s }) x
      else if eq_str n "deductions_amount"
      then store (read_float floats v) (λ a. record x { deductions_amount = a }) x
      else store (read_float floats v) (λ a. record x { discount_unconditioned_amount = a }) x

  -- `IssueNFSeInput`.
  unfoldable pub decode_issue_input : Decoder (IssueInput F)
  unfolding decode_struct store_map
  decode_issue_input = decode_struct issue_input_fields set_issue_input

  abbrev pub empty_bulk_input : BulkInput F
  empty_bulk_input = record { company_id = ""; items = []; fail_fast = false }

  abbrev set_bulk_items : Json → BulkInput F → Decoded (BulkInput F)
  set_bulk_items null x = keep (record x { items = [] })
  set_bulk_items (arr vs) x =
      let items = decode_items decode_issue_input empty_issue_input vs in
      record { value = record x { items = items.value }; failed = items.failed }
  set_bulk_items _ x = record { value = x; failed = true }

  abbrev set_bulk_input : String → Json → BulkInput F → Decoded (BulkInput F)
  set_bulk_input n v x =
      if eq_str n "company_id"
      then store (read_string v) (λ s. record x { company_id = s }) x
      else if eq_str n "items"
      then set_bulk_items v x
      else store (read_bool v) (λ b. record x { fail_fast = b }) x

  -- `BulkIssueInput`.
  unfoldable pub decode_bulk_input : Decoder (BulkInput F)
  unfolding decode_struct decode_items decode_issue_input
  decode_bulk_input = decode_struct ("company_id" ∷ "items" ∷ "fail_fast" ∷ []) set_bulk_input
