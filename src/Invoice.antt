-- ===== src/Invoice.antt =====
-- The service invoice operations of providers/nfeio/adapter/adapter.go: `IssueNFSe`,
-- `GetNFSeStatus`, `CancelNFSe` and `retrieveDoc`.
pub mod Cancel
pub mod Document
pub mod Observe
pub mod Issued
pub mod Reads
use integration_nfeio.Base.{
  String, ◌<>◌, Bool, true, false, not, Option, none, some, List, [], ◌∷◌, ℤ, pos, eq_int, eq_str,
  show_int, if◌then◌else◌,
}
use integration_nfeio.Json.{
  Json, null, num, str, obj, Fields, end, field, insert, Bytes, Decoder, Decoded, decode_struct,
  store, read_string, read_bool, read_int, unmarshal_doc,
}
use integration_nfeio.Floats.{Floats, read_float, float_json}
use integration_nfeio.Config.{Config}
use integration_nfeio.Http.{
  get_method, post_method, put_method, Net, Error, api, message, Result, ok, err, World, M, after,
  fail, ◌>>=◌, return,
}
use integration_nfeio.Client.{into, do_request}
use integration_nfeio.Path.{path_segment}
use integration_nfeio.Template.{MunicipioTemplate, Templates, find_template}

-- `IssueNFSeInput`; the address is the map as it is printed, `null` where it is nil.
pub record IssueInput (F : Type 0) : Type 0 where
  pub company_id : String
  pub municipio_code : String
  pub external_id : String
  pub borrower_name : String
  pub borrower_ftn : ℤ
  pub borrower_mtn : String
  pub borrower_tax_regime : String
  pub borrower_addr : Json
  pub borrower_email : String
  pub service_amount : F
  pub description : String
  pub issued_on : String
  pub rps_serial_number : String
  pub additional_info : String
  pub deductions_amount : F
  pub discount_unconditioned_amount : F

-- `IssueNFSeOutput`.
pub record Invoice (F : Type 0) : Type 0 where
  pub id : String
  pub status : String
  pub flow_status : String
  pub flow_message : String
  pub external_id : String
  pub number : ℤ
  pub check_code : String
  pub iss_tax_amount : F
  pub amount_net : F
  pub created_on : String
  pub duplicate : Bool

-- `GetNFSeStatusInput`, `CancelNFSeInput` and `RetrieveDocInput`.
pub record Selection : Type 0 where
  pub company_id : String
  pub invoice_id : String

pub record CancelOutput : Type 0 where
  pub cancelled : Bool
  pub status : String
  pub flow_message : String

pub record DocOutput : Type 0 where
  pub url : String
  pub expires_at : String

-- `firstNonEmpty`.
unfoldable pub first_non_empty : List String → String
first_non_empty [] = ""
first_non_empty (v ∷ vs) = if not (eq_str v "") then v else first_non_empty vs

-- The company of a call: its own, or the instance's default.
abbrev pub company_of : Config → String → String
company_of cfg company_id = if eq_str company_id "" then cfg.company_id else company_id

-- A call for a company, which there must be.
abbrev pub with_company : {S A : Type 0} → Config → String → (String → M S A) → M S A
with_company cfg company_id k w =
    if eq_str (company_of cfg company_id) ""
    then (err (message "company_id required (no instance default)"), w)
    else k (company_of cfg company_id) w

abbrev pub invoices_path : String → String
invoices_path company = "/v2/companies/" <> (path_segment company <> "/serviceinvoices")

abbrev pub invoice_path : String → String → String
invoice_path company invoice = invoices_path company <> ("/" <> path_segment invoice)

abbrev put_if : Bool → String → Json → Fields → Fields
put_if b k v m = if b then insert k v m else m

abbrev pub int_json : ℤ → Json
int_json n = num (show_int n)

module _ {F : Type 0} (floats : Floats F) where
  abbrev pub no_invoice : Invoice F
  no_invoice = record {
    id = "";
    status = "";
    flow_status = "";
    flow_message = "";
    external_id = "";
    number = pos 0;
    check_code = "";
    iss_tax_amount = floats.zero;
    amount_net = floats.zero;
    created_on = "";
    duplicate = false;
  }

  abbrev invoice_fields : List String
  invoice_fields =
      "id" ∷ "status" ∷ "flow_status" ∷ "flow_message" ∷ "external_id" ∷ "number" ∷ "check_code"
      ∷ "iss_tax_amount" ∷ "amount_net" ∷ "created_on" ∷ "duplicate" ∷ []

  abbrev set_invoice : String → Json → Invoice F → Decoded (Invoice F)
  set_invoice n v x =
      if eq_str n "id"
      then store (read_string v) (λ s. record x { id = s }) x
      else if eq_str n "status"
      then store (read_string v) (λ s. record x { status = s }) x
      else if eq_str n "flow_status"
      then store (read_string v) (λ s. record x { flow_status = s }) x
      else if eq_str n "flow_message"
      then store (read_string v) (λ s. record x { flow_message = s }) x
      else if eq_str n "external_id"
      then store (read_string v) (λ s. record x { external_id = s }) x
      else if eq_str n "number"
      then store (read_int v) (λ i. record x { number = i }) x
      else if eq_str n "check_code"
      then store (read_string v) (λ s. record x { check_code = s }) x
      else if eq_str n "iss_tax_amount"
      then store (read_float floats v) (λ a. record x { iss_tax_amount = a }) x
      else if eq_str n "amount_net"
      then store (read_float floats v) (λ a. record x { amount_net = a }) x
      else if eq_str n "created_on"
      then store (read_string v) (λ s. record x { created_on = s }) x
      else store (read_bool v) (λ b. record x { duplicate = b }) x

  unfoldable pub decode_invoice : Decoder (Invoice F)
  unfolding decode_struct
  decode_invoice = decode_struct invoice_fields set_invoice

  abbrev borrower : IssueInput F → Json
  borrower in' = obj (
      field "name" (str in'.borrower_name) (
        field "federalTaxNumber" (int_json in'.borrower_ftn) (
          field "municipalTaxNumber" (str in'.borrower_mtn) (
            field "taxRegime" (str in'.borrower_tax_regime)
              (field "email" (str in'.borrower_email) (field "address" in'.borrower_addr end))))))

  abbrev required_fields : MunicipioTemplate F → IssueInput F → Fields
  required_fields tpl in' = field "externalId" (str in'.external_id) (
      field "cityServiceCode" (str tpl.service_codes.city_service_code) (
        field "federalServiceCode" (str tpl.service_codes.federal_service_code) (
          field "cnaeCode" (str tpl.service_codes.cnae_code) (
            field "nbsCode" (str tpl.service_codes.nbs_code) (
              field "issRate" (float_json floats tpl.iss.rate) (
                field "taxationType" (str tpl.iss.taxation_type) (
                  field "description" (str in'.description) (
                    field "serviceAmount" (float_json floats in'.service_amount) (
                      field "rpsSerialNumber"
                        (str (
                          first_non_empty
                            (in'.rps_serial_number ∷ tpl.rps_serial_number ∷ "1" ∷ [])))
                        (field "borrower" (borrower in') end))))))))))

  -- The body of the POST.
  unfoldable pub invoice_body : MunicipioTemplate F → IssueInput F → Fields
  unfolding insert first_non_empty
  invoice_body tpl in' =
      let dated =
        put_if (not (eq_str in'.issued_on "")) "issuedOn" (str in'.issued_on)
          (required_fields tpl in') in
      let informed =
        put_if (not (eq_str in'.additional_info "")) "additionalInformation"
          (str in'.additional_info) dated in
      let deducted =
        put_if (floats.less floats.zero in'.deductions_amount) "deductionsAmount"
          (float_json floats in'.deductions_amount) informed in
      put_if (floats.less floats.zero in'.discount_unconditioned_amount)
        "discountUnconditionedAmount" (float_json floats in'.discount_unconditioned_amount) deducted

  -- The existing invoice that a 409 carries.
  abbrev pub duplicate_of : Bytes → Invoice F
  duplicate_of body = record (unmarshal_doc decode_invoice body.doc no_invoice).value {
    duplicate = true;
  }

  abbrev pub issue_outcome :
      {S : Type 0} → Result (Invoice F) × World S → Result (Invoice F) × World S
  issue_outcome (ok out, w) = (ok out, w)
  issue_outcome (err (api e), w) =
      if eq_int e.status (pos 409) then (ok (duplicate_of e.raw_body), w) else (err (api e), w)
  issue_outcome (err e, w) = (err e, w)

  module _ {S : Type 0} (net : Net S) (cfg : Config) (op : String) where
    abbrev pub post_invoice : MunicipioTemplate F → IssueInput F → String → M S (Invoice F)
    post_invoice tpl in' company w = issue_outcome (
        do_request net cfg op post_method (invoices_path company)
          (some (obj (invoice_body tpl in'))) (into decode_invoice no_invoice) w)

    abbrev issue_with : IssueInput F → Option (MunicipioTemplate F) → M S (Invoice F)
    issue_with in' none w =
        (err (message ("template_not_found: municipio_code=" <> in'.municipio_code)), w)
    issue_with in' (some tpl) w = with_company cfg in'.company_id (post_invoice tpl in') w

    -- `IssueNFSe`.
    unfoldable pub issue_nfse : Templates F → IssueInput F → M S (Invoice F)
    unfolding find_template
    issue_nfse templates in' w = issue_with in' (find_template in'.municipio_code templates) w

    -- `GetNFSeStatus`.
    unfoldable pub get_nfse_status : Selection → M S (Invoice F)
    get_nfse_status in' w =
        with_company cfg in'.company_id
          (λ company.
            do_request net cfg op get_method (invoice_path company in'.invoice_id) none
              (into decode_invoice no_invoice))
          w
