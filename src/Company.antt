-- ===== src/Company.antt =====
-- The company operations of providers/nfeio/adapter/adapter.go: `RegisterCompany`, `EnsureCompany`
-- and `ObserveCompanies`.
pub mod Registered
pub mod Reads
use integration_nfeio.Base.{
  String, ◌<>◌, Bool, true, false, not, Option, none, some, List, [], ◌∷◌, map, ℤ, pos, eq_int,
  eq_str, if◌then◌else◌,
}
use integration_nfeio.Json.{
  Json, str, obj, Fields, end, field, insert, Bytes, Decoder, Decoded, decode_struct, store, keep,
  read_string, read_int, unmarshal_doc,
}
use integration_nfeio.Config.{Config}
use integration_nfeio.Http.{
  get_method, post_method, Net, api, message, Result, ok, err, World, M, after,
}
use integration_nfeio.Client.{into, do_request}
use integration_nfeio.Path.{path_segment}
use integration_nfeio.Invoice.{int_json}
use integration_nfeio.Invoice.Observe.{Page, decode_page, no_page, with_cursor}

-- `RegisterCompanyInput`; the address is the map as it is printed.
pub record CompanyInput : Type 0 where
  pub name : String
  pub federal_tax_number : ℤ
  pub trade_name : String
  pub email : String
  pub opening_date : String
  pub tax_regime : String
  pub special_tax_regime : String
  pub municipal_tax_number : String
  pub address : Json
  pub login_name : String
  pub login_password : String
  pub certificate_base64 : String
  pub certificate_password : String

-- `RegisterCompanyOutput`.
pub record Company : Type 0 where
  pub id : String
  pub federal_tax_number : ℤ
  pub name : String
  pub status : String
  pub already_registered : Bool

-- The part of the provider's company that is read.
pub record Raw : Type 0 where
  pub id : String
  pub federal_tax_number : ℤ
  pub name : String
  pub status : String

abbrev pub no_company : Raw
no_company = record { id = ""; federal_tax_number = pos 0; name = ""; status = "" }

abbrev raw_fields : List String
raw_fields = "id" ∷ "federalTaxNumber" ∷ "name" ∷ "status" ∷ []

abbrev set_raw : String → Json → Raw → Decoded Raw
set_raw n v x =
    if eq_str n "id"
    then store (read_string v) (λ s. record x { id = s }) x
    else if eq_str n "federalTaxNumber"
    then store (read_int v) (λ i. record x { federal_tax_number = i }) x
    else if eq_str n "name"
    then store (read_string v) (λ s. record x { name = s }) x
    else store (read_string v) (λ s. record x { status = s }) x

unfoldable pub decode_company : Decoder Raw
unfolding decode_struct
decode_company = decode_struct raw_fields set_raw

-- The output with the fields of the provider's company.
abbrev pub company_output : Bool → Raw → Company
company_output already_registered raw = record {
  id = raw.id;
  federal_tax_number = raw.federal_tax_number;
  name = raw.name;
  status = raw.status;
  already_registered = already_registered;
}

abbrev registration : CompanyInput → Fields
registration in' = field "name" (str in'.name) (
    field "federalTaxNumber" (int_json in'.federal_tax_number) (
      field "tradeName" (str in'.trade_name) (
        field "email" (str in'.email) (
          field "openingDate" (str in'.opening_date) (
            field "taxRegime" (str in'.tax_regime) (
              field "specialTaxRegime" (str in'.special_tax_regime) (
                field "municipalTaxNumber" (str in'.municipal_tax_number) (
                  field "address" in'.address (
                    field "loginName" (str in'.login_name)
                      (field "loginPassword" (str in'.login_password) end))))))))))

-- The body of the POST: the certificate and its password go together.
unfoldable pub company_body : CompanyInput → Fields
unfolding insert
company_body in' =
    if not (eq_str in'.certificate_base64 "")
    then insert "certificatePassword" (str in'.certificate_password)
        (insert "certificateBase64" (str in'.certificate_base64) (registration in'))
    else registration in'

-- The company that a 409 carries.
abbrev pub registered_of : Bytes → Company
registered_of body = company_output true (unmarshal_doc decode_company body.doc no_company).value

abbrev pub register_outcome : {S : Type 0} → Result Raw × World S → Result Company × World S
register_outcome (ok raw, w) = (ok (company_output false raw), w)
register_outcome (err (api e), w) =
    if eq_int e.status (pos 409) then (ok (registered_of e.raw_body), w) else (err (api e), w)
register_outcome (err e, w) = (err e, w)

-- `ObserveCompaniesInput`.
pub record Filter : Type 0 where
  pub federal_tax_number : ℤ
  pub id : String
  pub page_size : ℤ
  pub cursor : String

abbrev pub no_filter : Filter
no_filter = record { federal_tax_number = pos 0; id = ""; page_size = pos 0; cursor = "" }

abbrev set_filter : String → Json → Filter → Decoded Filter
set_filter n v x =
    if eq_str n "federal_tax_number"
    then store (read_int v) (λ i. record x { federal_tax_number = i }) x
    else if eq_str n "id"
    then store (read_string v) (λ s. record x { id = s }) x
    else if eq_str n "page_size"
    then store (read_int v) (λ i. record x { page_size = i }) x
    else store (read_string v) (λ s. record x { cursor = s }) x

unfoldable pub decode_company_filter : Bytes → Decoded Filter
unfolding decode_struct
decode_company_filter raw =
    if eq_str raw.text ""
    then keep no_filter
    else unmarshal_doc
        (decode_struct ("federal_tax_number" ∷ "id" ∷ "page_size" ∷ "cursor" ∷ []) set_filter)
        raw.doc no_filter

abbrev pub one_company : {S : Type 0} → Raw → M S (Page Company)
one_company raw w = (ok (record { items = company_output false raw ∷ []; cursor = "" }), w)

abbrev pub company_page : {S : Type 0} → Page Raw → M S (Page Company)
company_page page w = (
  ok (record { items = map (λ raw. company_output false raw) page.items; cursor = page.cursor }),
  w,
)

module _ {S : Type 0} (net : Net S) (cfg : Config) (op : String) where
  -- `RegisterCompany`.
  unfoldable pub register_company : CompanyInput → M S Company
  register_company in' w = register_outcome (
      do_request net cfg op post_method "/v2/companies" (some (obj (company_body in')))
        (into decode_company no_company) w)

  -- `EnsureCompany`.
  unfoldable pub ensure_company : CompanyInput → M S Company
  unfolding register_company
  ensure_company in' w = register_company in' w

  abbrev observe_filtered : Decoded Filter → M S (Page Company)
  observe_filtered in' w =
      if in'.failed
      then (err (message "observe_companies: parse filter"), w)
      else if not (eq_str in'.value.id "")
      then after one_company (
          do_request net cfg op get_method ("/v2/companies/" <> path_segment in'.value.id) none
            (into decode_company no_company) w)
      else after company_page (
          do_request net cfg op get_method (with_cursor "/v2/companies" in'.value.cursor) none
            (into (decode_page decode_company no_company) no_page) w)

  -- `ObserveCompanies`.
  unfoldable pub observe_companies : Bytes → M S (Page Company)
  unfolding decode_company_filter decode_page
  observe_companies raw w = observe_filtered (decode_company_filter raw) w
