-- ===== src/Execute/Input.antt =====
-- The inputs of the operations of adapter.go, bulk_issue.go, list_municipalities.go, tax_calc.go and
-- manage_template.go, decoded by their JSON tags. A list that an object holds twice is its last one.
use integration_nfeio.Base.{String, true, List, [], ◌∷◌, pos, eq_str, if◌then◌else◌}
use integration_nfeio.Json.{
  Json, null, obj, Fields, end, field, insert, Decoder, Decoded, decode_struct, store, keep,
  read_string, read_int,
}
use integration_nfeio.Floats.{Floats, read_float}
use integration_nfeio.Invoice.{Selection}
use integration_nfeio.Company.{CompanyInput}
use integration_nfeio.Municipalities.{ListInput}
use integration_nfeio.Tax.{TaxInput}
use integration_nfeio.Manage.{ManageInput}

abbrev pub empty_selection : Selection
empty_selection = record { company_id = ""; invoice_id = "" }

abbrev set_selection : String → Json → Selection → Decoded Selection
set_selection n v x =
    if eq_str n "company_id"
    then store (read_string v) (λ s. record x { company_id = s }) x
    else store (read_string v) (λ s. record x { invoice_id = s }) x

-- `CancelNFSeInput` and `RetrieveDocInput`.
unfoldable pub decode_selection : Decoder Selection
unfolding decode_struct
decode_selection = decode_struct ("company_id" ∷ "invoice_id" ∷ []) set_selection

abbrev pub empty_list_input : ListInput
empty_list_input = record { state_code = ""; page = pos 0; page_size = pos 0 }

abbrev set_list_input : String → Json → ListInput → Decoded ListInput
set_list_input n v x =
    if eq_str n "state_code"
    then store (read_string v) (λ s. record x { state_code = s }) x
    else if eq_str n "page"
    then store (read_int v) (λ i. record x { page = i }) x
    else store (read_int v) (λ i. record x { page_size = i }) x

-- `ListMunicipalitiesInput`.
unfoldable pub decode_list_input : Decoder ListInput
unfolding decode_struct
decode_list_input = decode_struct ("state_code" ∷ "page" ∷ "page_size" ∷ []) set_list_input

abbrev pub empty_manage_input : ManageInput
empty_manage_input = record { operation = ""; municipio_code = ""; yaml_content = "" }

abbrev set_manage_input : String → Json → ManageInput → Decoded ManageInput
set_manage_input n v x =
    if eq_str n "operation"
    then store (read_string v) (λ s. record x { operation = s }) x
    else if eq_str n "municipio_code"
    then store (read_string v) (λ s. record x { municipio_code = s }) x
    else store (read_string v) (λ s. record x { yaml_content = s }) x

-- `ManageTemplateInput`.
unfoldable pub decode_manage_input : Decoder ManageInput
unfolding decode_struct
decode_manage_input =
    decode_struct ("operation" ∷ "municipio_code" ∷ "yaml_content" ∷ []) set_manage_input

-- A `map[string]any` as it will be printed: `null` is the nil map, and an object is decoded into the
-- map that is there. `printed` is what a value that was decoded into `any` is printed as.
module _ (printed : Json → Json) where
  unfoldable merge_values : Fields → Fields → Fields
  unfolding insert
  merge_values m end = m
  merge_values m (field k v r) = merge_values (insert k (printed v) m) r

  abbrev map_of : Json → Fields
  map_of (obj m) = m
  map_of _ = end

  unfoldable pub store_map : {A : Type 0} → Json → Json → (Json → A) → A → Decoded A
  unfolding merge_values
  store_map null old put x = keep (put null)
  store_map (obj fs) old put x = keep (put (obj (merge_values (map_of old) fs)))
  store_map _ old put x = record { value = x; failed = true }

  abbrev pub empty_company_input : CompanyInput
  empty_company_input = record {
    name = "";
    federal_tax_number = pos 0;
    trade_name = "";
    email = "";
    opening_date = "";
    tax_regime = "";
    special_tax_regime = "";
    municipal_tax_number = "";
    address = null;
    login_name = "";
    login_password = "";
    certificate_base64 = "";
    certificate_password = "";
  }

  abbrev company_input_fields : List String
  company_input_fields =
      "name" ∷ "federal_tax_number" ∷ "trade_name" ∷ "email" ∷ "opening_date" ∷ "tax_regime"
      ∷ "special_tax_regime" ∷ "municipal_tax_number" ∷ "address" ∷ "login_name" ∷ "login_password"
      ∷ "certificate_base64" ∷ "certificate_password" ∷ []

  abbrev set_company_input : String → Json → CompanyInput → Decoded CompanyInput
  set_company_input n v x =
      if eq_str n "name"
      then store (read_string v) (λ s. record x { name = s }) x
      else if eq_str n "federal_tax_number"
      then store (read_int v) (λ i. record x { federal_tax_number = i }) x
      else if eq_str n "trade_name"
      then store (read_string v) (λ s. record x { trade_name = s }) x
      else if eq_str n "email"
      then store (read_string v) (λ s. record x { email = s }) x
      else if eq_str n "opening_date"
      then store (read_string v) (λ s. record x { opening_date = s }) x
      else if eq_str n "tax_regime"
      then store (read_string v) (λ s. record x { tax_regime = s }) x
      else if eq_str n "special_tax_regime"
      then store (read_string v) (λ s. record x { special_tax_regime = s }) x
      else if eq_str n "municipal_tax_number"
      then store (read_string v) (λ s. record x { municipal_tax_number = s }) x
      else if eq_str n "address"
      then store_map v x.address (λ m. record x { address = m }) x
      else if eq_str n "login_name"
      then store (read_string v) (λ s. record x { login_name = s }) x
      else if eq_str n "login_password"
      then store (read_string v) (λ s. record x { login_password = s }) x
      else if eq_str n "certificate_base64"
      then store (read_string v) (λ s. record x { certificate_base64 = s }) x
      else store (read_string v) (λ s. record x { certificate_password = s }) x

  -- `RegisterCompanyInput`.
  unfoldable pub decode_company_input : Decoder CompanyInput
  unfolding decode_struct store_map
  decode_company_input = decode_struct company_input_fields set_company_input

module _ {F : Type 0} (floats : Floats F) where
  abbrev pub empty_tax_input : TaxInput F
  empty_tax_input = record {
    municipio_code = "";
    service_amount = floats.zero;
    iss_rate_override = floats.zero;
    deductions = floats.zero;
  }

  abbrev set_tax_input : String → Json → TaxInput F → Decoded (TaxInput F)
  set_tax_input n v x =
      if eq_str n "municipio_code"
      then store (read_string v) (λ s. record x { municipio_code = s }) x
      else if eq_str n "service_amount"
      then store (read_float floats v) (λ a. record x { service_amount = a }) x
      else if eq_str n "iss_rate_override"
      then store (read_float floats v) (λ a. record x { iss_rate_override = a }) x
      else store (read_float floats v) (λ a. record x { deductions = a }) x

  -- `CalculateISSInput`.
  unfoldable pub decode_tax_input : Decoder (TaxInput F)
  unfolding decode_struct
  decode_tax_input =
      decode_struct
        ("municipio_code" ∷ "service_amount" ∷ "iss_rate_override" ∷ "deductions_amount" ∷ [])
        set_tax_input
