-- ===== src/Invoice/Observe.antt =====
-- `ObserveServiceInvoices` of adapter.go.
pub mod Observed
use integration_nfeio.Base.{
  String, ◌<>◌, Bool, true, false, ◌||◌, not, none, List, [], ◌∷◌, ℤ, pos, eq_str, if◌then◌else◌,
  ◌≡◌, refl, arith,
}
use integration_nfeio.Json.{
  Json, null, arr, Items, nil, item, Bytes, Decoder, Decoded, decode_struct, store, keep,
  read_string, read_int, unmarshal_doc,
}
use integration_nfeio.Floats.{Floats}
use integration_nfeio.Config.{Config}
use integration_nfeio.Http.{get_method, Net, Error, message, Result, ok, err, World, M, after}
use integration_nfeio.Client.{into, do_request}
use integration_nfeio.Invoice.{
  Selection, Invoice, company_of, with_company, invoices_path, decode_invoice, no_invoice,
  get_nfse_status,
}

-- `ObserveServiceInvoicesInput`.
pub record Filter : Type 0 where
  pub company_id : String
  pub invoice_id : String
  pub id : String
  pub page_size : ℤ
  pub cursor : String

abbrev pub no_filter : Filter
no_filter = record { company_id = ""; invoice_id = ""; id = ""; page_size = pos 0; cursor = "" }

abbrev filter_fields : List String
filter_fields = "company_id" ∷ "invoice_id" ∷ "id" ∷ "page_size" ∷ "cursor" ∷ []

abbrev set_filter : String → Json → Filter → Decoded Filter
set_filter n v x =
    if eq_str n "company_id"
    then store (read_string v) (λ s. record x { company_id = s }) x
    else if eq_str n "invoice_id"
    then store (read_string v) (λ s. record x { invoice_id = s }) x
    else if eq_str n "id"
    then store (read_string v) (λ s. record x { id = s }) x
    else if eq_str n "page_size"
    then store (read_int v) (λ i. record x { page_size = i }) x
    else store (read_string v) (λ s. record x { cursor = s }) x

-- What the raw filter decodes to: an empty one is no filter.
unfoldable pub decode_filter : Bytes → Decoded Filter
unfolding decode_struct
decode_filter raw =
    if eq_str raw.text ""
    then keep no_filter
    else unmarshal_doc (decode_struct filter_fields set_filter) raw.doc no_filter

-- The invoice that the filter selects, "" where it selects none.
abbrev pub selected : Filter → String
selected in' = if eq_str in'.invoice_id "" then in'.id else in'.invoice_id

-- A page of a list: its items and the cursor of the next one.
pub record Page (A : Type 0) : Type 0 where
  pub items : List A
  pub cursor : String

module _ {A : Type 0} (element : Decoder A) (fresh : A) where
  abbrev join_items : Decoded A → Decoded (List A) → Decoded (List A)
  join_items x xs = record { value = x.value ∷ xs.value; failed = x.failed || xs.failed }

  unfoldable pub decode_items : Items → Decoded (List A)
  decode_items nil = keep []
  decode_items (item v vs) = join_items (element v fresh) (decode_items vs)

  abbrev set_items : Json → Page A → Decoded (Page A)
  set_items null x = keep x
  set_items (arr vs) x = record {
    value = record x { items = (decode_items vs).value };
    failed = (decode_items vs).failed;
  }
  set_items _ x = record { value = x; failed = true }

  abbrev set_page : String → Json → Page A → Decoded (Page A)
  set_page n v x =
      if eq_str n "items"
      then set_items v x
      else store (read_string v) (λ s. record x { cursor = s }) x

  unfoldable pub decode_page : Decoder (Page A)
  unfolding decode_struct decode_items
  decode_page = decode_struct ("items" ∷ "cursor" ∷ []) set_page

abbrev pub no_page : {A : Type 0} → Page A
no_page = record { items = []; cursor = "" }

abbrev pub with_cursor : String → String → String
with_cursor path cursor = if eq_str cursor "" then path else path <> ("?cursor=" <> cursor)

-- A page that holds one item.
abbrev pub single : {S A : Type 0} → A → M S (Page A)
single one w = (ok (record { items = one ∷ []; cursor = "" }), w)

module _ {F : Type 0} (floats : Floats F) {S : Type 0} (net : Net S) (cfg : Config)
    (op : String) where
  abbrev pub list_invoices : Filter → String → M S (Page (Invoice F))
  list_invoices in' company w =
      do_request net cfg op get_method (with_cursor (invoices_path company) in'.cursor) none
        (into (decode_page (decode_invoice floats) (no_invoice floats)) no_page) w

  abbrev pub observe_company : Filter → String → M S (Page (Invoice F))
  observe_company in' company w =
      if not (eq_str (selected in') "")
      then after single (
          get_nfse_status floats net cfg op
            (record { company_id = company; invoice_id = selected in' }) w)
      else list_invoices in' company w

  abbrev pub observe_filtered : Decoded Filter → M S (Page (Invoice F))
  observe_filtered in' w =
      if in'.failed
      then (err (message "observe_service_invoices: parse filter"), w)
      else with_company cfg in'.value.company_id (observe_company in'.value) w

  -- `ObserveServiceInvoices`.
  unfoldable pub observe_service_invoices : Bytes → M S (Page (Invoice F))
  unfolding decode_filter decode_page
  observe_service_invoices raw w = observe_filtered (decode_filter raw) w
