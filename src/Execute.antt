-- ===== src/Execute.antt =====
-- `executeRoute` of providers/nfeio/adapter/adapter.go: the envelope, the switch on its operation, and
-- each case. The table of the switch is in Cases.antt.
pub mod Cases
pub mod Input
pub mod Issue
pub mod Known
pub mod Reading
pub mod Handler
use integration_nfeio.Base.{
  ℕ, String, ◌<>◌, Bool, Option, none, some, List, [], ◌∷◌, eq_str, if◌then◌else◌,
}
use integration_nfeio.Json.{
  Json, Bytes, Decoder, Decoded, decode_struct, store, keep, read_string, unmarshal_doc,
}
use integration_nfeio.Floats.{Floats}
use integration_nfeio.Config.{Config}
use integration_nfeio.Http.{
  Net, Error, decode, message, Result, ok, err, World, M, return, fail, ◌>>=◌,
}
use integration_nfeio.Template.{Templates}
use integration_nfeio.Invoice.{IssueInput, Selection, Invoice, CancelOutput, DocOutput, issue_nfse}
use integration_nfeio.Invoice.Cancel.{cancel_nfse}
use integration_nfeio.Invoice.Document.{retrieve_pdf, retrieve_xml}
use integration_nfeio.Invoice.Observe.{Page, observe_service_invoices}
use integration_nfeio.Company.{CompanyInput, Company, ensure_company, observe_companies}
use integration_nfeio.Municipalities.{ListInput, ListOutput, Cache, list_municipalities}
use integration_nfeio.Bulk.{BulkInput, BulkOutput, bulk_issue}
use integration_nfeio.Tax.{TaxInput, TaxOutput, calculate_iss}
use integration_nfeio.Manage.{ManageInput, ManageOutput, Yaml, manage_template}
use integration_nfeio.Subscription.{EnsureInput, EnsureOutput, DestroyInput, DestroyOutput}
use integration_nfeio.Subscription.Input.{decode_ensure_input, decode_destroy_input}
use integration_nfeio.Subscription.Exact.{lift}
use integration_nfeio.Subscription.Ensure.{ensure_webhook_subscription}
use integration_nfeio.Subscription.Remove.{
  destroy_webhook_subscription, observe_webhook_subscriptions,
}
use integration_nfeio.Execute.Cases.{
  Case, Route, by_client, on_observe_municipalities, routes, find_route, on_ensure_service_invoice,
  on_observe_service_invoices, on_destroy_service_invoice, on_retrieve_pdf, on_retrieve_xml,
  on_ensure_company, on_observe_companies, on_manage_template, on_bulk_issue, on_calculate_iss,
  on_ensure_webhook_subscription, on_observe_webhook_subscriptions, on_destroy_webhook_subscription,
}
use integration_nfeio.Execute.Input.{
  decode_selection, empty_selection, decode_list_input, empty_list_input, decode_manage_input,
  empty_manage_input, decode_company_input, empty_company_input, decode_tax_input, empty_tax_input,
}
use integration_nfeio.Execute.Issue.{
  decode_issue_input, empty_issue_input, decode_bulk_input, empty_bulk_input,
}

-- What an operation hands to `json.Marshal`.
pub data Output (F : Type 0) : Type 0 where
  issued : Invoice F → Output F
  invoices : Page (Invoice F) → Output F
  cancelled : CancelOutput → Output F
  document : DocOutput → Output F
  company : Company → Output F
  companies : Page Company → Output F
  municipalities : ListOutput → Output F
  managed : ManageOutput F → Output F
  batch : BulkOutput → Output F
  taxed : TaxOutput F → Output F
  subscription : EnsureOutput → Output F
  subscriptions : List EnsureOutput → Output F
  removed : DestroyOutput → Output F

-- The code outside the repository: what a value decoded into `any` is printed as, the text of a value
-- inside a document, `json.Marshal` (`none` where it fails), the `Error` methods, the YAML parser,
-- the order in which the goroutines of a batch run, and the clock.
pub record Outside (F S : Type 0) : Type 0 where
  pub printed : Json → Json
  pub text_of : Json → String
  pub marshal : Output F → Option String
  pub error_text : Error → String
  pub yaml : Yaml F
  pub schedule : BulkInput F → World S → List (ℕ × IssueInput F)
  pub now : S → ℕ

-- The part of the envelope that is read; the input is `none` where it is missing.
pub record Envelope : Type 0 where
  pub operation : String
  pub input : Option Json

abbrev set_envelope : String → Json → Envelope → Decoded Envelope
set_envelope n v x =
    if eq_str n "operation"
    then store (read_string v) (λ s. record x { operation = s }) x
    else keep (record x { input = some v })

unfoldable pub decode_envelope : Bytes → Decoded Envelope
unfolding decode_struct
decode_envelope raw =
    unmarshal_doc (decode_struct ("operation" ∷ "input" ∷ []) set_envelope) raw.doc
      (record { operation = ""; input = none })

-- `json.Unmarshal(env.Input, &in)` and its test.
abbrev checked : {A : Type 0} → Decoded A → Result A
checked d = if d.failed then err decode else ok d.value

abbrev pub decode_input : {A : Type 0} → Decoder A → A → Option Json → Result A
decode_input dec a input = checked (unmarshal_doc dec input a)

-- The same for the types with an `UnmarshalJSON` of their own.
abbrev pub decode_strict : {A : Type 0} → (Option Json → Result A) → Option Json → Result A
decode_strict dec none = err decode
decode_strict dec (some v) = dec (some v)

abbrev bytes_of : (Json → String) → Option Json → Bytes
bytes_of text_of none = record { text = ""; doc = none }
bytes_of text_of (some v) = record { text = text_of v; doc = some v }

module _ {F S : Type 0} (outside : Outside F S) (floats : Floats F) (net : Net S) (cfg : Config)
    (templates : Templates F) where
  module _ (op : String) where
    abbrev bulk : BulkInput F → M S BulkOutput
    bulk in' w =
        bulk_issue floats outside.error_text net cfg templates (outside.schedule in' w) in' w

    -- The cases of the switch, up to the printing of their output.
    unfoldable pub perform : Case → Option Json → M S (Output F)
    perform on_ensure_service_invoice input = do
      in' ← lift (
          decode_input (decode_issue_input floats outside.printed)
            (empty_issue_input floats outside.printed) input)
      out ← issue_nfse floats net cfg op templates in'
      return (issued out)
    perform on_observe_service_invoices input = do
      out ← observe_service_invoices floats net cfg op (bytes_of outside.text_of input)
      return (invoices out)
    perform on_destroy_service_invoice input = do
      in' ← lift (decode_input decode_selection empty_selection input)
      out ← cancel_nfse net cfg op in'
      return (cancelled out)
    perform on_retrieve_pdf input = do
      in' ← lift (decode_input decode_selection empty_selection input)
      out ← retrieve_pdf net cfg op in'
      return (document out)
    perform on_retrieve_xml input = do
      in' ← lift (decode_input decode_selection empty_selection input)
      out ← retrieve_xml net cfg op in'
      return (document out)
    perform on_ensure_company input = do
      in' ← lift (
          decode_input (decode_company_input outside.printed) (empty_company_input outside.printed)
            input)
      out ← ensure_company net cfg op in'
      return (company out)
    perform on_observe_companies input = do
      out ← observe_companies net cfg op (bytes_of outside.text_of input)
      return (companies out)
    perform on_manage_template input = do
      in' ← lift (decode_input decode_manage_input empty_manage_input input)
      out ← lift (manage_template floats outside.yaml templates in')
      return (managed out)
    perform on_bulk_issue input = do
      in' ← lift (
          decode_input (decode_bulk_input floats outside.printed)
            (empty_bulk_input floats outside.printed) input)
      out ← bulk in'
      return (batch out)
    perform on_calculate_iss input = do
      in' ← lift (decode_input (decode_tax_input floats) (empty_tax_input floats) input)
      out ← lift (calculate_iss floats templates in')
      return (taxed out)
    perform on_ensure_webhook_subscription input = do
      in' ← lift (decode_strict decode_ensure_input input)
      out ← ensure_webhook_subscription net cfg op in'
      return (subscription out)
    perform on_observe_webhook_subscriptions input = do
      out ← observe_webhook_subscriptions net cfg op input
      return (subscriptions out)
    perform on_destroy_webhook_subscription input = do
      in' ← lift (decode_strict decode_destroy_input input)
      out ← destroy_webhook_subscription net cfg op in'
      return (removed out)

  -- A result with the cache, `none` where none is wired, and the world.
  abbrev pub Routed : Type 0 → Type 0
  Routed A = Result A × (Option Cache × World S)

  abbrev pub beside : {A : Type 0} → Option Cache → Result A × World S → Routed A
  beside cache (r, w) = (r, (cache, w))

  abbrev listed : Result ListOutput × (Cache × World S) → Routed (Output F)
  listed (ok out, (c, w)) = (ok (municipalities out), (some c, w))
  listed (err e, (c, w)) = (err e, (some c, w))

  abbrev list_cached : String → Result ListInput → Option Cache → World S → Routed (Output F)
  list_cached op (err e) cache w = (err e, (cache, w))
  list_cached op (ok in') none w =
      (err (message "observe_municipalities: cache not wired"), (none, w))
  list_cached op (ok in') (some c) w = listed (list_municipalities net outside.now cfg op in' c w)

  unfoldable pub run_route :
      String → Route → Option Json → Option Cache → World S → Routed (Output F)
  unfolding perform
  run_route op (by_client r) input cache w = beside cache (perform op r input w)
  run_route op on_observe_municipalities input cache w =
      list_cached op (decode_input decode_list_input empty_list_input input) cache w

  abbrev marshalled : Option String → Result String
  marshalled none = err (message "json: unsupported value")
  marshalled (some text) = ok text

  -- `return json.Marshal(out)`.
  abbrev pub print_output : Routed (Output F) → Routed String
  print_output (ok out, s) = (marshalled (outside.marshal out), s)
  print_output (err e, s) = (err e, s)

  abbrev pub unknown_operation : String → Error
  unknown_operation op = message ("unknown operation " <> outside.yaml.quoted op)

  abbrev pub run_found : Envelope → Option Route → Option Cache → World S → Routed String
  run_found env none cache w = (err (unknown_operation env.operation), (cache, w))
  run_found env (some r) cache w = print_output (run_route env.operation r env.input cache w)

  abbrev run_decoded : Decoded Envelope → Option Cache → World S → Routed String
  run_decoded d cache w =
      if d.failed
      then (err (message "decode envelope"), (cache, w))
      else run_found d.value (find_route d.value.operation routes) cache w

  -- `executeRoute`.
  unfoldable pub execute_route : Bytes → Option Cache → World S → Routed String
  unfolding run_route find_route routes decode_envelope
  execute_route raw cache w = run_decoded (decode_envelope raw) cache w
