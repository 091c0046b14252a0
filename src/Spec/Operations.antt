-- ===== src/Spec/Operations.antt =====
-- The names of providers/nfeio/adapter/spec.go: operations and resource types.
use integration_nfeio.Base.{String, List, [], ◌∷◌}

abbrev pub op_ensure_service_invoice : String
op_ensure_service_invoice = "ensure_service_invoice"

abbrev pub op_observe_service_invoices : String
op_observe_service_invoices = "observe_service_invoices"

abbrev pub op_destroy_service_invoice : String
op_destroy_service_invoice = "destroy_service_invoice"

abbrev pub op_retrieve_pdf : String
op_retrieve_pdf = "retrieve_pdf"

abbrev pub op_retrieve_xml : String
op_retrieve_xml = "retrieve_xml"

abbrev pub op_ensure_company : String
op_ensure_company = "ensure_company"

abbrev pub op_observe_companies : String
op_observe_companies = "observe_companies"

abbrev pub op_observe_municipalities : String
op_observe_municipalities = "observe_municipalities"

abbrev pub op_manage_template : String
op_manage_template = "manage_template"

abbrev pub op_bulk_issue : String
op_bulk_issue = "bulk_issue"

abbrev pub op_calculate_iss : String
op_calculate_iss = "calculate_iss"

abbrev pub op_ensure_webhook_subscription : String
op_ensure_webhook_subscription = "ensure_webhook_subscription"

abbrev pub op_observe_webhook_subscriptions : String
op_observe_webhook_subscriptions = "observe_webhook_subscriptions"

abbrev pub op_destroy_webhook_subscription : String
op_destroy_webhook_subscription = "destroy_webhook_subscription"

abbrev pub reactor_webhook_received : String
reactor_webhook_received = "nfse_webhook_received"

abbrev pub resource_service_invoice : String
resource_service_invoice = "service_invoice"

abbrev pub resource_company : String
resource_company = "company"

abbrev pub resource_municipality : String
resource_municipality = "municipality"

abbrev pub resource_municipality_template : String
resource_municipality_template = "municipality_template"

abbrev pub resource_webhook_subscription : String
resource_webhook_subscription = "webhook_subscription"

-- `SupportedExecuteOperations`.
unfoldable pub supported_execute_operations : List String
supported_execute_operations =
    op_ensure_service_invoice ∷ op_observe_service_invoices ∷ op_destroy_service_invoice
    ∷ op_retrieve_pdf ∷ op_retrieve_xml ∷ op_ensure_company ∷ op_observe_companies
    ∷ op_observe_municipalities ∷ op_manage_template ∷ op_bulk_issue ∷ op_calculate_iss
    ∷ op_ensure_webhook_subscription ∷ op_observe_webhook_subscriptions
    ∷ op_destroy_webhook_subscription ∷ []
