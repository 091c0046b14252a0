-- ===== src/Execute/Cases.antt =====
-- The switch of `executeRoute` in providers/nfeio/adapter/adapter.go, as the table of its cases in their
-- order.
use integration_nfeio.Base.{String, Option, none, some, List, [], ◌∷◌, eq_str, if◌then◌else◌}
use integration_nfeio.Spec.Operations.{
  op_ensure_service_invoice, op_observe_service_invoices, op_destroy_service_invoice,
  op_retrieve_pdf, op_retrieve_xml, op_ensure_company, op_observe_companies,
  op_observe_municipalities, op_manage_template, op_bulk_issue, op_calculate_iss,
  op_ensure_webhook_subscription, op_observe_webhook_subscriptions, op_destroy_webhook_subscription,
}

-- A case of the switch: one that works with the client alone, or the one with the cache.
pub data Case : Type 0 where
  on_ensure_service_invoice on_observe_service_invoices on_destroy_service_invoice : Case
  on_retrieve_pdf on_retrieve_xml on_ensure_company on_observe_companies : Case
  on_manage_template on_bulk_issue on_calculate_iss : Case
  on_ensure_webhook_subscription on_observe_webhook_subscriptions : Case
  on_destroy_webhook_subscription : Case

pub data Route : Type 0 where
  by_client : Case → Route
  on_observe_municipalities : Route

unfoldable pub routes : List (String × Route)
routes =
    (op_ensure_service_invoice, by_client on_ensure_service_invoice)
    ∷ (op_observe_service_invoices, by_client on_observe_service_invoices)
    ∷ (op_destroy_service_invoice, by_client on_destroy_service_invoice)
    ∷ (op_retrieve_pdf, by_client on_retrieve_pdf)
    ∷ (op_retrieve_xml, by_client on_retrieve_xml)
    ∷ (op_ensure_company, by_client on_ensure_company)
    ∷ (op_observe_companies, by_client on_observe_companies)
    ∷ (op_observe_municipalities, on_observe_municipalities)
    ∷ (op_manage_template, by_client on_manage_template)
    ∷ (op_bulk_issue, by_client on_bulk_issue)
    ∷ (op_calculate_iss, by_client on_calculate_iss)
    ∷ (op_ensure_webhook_subscription, by_client on_ensure_webhook_subscription)
    ∷ (op_observe_webhook_subscriptions, by_client on_observe_webhook_subscriptions)
    ∷ (op_destroy_webhook_subscription, by_client on_destroy_webhook_subscription)
    ∷ []

unfoldable pub find_route : String → List (String × Route) → Option Route
find_route op [] = none
find_route op ((name, r) ∷ rs) = if eq_str name op then some r else find_route op rs
