-- ===== src/Spec.antt =====
-- providers/nfeio/adapter/spec.go: the operations that the adapter supports and the contract that it
-- describes, with the projection of cmd/lint-action-catalog/main.go.
pub mod Operations
pub mod Schema
use integration_nfeio.Base.{
  String, Bool, true, false, ◌||◌, List, [], ◌∷◌, ◌++◌, map, eq_str, if◌then◌else◌, trim_space,
}
use integration_nfeio.Contract as Lint
use integration_nfeio.Family.{
  AdapterQueue, AdapterRoute, AdapterSpec, ResourceType, ActionDefinition, Described,
}
use integration_nfeio.Spec.Operations.{
  op_ensure_service_invoice, op_observe_service_invoices, op_destroy_service_invoice,
  op_retrieve_pdf, op_retrieve_xml, op_ensure_company, op_observe_companies,
  op_observe_municipalities, op_manage_template, op_bulk_issue, op_calculate_iss,
  op_ensure_webhook_subscription, op_observe_webhook_subscriptions, op_destroy_webhook_subscription,
  reactor_webhook_received, resource_service_invoice, resource_company, resource_municipality,
  resource_municipality_template, resource_webhook_subscription, supported_execute_operations,
}
use integration_nfeio.Spec.Schema.{credential_schema, instance_schema}

abbrev entry : String → String → String → String → ActionDefinition
entry name category resource description = record {
  name = name;
  description = description;
  resource_types = resource ∷ [];
  idempotent = true;
  category = category;
}

-- `actionCatalog`.
unfoldable pub action_catalog : List ActionDefinition
action_catalog =
    entry op_ensure_service_invoice "capability" resource_service_invoice
      "Ensure a service invoice exists for the given external_id. POST /v2/companies/{id}/serviceinvoices; 409 duplicate decoded into existing invoice envelope (idempotent success)."
    ∷ entry op_observe_service_invoices "capability" resource_service_invoice
        "Read service invoices: with filter {id} returns one (GET /v2/companies/{id}/serviceinvoices/{id}); otherwise paginated GET /v2/companies/{id}/serviceinvoices."
    ∷ entry op_destroy_service_invoice "capability" resource_service_invoice
        "Cancel (destroy) an emitted NFSe. PUT /v2/companies/{id}/serviceinvoices/{id}/cancel. Succeeds only when NFe.io reports Cancelled; any other status fails with the retryable cancellation_pending error. 422 cancellation_window_closed is terminal failure; 404 is returned as an error."
    ∷ entry op_retrieve_pdf "capability" resource_service_invoice
        "Retrieve signed PDF download URL for an emitted NFSe (allowlisted helper)."
    ∷ entry op_retrieve_xml "capability" resource_service_invoice
        "Retrieve signed XML download URL for an emitted NFSe (allowlisted helper)."
    ∷ entry op_ensure_company "capability" resource_company
        "Ensure a company exists at NFe.io for the given federal_tax_number. POSTs /v2/companies; 409 already_registered decoded into existing envelope (idempotent success)."
    ∷ entry op_observe_companies "capability" resource_company
        "Read companies registered at NFe.io. Filter by {federal_tax_number} or paginate list."
    ∷ entry op_observe_municipalities "capability" resource_municipality
        "List municipalities supported by NFe.io. Cached 1h with stale-while-error fallback."
    ∷ entry op_manage_template "capability" resource_municipality_template
        "Read-only manage_template: get, list, validate operations on in-memory município templates (control-plane action, kept by allowlist)."
    ∷ entry op_bulk_issue "capability" resource_service_invoice
        "Bulk-issue up to 50 NFSe with semaphore 5 and partial-failure semantics (documented bulk-action special case, kept by allowlist)."
    ∷ entry op_calculate_iss "capability" resource_municipality_template
        "Pure-function helper: compute ISS tax amount from municipality template and service amount (allowlisted)."
    ∷ entry op_ensure_webhook_subscription "capability" resource_webhook_subscription
        "Reconcile a pre-existing NFe.io webhook by exact ID. Ordinary runs only set insecureSsl=false. An explicitly confirmed security migration may also set the provider HMAC from the runtime credential and remove legacy Authorization while preserving every other field."
    ∷ entry op_observe_webhook_subscriptions "capability" resource_webhook_subscription
        "Read one pre-existing webhook by exact ID (GET /v2/webhooks/{id}); enumeration and attribute-based adoption are disabled."
    ∷ entry op_destroy_webhook_subscription "capability" resource_webhook_subscription
        "Explicitly destroy one webhook by exact ID only when confirm_id equals id. DELETE /v2/webhooks/{id}; 404 is already-absent success."
    ∷ entry reactor_webhook_received "reactor" resource_service_invoice
        "Reactor: receives NFe.io webhook, HMAC-verifies, dedupes, normalizes status, publishes to enterprise-payments.* queues via publish_message capability."
    ∷ []

abbrev resource : String → String → String → List String → ResourceType
resource name canonical_prefix identity_template default_actions = record {
  name = name;
  canonical_prefix = canonical_prefix;
  identity_template = identity_template;
  discoverable = false;
  default_actions = default_actions;
}

-- The resource types of `Describe`.
unfoldable pub described_resource_types : List ResourceType
described_resource_types =
    resource resource_service_invoice "thirdparty.nfeio.service_invoice"
      "service_invoice.{external_id}"
      (op_ensure_service_invoice ∷ op_observe_service_invoices ∷ op_destroy_service_invoice
        ∷ op_retrieve_pdf ∷ op_retrieve_xml ∷ op_bulk_issue ∷ [])
    ∷ resource resource_company "thirdparty.nfeio.company" "company.{federal_tax_number}"
        (op_ensure_company ∷ op_observe_companies ∷ [])
    ∷ resource resource_municipality "thirdparty.nfeio.municipality" "municipality.{code}"
        (op_observe_municipalities ∷ [])
    ∷ resource resource_municipality_template "thirdparty.nfeio.municipality_template"
        "municipality_template.{code}" (op_manage_template ∷ op_calculate_iss ∷ [])
    ∷ resource resource_webhook_subscription "thirdparty.nfeio.webhook_subscription"
        "webhook_subscription.{id}"
        (op_ensure_webhook_subscription ∷ op_observe_webhook_subscriptions ∷ [])
    ∷ []

abbrev no_queues : AdapterQueue
no_queues = record { describe = ""; discover = ""; read = ""; execute = ""; sync = ""; health = "" }

-- `AdapterVersion`.
abbrev adapter_version : String
adapter_version = "3.2.0"

-- The transport switch.
unfoldable pub adapter_of : String → AdapterSpec
adapter_of transport =
    if eq_str transport "amqp" || eq_str transport "rabbitmq"
    then record {
      transport = "rabbitmq";
      version = adapter_version;
      queues = record no_queues {
        describe = "yggdrasil.adapter.nfeio.describe";
        execute = "yggdrasil.adapter.nfeio.execute";
      };
      endpoints = record { describe = ""; execute = "" };
      timeout_seconds = 60;
    }
    else record {
      transport = "http_json";
      version = adapter_version;
      queues = no_queues;
      endpoints = record { describe = "/rpc/describe"; execute = "/rpc/execute" };
      timeout_seconds = 60;
    }

-- `Describe`, from the value of YGGDRASIL_TRANSPORT; `lower` is `strings.ToLower`.
unfoldable pub describe : (String → String) → String → Described
unfolding adapter_of supported_execute_operations action_catalog described_resource_types
    credential_schema instance_schema
describe lower value =
    let transport = lower (trim_space value) in
    record {
      provider = "nfeio";
      adapter = adapter_of (if eq_str transport "" then "http_json" else transport);
      capabilities = "describe" ∷ "execute" ∷ [];
      credential_schema = credential_schema;
      instance_schema = instance_schema;
      resource_types = described_resource_types;
      action_catalog = action_catalog;
      discovery = record { mode = "push"; cursor = ""; supports_webhooks = true };
      normalization = record {
        external_id_path = "id";
        name_path = "external_id";
        owner_path = "";
        fallback_resource_prefix = "thirdparty.nfeio.custom";
      };
      execution = record {
        supports_dry_run = false;
        idempotent_actions = [] ++ supported_execute_operations;
      };
      extensions = record {
        allow_custom_resource_types = false;
        allow_custom_actions = false;
        preserve_raw_payload = true;
      };
    }

abbrev default_actions_of : ResourceType → Lint.ResourceType
default_actions_of r = record { name = r.name; default_actions = r.default_actions }

-- The catalogue without its reactors.
unfoldable pub callable : List ActionDefinition → List Lint.Action
callable [] = []
callable (e ∷ es) =
    if eq_str e.category "reactor"
    then callable es
    else record { name = e.name; resource_types = e.resource_types } ∷ callable es

-- What the command hands to the lint.
unfoldable pub project : Described → Lint.Describe
unfolding callable
project d = record {
  resource_types = map default_actions_of d.resource_types;
  action_catalog = callable d.action_catalog;
  idempotent_actions = d.execution.idempotent_actions;
}
