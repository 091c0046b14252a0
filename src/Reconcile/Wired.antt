-- ===== src/Reconcile/Wired.antt =====
-- The reconcilers of providers/nfeio/adapter/reconcilers.go and their registration with the SDK.
pub mod ById
use integration_nfeio.Base.{String, ◌<>◌, Option, none, some, List, [], eq_str, pos, if◌then◌else◌}
use integration_nfeio.Json.{Json, null, obj, Fields, Bytes}
use integration_nfeio.Floats.{Floats}
use integration_nfeio.Config.{Config}
use integration_nfeio.Http.{Net, message, Result, ok, err, World, M, after, return, ◌>>=◌}
use integration_nfeio.Template.{Templates}
use integration_nfeio.Invoice.{IssueInput, Invoice, issue_nfse}
use integration_nfeio.Invoice.Cancel.{destroy_service_invoice}
use integration_nfeio.Invoice.Observe.{Page, observe_service_invoices}
use integration_nfeio.Company.{CompanyInput, Company, ensure_company, observe_companies}
use integration_nfeio.Subscription.{EnsureInput, EnsureOutput}
use integration_nfeio.Subscription.Ensure.{ensure_webhook_subscription}
use integration_nfeio.Subscription.Remove.{observe_webhook_subscriptions}
use integration_nfeio.Reconcile.{provider_text, destroy_with_desired}

-- The SDK's interface of a reconciler, over its desired and observed types; the filter of `observe` is
-- `none` where the map is nil.
pub record Reconciler (S D O : Type 0) : Type 0 where
  pub ensure : D → M S O
  pub observe : Option Fields → M S (List O × String)
  pub destroy : String → M S (Unit {0})
  pub destroy_desired : Option (String → D → M S (Unit {0}))

-- `json.Marshal(filter)`; `print` is the text of a document.
abbrev pub filter_json : Option Fields → Json
filter_json none = null
filter_json (some m) = obj m

abbrev pub filter_bytes : (Json → String) → Option Fields → Bytes
filter_bytes print filter = record {
  text = print (filter_json filter);
  doc = some (filter_json filter);
}

abbrev pub page_of : {S A : Type 0} → Page A → M S (List A × String)
page_of page w = (ok (page.items, page.cursor), w)

module _ {S : Type 0} (print : Json → String) (net : Net S) (cfg : Config) (op : String) where
  -- `serviceInvoiceReconciler`; its `Destroy` is that of an empty desired input.
  unfoldable pub service_invoice_reconciler :
      {F : Type 0} → Floats F → Templates F → Reconciler S (IssueInput F) (Invoice F)
  service_invoice_reconciler floats templates = record {
    ensure = λ d. issue_nfse floats net cfg op templates d;
    observe = λ filter w.
        after page_of (observe_service_invoices floats net cfg op (filter_bytes print filter) w);
    destroy = λ ref. destroy_service_invoice net cfg op ref "";
    destroy_desired = some (λ ref d. destroy_service_invoice net cfg op ref d.company_id);
  }

  -- `companyReconciler`.
  unfoldable pub company_reconciler : Reconciler S CompanyInput Company
  company_reconciler = record {
    ensure = λ d. ensure_company net cfg op d;
    observe =
        λ filter w. after page_of (observe_companies net cfg op (filter_bytes print filter) w);
    destroy = λ ref w. (err (message "destroy_company: not supported by NFe.io v2 API"), w);
    destroy_desired = none;
  }

  abbrev pub no_cursor : List EnsureOutput → M S (List EnsureOutput × String)
  no_cursor items w = (ok (items, ""), w)

  -- `webhookSubReconciler`.
  unfoldable pub webhook_sub_reconciler : Reconciler S EnsureInput EnsureOutput
  webhook_sub_reconciler = record {
    ensure = λ d. ensure_webhook_subscription net cfg op d;
    observe = λ filter w.
        after no_cursor (observe_webhook_subscriptions net cfg op (some (filter_json filter)) w);
    destroy =
        λ ref w. (err (message "destroy_webhook_subscription: explicit confirm_id is required"), w);
    destroy_desired = some (λ ref d. destroy_with_desired net cfg op ref d);
  }

-- A reconciler under the names of its resource.
pub record Registration (S D O : Type 0) : Type 0 where
  pub singular : String
  pub plural : String
  pub reconciler : Reconciler S D O

-- `events.NoopEmitter` or `events.NewHTTPEmitter`.
pub data Emitter : Type 0 where
  noop_emitter http_emitter : Emitter

-- `newEmitterFromEnv`.
unfoldable pub new_emitter_from_env : (String → String) → Emitter
new_emitter_from_env getenv =
    if eq_str (getenv "YGGDRASIL_CORE_URL") "" then noop_emitter else http_emitter

-- What the SDK is given.
pub record Wired (F S : Type 0) : Type 0 where
  pub provider : String
  pub instance_id : String
  pub emitter : Emitter
  pub service_invoice : Registration S (IssueInput F) (Invoice F)
  pub company : Registration S CompanyInput Company
  pub webhook_subscription : Registration S EnsureInput EnsureOutput

-- `wireReconcilers`; `op` is the operation that the context of a dispatched call carries.
unfoldable pub wire_reconcilers :
    {F S : Type 0}
    → (Json → String)
    → Floats F
    → Net S
    → Config
    → String
    → Templates F
    → String
    → Emitter
    → Wired F S
unfolding service_invoice_reconciler company_reconciler webhook_sub_reconciler
wire_reconcilers print floats net cfg op templates instance_id emitter = record {
  provider = "nfeio";
  instance_id = instance_id;
  emitter = emitter;
  service_invoice = record {
    singular = "service_invoice";
    plural = "service_invoices";
    reconciler = service_invoice_reconciler print net cfg op floats templates;
  };
  company = record {
    singular = "company";
    plural = "companies";
    reconciler = company_reconciler print net cfg op;
  };
  webhook_subscription = record {
    singular = "webhook_subscription";
    plural = "webhook_subscriptions";
    reconciler = webhook_sub_reconciler print net cfg op;
  };
}

-- `CancellationPendingError.Error`.
unfoldable pub cancellation_pending_text : String → String → String → String
cancellation_pending_text invoice status flow_message =
    "cancellation_pending: destroy_service_invoice: NFe.io has not confirmed the cancellation of invoice \""
    <> (provider_text invoice
        <> ("\" (status \""
            <> (provider_text status
                <> ("\", flow_message \"" <> (provider_text flow_message <> "\"); retry later")))))
