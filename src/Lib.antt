-- ===== src/Lib.antt =====
-- The NFe.io adapter (providers/nfeio): a process that turns operations of a control plane into calls of the
-- NFe.io invoicing API, and receives that API's signed callbacks.
--
-- Parts, the files that model them, and how they meet:
--
-- - Config.antt: `Config`, `Load` and `envOr` of providers/nfeio/config/config.go. The environment is a
--   function. `Load` gives the configuration that every other part reads.
-- - Http.antt, Client.antt: `Client.do`, `doOnce`, `parseRetryAfter`, `NfeIoAPIError` and `injectAuth` of
--   providers/nfeio/adapter/client.go and bearer.go. All traffic of the operations goes through `do_request`. A
--   call is a function on `World`: the network's own state, the requests sent and the metrics. An error is a
--   value of `Error`, one constructor for each kind that a caller can tell apart.
-- - Path.antt: `pathSegment` of providers/nfeio/adapter/adapter.go.
-- - Webhook.antt and below (the signed headers are described in Webhook/Signature/Wire.antt and Hex.antt): `handle`,
--   `verifyNFeIOSignature`, `singleHTTPHeader`, `normalizeNfeEvent` and
--   `queueFor` of providers/nfeio/adapter/webhook_server.go. A callback is one step of the `Server` state, which
--   holds the deduplication cache and the log of what was published.
-- - Subscription.antt and below: providers/nfeio/adapter/webhook_subscription.go. The strict input decoders, the
--   provider's document as a map of raw fields, and the ensure, destroy and observe operations, composed of
--   `do_request` as the source composes them.
-- - Template.antt: `validateTemplate`, `LoadTemplatesDir` and `LoadTemplatesFS` of
--   providers/nfeio/adapter/template_loader.go, from the directory's entries and what their texts parse to.
-- - Invoice.antt and below: `IssueNFSe`, `ObserveServiceInvoices`, `GetNFSeStatus`, `CancelNFSe` and `retrieveDoc` of
--   providers/nfeio/adapter/adapter.go, and `serviceInvoiceReconciler.DestroyWithDesired` of
--   providers/nfeio/adapter/reconcilers.go.
-- - Company.antt: `RegisterCompany`, `EnsureCompany` and `ObserveCompanies` of providers/nfeio/adapter/adapter.go.
-- - Bulk.antt: `BulkIssue` of providers/nfeio/adapter/bulk_issue.go over `issue_nfse`.
-- - Municipalities.antt: `ListMunicipalities` and `MunicipalitiesCache` of
--   providers/nfeio/adapter/list_municipalities.go; a call takes the cache and the world and gives both back.
-- - Contract.antt: `LintDescribeContract` of pkg/contractcheck/contractcheck.go.
-- - Family.antt: the contract's types of family/contract/types.go.
-- - Spec.antt and below: `Describe` of providers/nfeio/adapter/spec.go with its operations, catalogue, schemas,
--   resource types and transport, and the projection of cmd/lint-action-catalog/main.go.
-- - Envelope.antt: `withEnvelopeInstance`, `withServiceInvoiceDestroyRef`, `envelopeOperation` and `rawFieldAbsent` of
--   providers/nfeio/adapter/adapter.go, on the decoded map.
-- - Reconcile.antt and below: the three reconcilers, `wireReconcilers`, `newEmitterFromEnv`, `providerText` and the
--   text of `CancellationPendingError` of providers/nfeio/adapter/reconcilers.go. A reconciler is a record of
--   operations, as the SDK takes it.
-- - Execute.antt and below: `executeRoute`, `ExecuteHandler` and `isUnsupportedReconcileOp` of
--   providers/nfeio/adapter/adapter.go. The switch is a list of routes, one for each case, which decodes the input
--   (Execute/Input.antt, Execute/Issue.antt) and calls the operation of the part above. Execute/Handler.antt puts
--   the envelope's bridge and the dispatch of the SDK before it.
-- - Manage.antt: `ManageTemplate` of providers/nfeio/adapter/manage_template.go.
-- - Publish.antt: `PublishDispatcherFromEnv` and `PublishMessage` of
--   providers/nfeio/adapter/publish_dispatch.go. Webhook/Server/Dispatched.antt gives the dispatcher to the receiver
--   as its publisher, as `NewWebhookServer` and cmd/adapter/main.go do.
-- - Startup.antt: what `main` of cmd/adapter/main.go decides before it serves, and cmd/validate-templates/main.go.
-- - Tax.antt and below: `CalculateISS` of providers/nfeio/adapter/tax_calc.go.
-- - Json.antt: `encoding/json` as these files use it, on documents that are parsed: a body carries its text and
--   the document that the text spells, if any.
-- - Base.antt and below: tests, lists, Go's text functions, integers.
-- - Examples.antt and below: concrete runs.
--
-- Parameters, which stand for code outside the repository: the network, the URL check and the clock (`Net`), HMAC
-- and SHA-256 (`Digests`), `float64` (`Floats`), the LRU cache (`Lru`, of which `IsLru` states that the newest
-- entry is found and `IsEvicting` which entries an insertion may drop), the publisher (`Env`), the clock of the
-- municipalities cache, the YAML parser (`Yaml`), the templates directory (`Files`), and the dispatch of the SDK
-- (`Sdk`, of which `IsSdk` states that it refuses an operation that no reconciler has, in an envelope that it can
-- read, with a text that holds its documented words, and does nothing). `IsOrder` states what IEEE 754 says of the
-- comparisons of floats. `Outside` holds what an execute call takes from outside: json.Marshal on the typed
-- outputs, the texts of values and errors, the YAML parser, the clock and the schedule of the goroutines. The
-- goroutines of a batch are whole calls, in an order that is an argument.
--
-- Bounds: the loop of `Client.do` is recursion on the attempts left, which start at the source's three. Every
-- other loop is structural. Waits are counted in nanoseconds that wrap at 64 bits, as a `time.Duration`; a
-- negative one ends at once. Integers that are read from text are refused outside 64 bits. Texts are valid UTF-8,
-- kept as code points; `byte_len` counts bytes.
--
-- Not modelled: the error of json.Marshal on a request body (a rate that is not a number), since bodies are JSON
-- values; the order in which json.Marshal sorts the keys of a map; the listeners and the health server, signals
-- and shutdown, tracing, logging and the registration of metrics, the JSON and YAML parsers and printers
-- themselves, and the SDK. Between the lookup of a callback in the deduplication cache and its insertion nothing
-- else runs: callbacks are handled one at a time.
pub mod Base
pub mod Json
pub mod Config
pub mod Http
pub mod Client
pub mod Path
pub mod Webhook
pub mod Subscription
pub mod Examples
pub mod Floats
pub mod Template
pub mod Invoice
pub mod Company
pub mod Bulk
pub mod Municipalities
pub mod Contract
pub mod Spec
pub mod Envelope
pub mod Reconcile
pub mod Publish
pub mod Tax
pub mod Manage
pub mod Execute
pub mod Family
pub mod Startup
