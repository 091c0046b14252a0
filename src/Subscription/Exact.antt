-- ===== src/Subscription/Exact.antt =====
-- `getWebhookByExactID` of webhook_subscription.go, and the calls that the operations make.
pub mod Path
pub mod Lookup
use integration_nfeio.Base.{
  String, ◌<>◌, Bool, true, false, Option, none, some, eq_str, if◌then◌else◌,
}
use integration_nfeio.Json.{Json, Fields, end}
use integration_nfeio.Config.{Config}
use integration_nfeio.Http.{
  Method, get_method, Net, Error, message, Result, ok, err, World, M, after, return, fail, ◌>>=◌,
}
use integration_nfeio.Client.{Target, into, do_request}
use integration_nfeio.Subscription.{webhook_exact_path, sanitize}
use integration_nfeio.Subscription.Document.{decode_document, document_id}

-- A result as a step that leaves the world alone.
abbrev pub lift : {S A : Type 0} → Result A → M S A
lift r w = (r, w)

abbrev pub sanitize_result : {S A : Type 0} → String → Result A × World S → Result A × World S
sanitize_result operation (ok a, w) = (ok a, w)
sanitize_result operation (err e, w) = (err (sanitize operation e), w)

abbrev pub is_requested : String → Option String → Bool
is_requested id none = false
is_requested id (some provider_id) = eq_str provider_id id

abbrev pub check_id : {S : Type 0} → String → String → Fields → M S Fields
check_id id operation d w =
    if is_requested id (document_id d)
    then (ok d, w)
    else (err (message (operation <> ": provider response did not match the requested id")), w)

module _ {S : Type 0} (net : Net S) (cfg : Config) where
  -- `getWebhookByExactID`; `op` is the operation that the context carries.
  unfoldable pub get_webhook_by_exact_id : String → String → String → M S Fields
  get_webhook_by_exact_id op id operation w = after (check_id id operation) (
      sanitize_result operation (
        do_request net cfg op get_method (webhook_exact_path id) none (into decode_document end) w))
