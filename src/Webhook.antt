-- ===== src/Webhook.antt =====
-- providers/nfeio/adapter/webhook_server.go: the event vocabulary, and the payload of a callback.
pub mod Signature
pub mod Server
use integration_nfeio.Base.{
  String, Bool, ◌||◌, Option, none, some, List, [], ◌∷◌, eq_str, if◌then◌else◌,
}
use integration_nfeio.Json.{Json, Decoded, decode_struct, store, keep, read_string, unmarshal_doc}

pub record Payload : Type 0 where
  pub id : String
  pub event : String
  pub payload : Option Json

abbrev payload_fields : List String
payload_fields = "id" ∷ "event" ∷ "data" ∷ []

abbrev set_payload : String → Json → Payload → Decoded Payload
set_payload n v p =
    if eq_str n "id"
    then store (read_string v) (λ x. record p { id = x }) p
    else if eq_str n "event"
    then store (read_string v) (λ x. record p { event = x }) p
    else keep (record p { payload = some v })

-- `json.Unmarshal(body, &p)` into a `webhookPayload`.
unfoldable pub decode_payload : Option Json → Decoded Payload
unfolding decode_struct
decode_payload doc =
    unmarshal_doc (decode_struct payload_fields set_payload) doc
      (record { id = ""; event = ""; payload = none })

-- `normalizeNfeEvent`.
unfoldable pub normalize_nfe_event : String → String
normalize_nfe_event raw =
    if eq_str raw "nfse.issued" || eq_str raw "nfe.emitted" || eq_str raw "nfse.emitted"
    then "issued"
    else if eq_str raw "nfse.cancelled"
        || eq_str raw "nfse.canceled"
        || eq_str raw "nfe.cancelled"
        || eq_str raw "nfe.canceled"
    then "cancelled"
    else if eq_str raw "nfse.processing_failed"
        || eq_str raw "nfse.failed"
        || eq_str raw "nfe.failed"
        || eq_str raw "nfe.rejected"
    then "processing_failed"
    else ""

-- `queueFor`.
unfoldable pub queue_for : String → String
queue_for normalized =
    if eq_str normalized "issued"
    then "enterprise-payments.nfe.emitted.q"
    else if eq_str normalized "processing_failed"
    then "enterprise-payments.nfe.rejected.q"
    else if eq_str normalized "cancelled"
    then "enterprise-payments.nfe.canceled.q"
    else ""
