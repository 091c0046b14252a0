-- ===== src/Execute/Handler.antt =====
-- `ExecuteHandler` of providers/nfeio/adapter/adapter.go, around the dispatch of the SDK.
pub mod Fallback
use integration_nfeio.Base.{String, Bool, ◌||◌, Option, none, some, contains, if◌then◌else◌}
use integration_nfeio.Json.{Json, obj, Fields, Bytes, raw_map}
use integration_nfeio.Floats.{Floats}
use integration_nfeio.Config.{Config}
use integration_nfeio.Http.{Net, message, Result, ok, err, World}
use integration_nfeio.Template.{Templates}
use integration_nfeio.Municipalities.{Cache}
use integration_nfeio.Envelope.{Lift, with_envelope_instance, with_service_invoice_destroy_ref}
use integration_nfeio.Reconcile.Wired.{Wired}
use integration_nfeio.Execute.{Outside, Routed, execute_route}

-- What `reconcile.Dispatch` returns: a body, or an error with its text.
pub data Dispatched : Type 0 where
  dispatched : String → Dispatched
  refused : String → Dispatched

-- `reconcile.Dispatch` of the SDK, on the reconcilers that it was given.
abbrev pub Sdk : Type 0 → Type 0 → Type 0
Sdk F S = Wired F S → Bytes → World S → Dispatched × World S

-- `isUnsupportedReconcileOp` on the text of an error.
unfoldable pub is_unsupported_reconcile_op : String → Bool
unfolding contains
is_unsupported_reconcile_op text =
    contains text "reconcile: unsupported operation"
    || contains text "reconcile: adapter has no registered Reconciler"

module _ (print : Json → String) where
  abbrev pub printed_body : Fields → Bytes
  printed_body env = record { text = print (obj env); doc = some (obj env) }

  abbrev lifted_body : Bytes → Lift → Bytes
  lifted_body raw l = if l.changed then printed_body l.env else raw

  abbrev lift_in : Bytes → Option Fields → Bytes
  lift_in raw none = raw
  lift_in raw (some env) = lifted_body raw (with_envelope_instance env)

  abbrev referred_body : Bytes → Option Fields → Bytes
  referred_body raw none = raw
  referred_body raw (some env) = printed_body env

  abbrev refer_body : Bytes → Option Fields → Bytes
  refer_body raw none = raw
  refer_body raw (some env) = referred_body raw (with_service_invoice_destroy_ref env)

  abbrev refer_lifted : Bytes → Bytes
  refer_lifted raw = refer_body raw (raw_map raw.doc)

  -- The body that the SDK is handed.
  unfoldable pub bridged : Bytes → Bytes
  bridged raw = refer_lifted (lift_in raw (raw_map raw.doc))

-- A body with its content type.
abbrev json_answer : Result String → Result (String × String)
json_answer (ok body) = ok (body, "application/json")
json_answer (err e) = err e

module _ {F S : Type 0} (outside : Outside F S) (floats : Floats F) (net : Net S) (cfg : Config)
    (templates : Templates F) where
  abbrev pub typed :
      Routed outside floats net cfg templates String
      → Routed outside floats net cfg templates (String × String)
  typed (r, s) = (json_answer r, s)

  abbrev concluded :
      Bytes
      → Option Cache
      → Dispatched × World S
      → Routed outside floats net cfg templates (String × String)
  concluded raw cache (dispatched body, w) = (ok (body, "application/json"), (cache, w))
  concluded raw cache (refused text, w) =
      let routed = typed (execute_route outside floats net cfg templates raw cache w) in
      if is_unsupported_reconcile_op text then routed else (err (message text), (cache, w))

  -- `ExecuteHandler`; `sdk` is the dispatch over the reconcilers `wired`.
  unfoldable pub execute_handler :
      Sdk F S
      → Wired F S
      → Bytes
      → Option Cache
      → World S
      → Routed outside floats net cfg templates (String × String)
  execute_handler sdk wired raw cache w =
      concluded raw cache (sdk wired (bridged outside.text_of raw) w)
