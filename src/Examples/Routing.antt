-- ===== src/Examples/Routing.antt =====
-- Execute envelopes routed on concrete data.
use integration_nfeio.Base.{
  ◌<>◌, trim_space, ℕ, String, true, false, Option, none, some, List, [], ◌∷◌, ◌≡◌, ◌≢◌, refl, ◌⊎◌,
  contains, has_prefix, arith, eq_iff,
}
use integration_nfeio.Json.{raw_map, as_map, Bytes, Fields, end, field, obj, str}
use integration_nfeio.Http.{Reply, ok, err, World}
use integration_nfeio.Client.Sends.{SentOnly}
use integration_nfeio.Client.Reads.{IsGet}
use integration_nfeio.Template.{Templates}
use integration_nfeio.Contract.{has}
use integration_nfeio.Spec.Operations.{supported_execute_operations}
use integration_nfeio.Manage.{ManageInput, ManageOutput, well_formed, Yaml, manage_template}
use integration_nfeio.Manage.Validated.{IsVerdict, manage_template-IsVerdict}
use integration_nfeio.Envelope.{envelope_operation}
use integration_nfeio.Reconcile.Wired.{Wired, http_emitter, wire_reconcilers}
use integration_nfeio.Execute.{
  Outside, decode_envelope, run_route, print_output, unknown_operation, execute_route,
}
use integration_nfeio.Execute.Cases.{Route}
use integration_nfeio.Execute.Known.{operation_of, execute_route-known}
use integration_nfeio.Execute.Reading.{execute_route-Reads}
use integration_nfeio.Execute.Handler.{Dispatched, refused, Sdk, typed, execute_handler}
use integration_nfeio.Execute.Handler.Fallback.{
  IsSdk, reconciled_operations, execute_handler_falls_back,
}
use integration_nfeio.Examples.{scripted, reply, settings, at_start}
use integration_nfeio.Examples.Invoices.{whole, rio}

-- A parser that knows one text, and maps that are ranged in their own order.
abbrev yaml : Yaml ℕ
yaml = record {
  parse = λ text. well_formed rio;
  ranged = λ ts. ts;
  quoted = λ text. "\"" <> (text <> "\"");
}

abbrev outside : Outside ℕ (List Reply)
outside = record {
  printed = λ v. v;
  text_of = λ _. "{}";
  marshal = λ _. some "{}";
  error_text = λ _. "error";
  yaml = yaml;
  schedule = λ _ _. [];
  now = λ _. 0;
}

abbrev templates : Templates ℕ
templates = ("3304557", rio) ∷ []

abbrev envelope : Fields
envelope =
    field "operation" (str "retrieve_pdf")
      (field "input" (obj (field "invoice_id" (str "i1") end)) end)

abbrev body : Bytes
body = record { text = "{...}"; doc = some (obj envelope) }

abbrev world : World (List Reply)
world =
    at_start
      (reply 200 "{...}" (some (obj (field "documentUrl" (str "https://nfe/i1.pdf") end))) ∷ [])

execute_route-known_example :
    ((has supported_execute_operations "retrieve_pdf" ≡ false)
      × (execute_route outside whole scripted settings templates body none world ≡ (
        err (unknown_operation outside whole scripted settings templates "retrieve_pdf"),
        (none, world),
      )))
    ⊎ ((r : Route) × (has supported_execute_operations "retrieve_pdf" ≡ true)
        × (◌≡◌ {A = String} "retrieve_pdf" (operation_of r))
        × (execute_route outside whole scripted settings templates body none world
            ≡ print_output outside whole scripted settings templates (
                run_route outside whole scripted settings templates
                  (operation_of r)
                  r
                  (some (obj (field "invoice_id" (str "i1") end)))
                  none
                  world)))
unfolding decode_envelope
execute_route-known_example =
    execute_route-known outside whole scripted settings templates body none world refl

execute_route-Reads_example :
    SentOnly IsGet 3 world
      (execute_route outside whole scripted settings templates body none world).1.1
unfolding decode_envelope has
execute_route-Reads_example =
    execute_route-Reads outside whole scripted settings templates body none world refl

-- The answer is the document's address, printed.
routed : (execute_route outside whole scripted settings templates body none world).0 ≡ ok "{}"
unfolding execute_route integration_nfeio.Client.do_request
    integration_nfeio.Invoice.Document.retrieve_pdf integration_nfeio.Invoice.Document.decode_doc
    integration_nfeio.Execute.Input.decode_selection
routed = refl

abbrev triples : Wired ℕ (List Reply)
triples =
    wire_reconcilers outside.text_of whole scripted settings "unknown" templates "" http_emitter

-- An SDK that refuses the envelopes that it can read for want of a reconciler, and the other bodies
-- because it cannot read them.
abbrev answer_to : Option Fields → Dispatched
answer_to none = refused "decode envelope"
answer_to (some env) = refused "execute: reconcile: unsupported operation"

abbrev sdk : Sdk ℕ (List Reply)
sdk wired raw w = (answer_to (raw_map raw.doc), w)

-- It reads the bodies whose operation or capability it finds.
abbrev Reads : Bytes → Type 0
Reads raw = (env : Fields) × (raw_map raw.doc ≡ some env) × (envelope_operation env ≢ "")

sdk-IsSdk : IsSdk sdk triples Reads
unfolding contains has_prefix
sdk-IsSdk = record {
  unsupported =
      λ raw env w read e absent. ("execute: reconcile: unsupported operation", rw e refl, refl);
}

execute_handler_falls_back_example :
    execute_handler outside whole scripted settings templates sdk triples body none world
    ≡ typed outside whole scripted settings templates
        (execute_route outside whole scripted settings templates body none world)
unfolding has reconciled_operations wire_reconcilers envelope_operation as_map trim_space
    integration_nfeio.Execute.Handler.bridged integration_nfeio.Envelope.with_envelope_instance
    integration_nfeio.Envelope.with_service_invoice_destroy_ref
execute_handler_falls_back_example =
    execute_handler_falls_back outside whole scripted settings templates "" http_emitter sdk
      sdk-IsSdk body envelope none world (envelope, refl, ground (arith, eq_iff "retrieve_pdf" ""))
      refl refl

abbrev validation : ManageInput
validation = record { operation = "validate"; municipio_code = ""; yaml_content = "name: Rio" }

manage_template-IsVerdict_example :
    (out : ManageOutput ℕ) × (manage_template whole yaml templates validation ≡ ok out)
    × IsVerdict whole (well_formed rio) out
manage_template-IsVerdict_example = manage_template-IsVerdict whole yaml templates validation refl
