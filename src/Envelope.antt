-- ===== src/Envelope.antt =====
-- The rewrites of an execute envelope in providers/nfeio/adapter/adapter.go: `withEnvelopeInstance` and
-- `withServiceInvoiceDestroyRef`, on the map that the body decodes to.
pub mod Lifted
pub mod Referred
pub mod Carried
use integration_nfeio.Base.{
  String, Bool, true, false, ◌||◌, ◌&&◌, not, Option, none, some, List, [], ◌∷◌, eq_str, trim_space,
  if◌then◌else◌,
}
use integration_nfeio.Json.{
  Json, null, str, obj, Fields, field, get, insert, as_map, raw_map, string_of, Decoder, Decoded,
  decode_struct, store, keep, read_string,
}

-- `rawFieldAbsent`: missing, `null` or the empty string.
abbrev pub field_absent : Option Json → Bool
field_absent none = true
field_absent (some null) = true
field_absent (some (str s)) = eq_str s ""
field_absent (some _) = false

-- A text that is not blank, trimmed.
abbrev pub non_blank : String → Option String
non_blank s = if eq_str (trim_space s) "" then none else some (trim_space s)

abbrev decode_name : Decoder String
decode_name = decode_struct ("name" ∷ []) (λ n v a. store (read_string v) (λ s. s) a)

abbrev decode_instance : Decoder String
decode_instance = decode_struct ("instance" ∷ []) (λ n v a. decode_name v a)

abbrev decoded_text : Decoded String → Option String
decoded_text d = if d.failed then none else non_blank d.value

abbrev named_in : Option Json → Option String
named_in none = none
named_in (some raw) = decoded_text (decode_instance raw "")

-- The name that the envelope gives to the integration instance.
unfoldable pub instance_name : Fields → Option String
unfolding decode_struct get
instance_name env = named_in (get "integration" env)

abbrev text_in : Option String → Option String
text_in none = none
text_in (some s) = non_blank s

abbrev decode_metadata : Decoder (Option Json)
decode_metadata = decode_struct ("idempotency" ∷ []) (λ n v a. keep (some v))

abbrev keyed_by : Decoded (Option Json) → Option String
keyed_by d = if d.failed then none else text_in (string_of d.value)

abbrev keyed_in : Option Json → Option String
keyed_in none = none
keyed_in (some raw) = keyed_by (decode_metadata raw none)

-- The key that the envelope's metadata holds.
unfoldable pub idempotency_key : Fields → Option String
unfolding decode_struct get
idempotency_key env = keyed_in (get "metadata" env)

-- The envelope, with whether it was changed.
pub record Lift : Type 0 where
  pub env : Fields
  pub changed : Bool

abbrev lift_value : String → Option String → Lift → Lift
lift_value k none l = l
lift_value k (some v) l = record { env = insert k (str v) l.env; changed = true }

abbrev lift_field : String → Option String → Lift → Lift
lift_field k v l = if field_absent (get k l.env) then lift_value k v l else l

-- `withEnvelopeInstance`, on a body that is an object.
unfoldable pub with_envelope_instance : Fields → Lift
unfolding get insert instance_name idempotency_key
with_envelope_instance env =
    let first =
      lift_field "instance_id" (instance_name env) (record { env = env; changed = false }) in
    lift_field "idempotency" (idempotency_key first.env) first

abbrev or_else : Option String → Option String → String
or_else (some s) _ = s
or_else none (some t) = t
or_else none none = ""

-- `envelopeOperation`.
unfoldable pub envelope_operation : Fields → String
unfolding get
envelope_operation env =
    or_else (text_in (string_of (get "operation" env))) (text_in (string_of (get "capability" env)))

abbrev has_ref : Fields → Bool
has_ref input =
    not (field_absent (get "ref" input))
    || not (field_absent (get "service_invoice_id" input))
    || not (field_absent (get "id" input))

abbrev refer : Fields → Fields → Option String → Option Fields
refer env input none = none
refer env input (some invoice_id) =
    if eq_str (trim_space invoice_id) ""
    then none
    else some (insert "input" (obj (insert "ref" (str invoice_id) input)) env)

abbrev refer_in : Fields → Option Fields → Option Fields
refer_in env none = none
refer_in env (some input) =
    if has_ref input then none else refer env input (string_of (get "invoice_id" input))

-- `withServiceInvoiceDestroyRef`, on a body that is an object; `none` leaves the body as it is.
unfoldable pub with_service_invoice_destroy_ref : Fields → Option Fields
unfolding get insert as_map envelope_operation
with_service_invoice_destroy_ref env =
    if not (eq_str (envelope_operation env) "destroy_service_invoice")
    then none
    else refer_in env (raw_map (get "input" env))
