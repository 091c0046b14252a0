-- ===== src/Envelope/Carried.antt =====
-- What the rewrites of an envelope keep: that it is a Go map, and its operation.
use integration_nfeio.Base.{
  String, false, Option, none, some, ◌≡◌, ◌≢◌, ap₂, inl, inr, arith, Bool-cases, eq_iff,
}
use integration_nfeio.Json.{Json, str, Fields, get}
use integration_nfeio.Json.Reparsed.{IsMap, insert-IsMap}
use integration_nfeio.Envelope.{
  field_absent, instance_name, Lift, lift_field, text_in, or_else, envelope_operation,
  with_envelope_instance, with_service_invoice_destroy_ref,
}
use integration_nfeio.Envelope.Lifted.{with_envelope_instance-IsLifted}
use integration_nfeio.Json.{string_of}

lift_field-IsMap :
    (k : String) (v : Option String) (l : Lift) → IsMap l.env → IsMap (lift_field k v l).env
lift_field-IsMap k none l h = elim (Bool-cases (field_absent (get k l.env))) [
  | inl absent ↦ rw absent h
  | inr present ↦ rw present h
]
lift_field-IsMap k (some x) l h = elim (Bool-cases (field_absent (get k l.env))) [
  | inl absent ↦ rw absent (insert-IsMap k (str x) l.env h)
  | inr present ↦ rw present h
]

pub with_envelope_instance-IsMap :
    (env : Fields) → IsMap env → IsMap (with_envelope_instance env).env
unfolding with_envelope_instance
with_envelope_instance-IsMap env h =
    lift_field-IsMap "idempotency" _ _
      (lift_field-IsMap "instance_id" (instance_name env) (record { env = env; changed = false }) h)

-- The operation is read from two fields.
pub envelope_operation_of :
    (env env' : Fields)
    → get "operation" env ≡ get "operation" env'
    → get "capability" env ≡ get "capability" env'
    → envelope_operation env ≡ envelope_operation env'
unfolding envelope_operation
envelope_operation_of env env' p q =
    ap₂ (λ (o c : Option Json). or_else (text_in (string_of o)) (text_in (string_of c))) p q

pub envelope_operation-with_instance :
    (env : Fields) → envelope_operation (with_envelope_instance env).env ≡ envelope_operation env
envelope_operation-with_instance env =
    let lifted = with_envelope_instance-IsLifted env in
    envelope_operation_of _ env
      (lifted.kept "operation" (ground (arith, eq_iff "operation" "instance_id"))
        (ground (arith, eq_iff "operation" "idempotency")))
      (lifted.kept "capability" (ground (arith, eq_iff "capability" "instance_id"))
        (ground (arith, eq_iff "capability" "idempotency")))

-- Only an envelope of this operation is given a ref.
pub with_ref_other :
    (env : Fields)
    → envelope_operation env ≢ "destroy_service_invoice"
    → with_service_invoice_destroy_ref env ≡ none
unfolding with_service_invoice_destroy_ref
with_ref_other env h = ground (arith, eq_iff (envelope_operation env) "destroy_service_invoice")
