-- ===== src/Envelope/Lifted.antt =====
-- What `withEnvelopeInstance` sets, and what it leaves alone.
use integration_nfeio.Base.{
  String, false, Option, none, some, ◌≡◌, ◌≢◌, ap, ap₂, sym, ◌∙◌, inl, inr, arith, Bool-cases,
  eq_iff, if◌then◌else◌,
}
use integration_nfeio.Json.{Json, str, Fields, get}
use integration_nfeio.Json.Maps.{get-insert_self, get-insert_ne}
use integration_nfeio.Envelope.{
  field_absent, instance_name, idempotency_key, Lift, keyed_in, lift_field, with_envelope_instance,
}

-- The value that a field has after a lift.
abbrev pub lifted_value : Option Json → Option String → Option Json
lifted_value old none = old
lifted_value old (some v) = if field_absent old then some (str v) else old

get-lift_field :
    (k : String) (v : Option String) (l : Lift)
    → get k (lift_field k v l).env ≡ lifted_value (get k l.env) v
get-lift_field k none l = elim (Bool-cases (field_absent (get k l.env))) [
  | inl absent ↦ rw absent
  | inr present ↦ rw present
]
get-lift_field k (some x) l = elim (Bool-cases (field_absent (get k l.env))) [
  | inl absent ↦ rw absent (get-insert_self k (str x) l.env)
  | inr present ↦ rw present
]

get-lift_field_ne :
    (k j : String) (v : Option String) (l : Lift)
    → k ≢ j
    → get j (lift_field k v l).env ≡ get j l.env
get-lift_field_ne k j none l ne = elim (Bool-cases (field_absent (get k l.env))) [
  | inl absent ↦ rw absent
  | inr present ↦ rw present
]
get-lift_field_ne k j (some x) l ne = elim (Bool-cases (field_absent (get k l.env))) [
  | inl absent ↦ rw absent (get-insert_ne k j (str x) l.env ne)
  | inr present ↦ rw present
]

lift_field_unchanged :
    (k : String) (v : Option String) (l : Lift)
    → (lift_field k v l).changed ≡ false
    → ((lift_field k v l).env ≡ l.env) × (l.changed ≡ false)
lift_field_unchanged k none l h = elim (Bool-cases (field_absent (get k l.env))) [
  | inl absent ↦ (rw absent, rw absent at h)
  | inr present ↦ (rw present, rw present at h)
]
lift_field_unchanged k (some x) l h = elim (Bool-cases (field_absent (get k l.env))) [
  | inl absent ↦ absurd (ground arith)
  | inr present ↦ (rw present, rw present at h)
]

-- How the envelope `env'` follows from `env`.
pub record IsLifted (env : Fields) (lift : Lift) : Type 0 where
  pub instance_id :
      get "instance_id" lift.env ≡ lifted_value (get "instance_id" env) (instance_name env)
  pub idempotency :
      get "idempotency" lift.env ≡ lifted_value (get "idempotency" env) (idempotency_key env)
  pub kept : (k : String) → k ≢ "instance_id" → k ≢ "idempotency" → get k lift.env ≡ get k env
  pub unchanged : lift.changed ≡ false → lift.env ≡ env

distinct :
    (◌≢◌ {A = String} "instance_id" "idempotency") × (◌≢◌ {A = String} "instance_id" "metadata")
distinct = (
  ground (arith, eq_iff "instance_id" "idempotency"),
  ground (arith, eq_iff "instance_id" "metadata"),
)

abbrev first_lift : Fields → Lift
first_lift env =
    lift_field "instance_id" (instance_name env) (record { env = env; changed = false })

idempotency_key_kept : (env : Fields) → idempotency_key (first_lift env).env ≡ idempotency_key env
unfolding idempotency_key
idempotency_key_kept env = ap keyed_in (
    get-lift_field_ne "instance_id" "metadata" (instance_name env)
      (record { env = env; changed = false }) distinct.1)

-- Each of instance_id and idempotency takes the name of the instance and the key of the metadata,
-- where the envelope has none of its own and such a text is given; every other field, the input
-- included, is kept; and where nothing is reported as changed, nothing is.
pub with_envelope_instance-IsLifted : (env : Fields) → IsLifted env (with_envelope_instance env)
unfolding with_envelope_instance
with_envelope_instance-IsLifted env =
    let start : Lift = record { env = env; changed = false } in
    let first = first_lift env in
    let key = idempotency_key first.env in
    record {
      instance_id =
          get-lift_field_ne "idempotency" "instance_id" key first (λ e. distinct.0 (sym e))
          ∙ get-lift_field "instance_id" (instance_name env) start;
      idempotency =
          get-lift_field "idempotency" key first
          ∙ ap₂ lifted_value
              (get-lift_field_ne "instance_id" "idempotency" (instance_name env) start distinct.0)
              (idempotency_key_kept env);
      kept = λ k p q.
          get-lift_field_ne "idempotency" k key first (λ e. q (sym e))
          ∙ get-lift_field_ne "instance_id" k (instance_name env) start (λ e. p (sym e));
      unchanged = λ h.
          let (second, still) = lift_field_unchanged "idempotency" key first h in
          second ∙ (lift_field_unchanged "instance_id" (instance_name env) start still).0;
    }
