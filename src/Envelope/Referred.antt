-- ===== src/Envelope/Referred.antt =====
-- When `withServiceInvoiceDestroyRef` changes an envelope, and to what.
use integration_nfeio.Base.{
  String, true, false, Option, none, some, ◌≡◌, ◌≢◌, refl, sym, inl, inr, arith, Bool-cases, eq_str,
  eq_iff, ne_of_eq-false, trim_space,
}
use integration_nfeio.Json.{str, obj, Fields, get, insert, raw_map, string_of}
use integration_nfeio.Json.Maps.{get-insert_self, get-insert_ne}
use integration_nfeio.Envelope.{
  field_absent, envelope_operation, has_ref, refer, refer_in, with_service_invoice_destroy_ref,
}

-- How the envelope `env'` follows from `env`, whose input is `input` with the given invoice.
pub record IsReferred (env env' : Fields) : Type 0 where
  pub input : Fields
  pub invoice_id : String
  pub operation : envelope_operation env ≡ "destroy_service_invoice"
  pub given : raw_map (get "input" env) ≡ some input
  pub free :
      (field_absent (get "ref" input) ≡ true)
      × (field_absent (get "service_invoice_id" input) ≡ true)
      × (field_absent (get "id" input) ≡ true)
  pub named : string_of (get "invoice_id" input) ≡ some invoice_id
  pub not_blank : trim_space invoice_id ≢ ""
  pub referred : get "input" env' ≡ some (obj (insert "ref" (str invoice_id) input))
  pub kept : (k : String) → k ≢ "input" → get k env' ≡ get k env

refer-some :
    (env input : Fields) (o : Option String) {env' : Fields}
    → refer env input o ≡ some env'
    → (s : String) × (o ≡ some s)
      × (trim_space s ≢ "")
      × (insert "input" (obj (insert "ref" (str s) input)) env ≡ env')
refer-some env input none h = absurd (cc)
refer-some env input (some s) h = elim (Bool-cases (eq_str (trim_space s) "")) [
  | inl blank ↦ absurd (ground arith)
  | inr full ↦ (s, refl, ne_of_eq-false _ _ full, ground arith)
]

refer_in-some :
    (env : Fields) (o : Option Fields) {env' : Fields}
    → refer_in env o ≡ some env'
    → (input : Fields) × (o ≡ some input)
      × (has_ref input ≡ false)
      × (refer env input (string_of (get "invoice_id" input)) ≡ some env')
refer_in-some env none h = absurd (cc)
refer_in-some env (some input) h = elim (Bool-cases (has_ref input)) [
  | inl taken ↦ absurd (ground arith)
  | inr free ↦ (input, refl, free, rw free at h)
]

-- Where the envelope is changed, it is one of destroy_service_invoice, its input is an object with
-- none of ref, service_invoice_id and id and with an invoice_id that is not blank, and the change
-- is that this text is the input's ref.
pub with_ref-IsReferred :
    (env : Fields) {env' : Fields}
    → with_service_invoice_destroy_ref env ≡ some env'
    → IsReferred env env'
unfolding with_service_invoice_destroy_ref
with_ref-IsReferred env {env'} h =
    elim (Bool-cases (eq_str (envelope_operation env) "destroy_service_invoice")) [
      | inr other ↦ absurd (ground arith)
      | inl destroy ↦
          let (input, given, free, step) =
            refer_in-some env (raw_map (get "input" env)) {env' = env'} (rw destroy at h) in
          let (s, named, full, made) =
            refer-some env input (string_of (get "invoice_id" input)) {env' = env'} step in
          record {
            input = input;
            invoice_id = s;
            operation = ground (arith, eq_iff (envelope_operation env) "destroy_service_invoice");
            given = given;
            free = (ground arith, ground arith, ground arith);
            named = named;
            not_blank = full;
            referred = rw (← made) (get-insert_self "input" _ env);
            kept = λ k ne. rw (← made) (get-insert_ne "input" k _ env (λ e. ne (sym e)));
          }
    ]
