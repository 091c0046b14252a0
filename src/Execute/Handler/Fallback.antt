-- ===== src/Execute/Handler/Fallback.antt =====
-- Where the SDK hands an envelope back to `executeRoute`.
use integration_nfeio.Base.{
  String, ◌<>◌, true, false, Option, none, some, List, [], ◌∷◌, ◌≡◌, ◌≢◌, refl, sym, ◌∙◌, inl, inr,
  Bool-cases, contains,
}
use integration_nfeio.Json.{Json, Fields, end, insert_all, Bytes, raw_map, as_map}
use integration_nfeio.Json.Reparsed.{IsMap, as_map-IsMap, get-insert_all_end}
use integration_nfeio.Floats.{Floats}
use integration_nfeio.Config.{Config}
use integration_nfeio.Http.{Net, World}
use integration_nfeio.Client.{unlabelled}
use integration_nfeio.Template.{Templates}
use integration_nfeio.Municipalities.{Cache}
use integration_nfeio.Contract.{has}
use integration_nfeio.Envelope.{envelope_operation, with_envelope_instance}
use integration_nfeio.Envelope.Carried.{
  with_envelope_instance-IsMap, envelope_operation_of, envelope_operation-with_instance,
  with_ref_other,
}
use integration_nfeio.Reconcile.Wired.{Registration, Wired, Emitter, wire_reconcilers}
use integration_nfeio.Execute.{Outside, execute_route}
use integration_nfeio.Execute.Handler.{
  refused, Sdk, is_unsupported_reconcile_op, lifted_body, refer_lifted, bridged, typed,
  execute_handler,
}

abbrev triple : {S D O : Type 0} → Registration S D O → List String → List String
triple r rest =
    ("ensure_" <> r.singular) ∷ ("observe_" <> r.plural) ∷ ("destroy_" <> r.singular) ∷ rest

-- The operations that the SDK serves for the reconcilers that it was given.
unfoldable pub reconciled_operations : {F S : Type 0} → Wired F S → List String
reconciled_operations wired =
    triple wired.service_invoice (triple wired.company (triple wired.webhook_subscription []))

-- What the sources rely on of the SDK: an envelope that it can read, and whose operation, or else
-- capability, it has no reconciler for, is refused with a text that holds the words that they look
-- for, and nothing happens. `Reads` are the bodies that the SDK's type of an envelope takes.
pub record IsSdk {F S : Type 0} (sdk : Sdk F S) (wired : Wired F S) (Reads : Bytes → Type 0)
    : Type 0 where
  pub unsupported :
      (body : Bytes) (env : Fields) (w : World S)
      → Reads body
      → raw_map body.doc ≡ some env
      → has (reconciled_operations wired) (envelope_operation env) ≡ false
      → (text : String) × (sdk wired body w ≡ (refused text, w))
        × (contains text "reconcile: unsupported operation" ≡ true)

-- The body with the same operation that is printed, or the same body.
abbrev Carries : String → Bytes → Type 0
Carries op body = (env : Fields) × (raw_map body.doc ≡ some env) × (envelope_operation env ≡ op)

module _ (print : Json → String) where
  lifted_body-Carries :
      (raw : Bytes) (env : Fields)
      → raw_map raw.doc ≡ some env
      → IsMap env
      → Carries (envelope_operation env) (lifted_body print raw (with_envelope_instance env))
  unfolding as_map
  lifted_body-Carries raw env e h = elim (Bool-cases (with_envelope_instance env).changed) [
    | inl changed ↦
        let env' = (with_envelope_instance env).env in
        let m = with_envelope_instance-IsMap env h in
        rw changed (
          insert_all end env',
          refl,
          envelope_operation_of _ env' (get-insert_all_end "operation" env' m)
                (get-insert_all_end "capability" env' m)
              ∙ envelope_operation-with_instance env,
        )
    | inr same ↦ rw same (env, e, refl)
  ]

  refer_lifted_other :
      (raw : Bytes) (op : String)
      → Carries op raw
      → op ≢ "destroy_service_invoice"
      → refer_lifted print raw ≡ raw
  refer_lifted_other raw op (env, e, same) other =
      rw (e, with_ref_other env (λ d. other (sym same ∙ d))) refl

  raw_map-IsMap : (o : Option Json) {env : Fields} → raw_map o ≡ some env → IsMap env
  raw_map-IsMap none e = absurd (cc)
  raw_map-IsMap (some v) e = as_map-IsMap v e

  -- What the SDK is handed has the operation of the body, and is not given a ref.
  bridged-Carries :
      (raw : Bytes) (env : Fields)
      → raw_map raw.doc ≡ some env
      → envelope_operation env ≢ "destroy_service_invoice"
      → Carries (envelope_operation env) (bridged print raw)
  unfolding bridged
  bridged-Carries raw env e other =
      let carried = lifted_body-Carries raw env e (raw_map-IsMap raw.doc e) in
      rw
        (
          e,
          refer_lifted_other (lifted_body print raw (with_envelope_instance env))
              (envelope_operation env) carried other,
        )
        carried

recognised :
    (text : String)
    → contains text "reconcile: unsupported operation" ≡ true
    → is_unsupported_reconcile_op text ≡ true
unfolding is_unsupported_reconcile_op
recognised text words = rw words refl

module _ {F S : Type 0} (outside : Outside F S) (floats : Floats F) (net : Net S) (cfg : Config)
    (templates : Templates F) (instance_id : String) (emitter : Emitter) (sdk : Sdk F S) where
  abbrev wired : Wired F S
  wired = wire_reconcilers outside.text_of floats net cfg unlabelled templates instance_id emitter

  not_destroyed :
      (op : String) → has (reconciled_operations wired) op ≡ false → op ≢ "destroy_service_invoice"
  unfolding has reconciled_operations wire_reconcilers
  not_destroyed op absent e = let contra : true ≡ false = rw e at absent in cc

  -- With the reconcilers wired, a body that is an object whose operation, or else capability, is none
  -- of their nine is answered by executeRoute on that body as it came, if the SDK can read what it is
  -- handed, and refuses what it can read and has no reconciler for with a text that holds its
  -- documented words, doing nothing.
  pub execute_handler_falls_back :
      {Reads : Bytes → Type 0}
      → IsSdk sdk wired Reads
      → (raw : Bytes) (env : Fields) (cache : Option Cache) (w : World S)
      → Reads (bridged outside.text_of raw)
      → raw_map raw.doc ≡ some env
      → has (reconciled_operations wired) (envelope_operation env) ≡ false
      → execute_handler outside floats net cfg templates sdk wired raw cache w
        ≡ typed outside floats net cfg templates
            (execute_route outside floats net cfg templates raw cache w)
  unfolding execute_handler
  execute_handler_falls_back lawful raw env cache w read e absent =
      let op = envelope_operation env in
      let (env', e', same) = bridged-Carries outside.text_of raw env e (not_destroyed op absent) in
      let (text, answer, words) =
        lawful.unsupported (bridged outside.text_of raw) env' w read e' (rw same absent) in
      rw (answer, recognised text words) refl
