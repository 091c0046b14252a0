-- ===== src/Execute/Reading.antt =====
-- The operations of `executeRoute` that only read, and what they send.
use integration_nfeio.Base.{
  String, true, Option, none, some, List, [], ◌∷◌, ◌≡◌, refl, inl, inr, arith, Bool-cases,
}
use integration_nfeio.Json.{Json, Bytes}
use integration_nfeio.Floats.{Floats}
use integration_nfeio.Config.{Config}
use integration_nfeio.Http.{Net, Result, ok, err, World}
use integration_nfeio.Client.Sends.{
  SentOnly, SentOnly-refl, SentOnly-weaken, Sends-pure, Sends-bind,
}
use integration_nfeio.Client.Reads.{IsGet, Reads, Reads-pure}
use integration_nfeio.Template.{Templates}
use integration_nfeio.Tax.{calculate_iss}
use integration_nfeio.Manage.{manage_template}
use integration_nfeio.Invoice.Reads.{
  retrieve_pdf-Reads, retrieve_xml-Reads, observe_service_invoices-Reads,
}
use integration_nfeio.Company.Reads.{observe_companies-Reads}
use integration_nfeio.Subscription.Remove.Observed.{observe_webhook_subscriptions-Reads}
use integration_nfeio.Municipalities.{ListInput, ListOutput, Cache}
use integration_nfeio.Municipalities.Reads.{list_municipalities-Reads}
use integration_nfeio.Contract.{has}
use integration_nfeio.Spec.Operations.{
  op_observe_service_invoices, op_retrieve_pdf, op_retrieve_xml, op_observe_companies,
  op_observe_municipalities, op_manage_template, op_calculate_iss, op_observe_webhook_subscriptions,
}
use integration_nfeio.Execute.Input.{
  decode_selection, empty_selection, decode_list_input, empty_list_input, decode_manage_input,
  empty_manage_input, decode_tax_input, empty_tax_input,
}
use integration_nfeio.Execute.{
  Outside, Output, decode_input, decode_envelope, perform, listed, list_cached, run_route, Routed,
  print_output, execute_route,
}
use integration_nfeio.Execute.Cases.{
  Case, on_ensure_service_invoice, on_observe_service_invoices, on_destroy_service_invoice,
  on_retrieve_pdf, on_retrieve_xml, on_ensure_company, on_observe_companies, on_manage_template,
  on_bulk_issue, on_calculate_iss, on_ensure_webhook_subscription, on_observe_webhook_subscriptions,
  on_destroy_webhook_subscription, Route, by_client, on_observe_municipalities,
}
use integration_nfeio.Execute.Known.{operation_of, execute_route-known}

-- The operations that are not to change anything at the provider.
abbrev pub reading_operations : List String
reading_operations =
    op_observe_service_invoices ∷ op_retrieve_pdf ∷ op_retrieve_xml ∷ op_observe_companies
    ∷ op_observe_municipalities ∷ op_manage_template ∷ op_calculate_iss
    ∷ op_observe_webhook_subscriptions ∷ []

module _ {F S : Type 0} (outside : Outside F S) (floats : Floats F) (net : Net S) (cfg : Config)
    (templates : Templates F) where
  perform-Reads :
      (op : String) (r : Case) (input : Option Json)
      → has reading_operations (operation_of (by_client r)) ≡ true
      → Reads (perform outside floats net cfg templates op r input)
  unfolding perform has
  perform-Reads op on_ensure_service_invoice input h = absurd (cc)
  perform-Reads op on_observe_service_invoices input h =
      Sends-bind (observe_service_invoices-Reads net cfg op floats _) (λ out. Sends-pure (ok _))
  perform-Reads op on_destroy_service_invoice input h = absurd (cc)
  perform-Reads op on_retrieve_pdf input h =
      Sends-bind (Sends-pure (decode_input decode_selection empty_selection input))
        (λ in'. Sends-bind (retrieve_pdf-Reads net cfg op in') (λ out. Sends-pure (ok _)))
  perform-Reads op on_retrieve_xml input h =
      Sends-bind (Sends-pure (decode_input decode_selection empty_selection input))
        (λ in'. Sends-bind (retrieve_xml-Reads net cfg op in') (λ out. Sends-pure (ok _)))
  perform-Reads op on_ensure_company input h = absurd (cc)
  perform-Reads op on_observe_companies input h =
      Sends-bind (observe_companies-Reads net cfg op _) (λ out. Sends-pure (ok _))
  perform-Reads op on_manage_template input h =
      Sends-bind (Sends-pure (decode_input decode_manage_input empty_manage_input input)) (λ in'.
        Sends-bind (Reads-pure (manage_template floats outside.yaml templates in'))
          (λ out. Sends-pure (ok _)))
  perform-Reads op on_bulk_issue input h = absurd (cc)
  perform-Reads op on_calculate_iss input h =
      Sends-bind
        (Sends-pure (decode_input (decode_tax_input floats) (empty_tax_input floats) input))
        (λ in'.
          Sends-bind (Reads-pure (calculate_iss floats templates in')) (λ out. Sends-pure (ok _)))
  perform-Reads op on_ensure_webhook_subscription input h = absurd (cc)
  perform-Reads op on_observe_webhook_subscriptions input h =
      Sends-bind (observe_webhook_subscriptions-Reads net cfg op input) (λ out. Sends-pure (ok _))
  perform-Reads op on_destroy_webhook_subscription input h = absurd (cc)

  none_sent : (w : World S) → SentOnly IsGet 3 w w
  none_sent w = SentOnly-weaken IsGet 0 3 w w (omega arith) (SentOnly-refl IsGet w)

  listed-world :
      (p : Result ListOutput × (Cache × World S))
      → (listed outside floats net cfg templates p).1.1 ≡ p.1.1
  listed-world (ok out, (c, w)) = refl
  listed-world (err e, (c, w)) = refl

  list_cached-Reads :
      (op : String) (in' : Result ListInput) (cache : Option Cache) (w : World S)
      → SentOnly IsGet 3 w (list_cached outside floats net cfg templates op in' cache w).1.1
  list_cached-Reads op (err e) cache w = none_sent w
  list_cached-Reads op (ok in') none w = none_sent w
  list_cached-Reads op (ok in') (some c) w =
      rw listed-world (list_municipalities-Reads net outside.now cfg op in' c w)

  run_route-Reads :
      (r : Route) (input : Option Json) (cache : Option Cache) (w : World S)
      → has reading_operations (operation_of r) ≡ true
      → SentOnly IsGet 3 w
          (run_route outside floats net cfg templates (operation_of r) r input cache w).1.1
  unfolding run_route
  run_route-Reads (by_client r) input cache w h = (perform-Reads _ r input h).run w
  run_route-Reads on_observe_municipalities input cache w h =
      list_cached-Reads _ (decode_input decode_list_input empty_list_input input) cache w

  print_output-state :
      (p : Routed outside floats net cfg templates (Output F))
      → (print_output outside floats net cfg templates p).1 ≡ p.1
  print_output-state (ok out, s) = refl
  print_output-state (err e, s) = refl

  -- An envelope that names an observe or retrieve operation, the template catalogue or the tax
  -- calculation sends at most three requests, all of them GETs, whatever its input, the cache and the
  -- provider's answers.
  pub execute_route-Reads :
      (raw : Bytes) (cache : Option Cache) (w : World S)
      → has reading_operations (decode_envelope raw).value.operation ≡ true
      → SentOnly IsGet 3 w (execute_route outside floats net cfg templates raw cache w).1.1
  execute_route-Reads raw cache w h = elim (Bool-cases (decode_envelope raw).failed) [
    | inl bad ↦ unfold execute_route in rw bad (none_sent w)
    | inr fine ↦ elim (execute_route-known outside floats net cfg templates raw cache w fine) [
      | inl (absent, e) ↦ rw e (none_sent w)
      | inr (r, present, e, answer) ↦
          rw (answer, print_output-state _)
            (run_route-Reads r (decode_envelope raw).value.input cache w (rw e at h))
    ]
  ]
