-- ===== src/Execute/Known.antt =====
-- Which operations `executeRoute` knows, beside `SupportedExecuteOperations` of spec.go.
use text.Mathlib.TextEquality.{eq_iff}
use integration_nfeio.Base.{
  String, true, false, Option, none, some, List, [], ◌∷◌, map, All, eq_str, ◌≡◌, refl, sym, ap, ◌∙◌,
  ◌⊎◌, inl, inr, Bool-cases,
}
use integration_nfeio.Json.{Bytes}
use integration_nfeio.Floats.{Floats}
use integration_nfeio.Config.{Config}
use integration_nfeio.Http.{Net, err, World}
use integration_nfeio.Template.{Templates}
use integration_nfeio.Municipalities.{Cache}
use integration_nfeio.Contract.{has}
use integration_nfeio.Spec.Operations.{
  op_ensure_service_invoice, op_observe_service_invoices, op_destroy_service_invoice,
  op_retrieve_pdf, op_retrieve_xml, op_ensure_company, op_observe_companies,
  op_observe_municipalities, op_manage_template, op_bulk_issue, op_calculate_iss,
  op_ensure_webhook_subscription, op_observe_webhook_subscriptions, op_destroy_webhook_subscription,
  supported_execute_operations,
}
use integration_nfeio.Execute.{
  Outside, decode_envelope, run_route, print_output, unknown_operation, execute_route,
}
use integration_nfeio.Execute.Cases.{
  Case, on_ensure_service_invoice, on_observe_service_invoices, on_destroy_service_invoice,
  on_retrieve_pdf, on_retrieve_xml, on_ensure_company, on_observe_companies, on_manage_template,
  on_bulk_issue, on_calculate_iss, on_ensure_webhook_subscription, on_observe_webhook_subscriptions,
  on_destroy_webhook_subscription, Route, by_client, on_observe_municipalities, routes, find_route,
}

-- The operation that a case serves.
abbrev pub served : Case → String
served on_ensure_service_invoice = op_ensure_service_invoice
served on_observe_service_invoices = op_observe_service_invoices
served on_destroy_service_invoice = op_destroy_service_invoice
served on_retrieve_pdf = op_retrieve_pdf
served on_retrieve_xml = op_retrieve_xml
served on_ensure_company = op_ensure_company
served on_observe_companies = op_observe_companies
served on_manage_template = op_manage_template
served on_bulk_issue = op_bulk_issue
served on_calculate_iss = op_calculate_iss
served on_ensure_webhook_subscription = op_ensure_webhook_subscription
served on_observe_webhook_subscriptions = op_observe_webhook_subscriptions
served on_destroy_webhook_subscription = op_destroy_webhook_subscription

abbrev pub operation_of : Route → String
operation_of (by_client r) = served r
operation_of on_observe_municipalities = op_observe_municipalities

abbrev names : List (String × Route) → List String
names rs = map (λ (p : String × Route). p.0) rs

abbrev IsNamed : String × Route → Type 0
IsNamed (name, r) = name ≡ operation_of r

-- Looking an operation up finds nothing, or the route of that name.
find_route-cases :
    (op : String) (rs : List (String × Route))
    → All IsNamed rs
    → ((find_route op rs ≡ none) × (has (names rs) op ≡ false))
      ⊎ ((r : Route) × (find_route op rs ≡ some r)
          × (op ≡ operation_of r)
          × (has (names rs) op ≡ true))
unfolding find_route has
find_route-cases op [] h = inl (refl, refl)
find_route-cases op ((name, r) ∷ rs) (named, h) = elim (Bool-cases (eq_str name op)) [
  | inl same ↦
      let e : name ≡ op = (eq_iff name op).0 same in
      inr (r, rw same refl, sym e ∙ named, rw same refl)
  | inr other ↦ elim (find_route-cases op rs h) [
    | inl (missing, absent) ↦ inl (rw other missing, rw other absent)
    | inr (s, found, e, present) ↦ inr (s, rw other found, e, rw other present)
  ]
]

routes-IsNamed : All IsNamed routes
unfolding routes
routes-IsNamed = (
  refl,
  (
    refl,
    (
      refl,
      (refl, (refl, (refl, (refl, (refl, (refl, (refl, (refl, (refl, (refl, (refl, tt))))))))))),
    ),
  ),
)

routes-names : names routes ≡ supported_execute_operations
unfolding routes supported_execute_operations
routes-names = refl

module _ {F S : Type 0} (outside : Outside F S) (floats : Floats F) (net : Net S) (cfg : Config)
    (templates : Templates F) where
  -- An envelope that decodes is refused as an unknown operation, with cache and world as they were,
  -- where its operation is not one of the supported ones; where it is, the answer is the printed
  -- output of that operation's own case on the input.
  pub execute_route-known :
      (raw : Bytes) (cache : Option Cache) (w : World S)
      → (decode_envelope raw).failed ≡ false
      → let env = (decode_envelope raw).value in
        ((has supported_execute_operations env.operation ≡ false)
          × (execute_route outside floats net cfg templates raw cache w ≡ (
            err (unknown_operation outside floats net cfg templates env.operation),
            (cache, w),
          )))
        ⊎ ((r : Route) × (has supported_execute_operations env.operation ≡ true)
            × (env.operation ≡ operation_of r)
            × (execute_route outside floats net cfg templates raw cache w
                ≡ print_output outside floats net cfg templates (
                    run_route outside floats net cfg templates
                      (operation_of r)
                      r
                      env.input
                      cache
                      w)))
  unfolding execute_route
  execute_route-known raw cache w fine =
      let env = (decode_envelope raw).value in
      elim (find_route-cases env.operation routes routes-IsNamed) [
        | inl (missing, absent) ↦ inl (rw routes-names at absent, rw (fine, missing) refl)
        | inr (r, found, e, present) ↦ inr (
          r,
          rw routes-names at present,
          e,
          rw (fine, found)
              (ap
                (λ op.
                  print_output outside floats net cfg templates
                    (run_route outside floats net cfg templates op r env.input cache w))
                e),
        )
      ]
