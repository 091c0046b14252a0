-- ===== src/Examples/Batches.antt =====
-- Batches, the municipalities cache and the contract on concrete data.
use integration_nfeio.Base.{
  ℕ, zero, suc, ◌+◌, ◌≤◌, ◌<◌, String, Bool, true, false, Option, none, some, List, [], ◌∷◌, length,
  get_elem?, pos, ◌≡◌, ◌≢◌, refl, sym, ◌⊎◌, inl, inr, ◌↔◌, arith,
}
use integration_nfeio.Http.{Reply, Error, message, err, ok, World}
use integration_nfeio.Tax.{TaxInput, TaxOutput, calculate_iss}
use integration_nfeio.Tax.Charged.{IsOrder, IsCharged, calculate_iss-IsCharged}
use integration_nfeio.Template.{MunicipioTemplate, Templates, find_template, load_templates}
use integration_nfeio.Base.{ltb, ◌*◌, if◌then◌else◌}
use integration_nfeio.Invoice.{IssueInput}
use integration_nfeio.Bulk.{BulkInput, BulkOutput, bulk_issue}
use integration_nfeio.Bulk.Complete.{Runs, IsSchedule, IsComplete, bulk_issue-IsComplete}
use integration_nfeio.Municipalities.{
  ListInput, ListOutput, Cache, cache_key, normalize, lookup, list_municipalities, no_list,
}
use integration_nfeio.Municipalities.Cached.{list_present, list_again}
use integration_nfeio.Contract.{lint_describe_contract}
use integration_nfeio.Contract.Consistent.{IsConsistent, lint_describe_contract_iff}
use integration_nfeio.Spec.{describe, project}
use integration_nfeio.Spec.Operations.{supported_execute_operations}
use integration_nfeio.Examples.{scripted, reply, settings, at_start}
use integration_nfeio.Examples.Invoices.{whole, order, rio, directory}

abbrev second : IssueInput ℕ
second = record order { external_id = "x2"; municipio_code = "0" }

abbrev batch : BulkInput ℕ
batch = record { company_id = ""; items = order ∷ second ∷ []; fail_fast = false }

-- The second item runs first.
abbrev reversed : List (ℕ × IssueInput ℕ)
reversed = (1, second) ∷ (0, order) ∷ []

reversed-every : (i : ℕ) (x : IssueInput ℕ) → get_elem? batch.items i ≡ some x → Runs i x reversed
reversed-every zero x h = inr (inl (refl, some_order order x h))
  where
    some_order : (a b : IssueInput ℕ) → some a ≡ some b → b ≡ a
    some_order a b e = cc
reversed-every (suc zero) x h = inl (refl, some_order second x h)
  where
    some_order : (a b : IssueInput ℕ) → some a ≡ some b → b ≡ a
    some_order a b e = cc
reversed-every (suc (suc i)) x h = absurd (cc)

reversed-IsSchedule : IsSchedule batch.items reversed
reversed-IsSchedule = record { own = (refl, (refl, tt)); every = reversed-every }

abbrev error_text : Error → String
error_text e = "error"

abbrev pub quiet : World (List Reply)
quiet = at_start (reply 200 "" none ∷ [])

bulk_issue-IsComplete_example :
    (out : BulkOutput) × ((bulk_issue whole error_text scripted settings
        (("3304557", rio) ∷ [])
        reversed
        batch
        quiet).0
      ≡ ok out)
    × IsComplete whole error_text scripted settings (("3304557", rio) ∷ []) batch out
bulk_issue-IsComplete_example =
    bulk_issue-IsComplete whole error_text scripted settings (("3304557", rio) ∷ []) reversed batch
      quiet (omega arith) reversed-IsSchedule

abbrev pub question : ListInput
question = record { state_code = "RJ"; page = pos 0; page_size = pos 900 }

-- A clock that counts the replies that are left, down from ten.
abbrev pub clock : List Reply → ℕ
clock replies = length replies + 1

abbrev old_answer : ListOutput
old_answer = record no_list { total = pos 7 }

abbrev stale : Cache
stale = record {
  ttl = 5;
  entries = (cache_key (normalize question), record { stored = old_answer; expires_at = 0 }) ∷ [];
}

abbrev outage : World (List Reply)
outage = at_start (reply 500 "" none ∷ [])

list_present_example :
    (out : ListOutput) × ((list_municipalities scripted clock settings "op" question stale outage).0
      ≡ ok out)
unfolding lookup cache_key normalize integration_nfeio.Base.show_int
list_present_example =
    list_present scripted clock settings "op" question stale outage
      {e = record { stored = old_answer; expires_at = 0 }} refl

abbrev pub empty : Cache
empty = record { ttl = 5; entries = [] }

abbrev pub cached : Cache
unfolding cache_key normalize
cached = record {
  ttl = 5;
  entries = ("RJ|p1|s500", record { stored = no_list; expires_at = 6 }) ∷ [];
}

abbrev pub after_fetch : World (List Reply)
after_fetch = (list_municipalities scripted clock settings "op" question empty quiet).1.1

pub list_fetched :
    list_municipalities scripted clock settings "op" question empty quiet
    ≡ (ok no_list, (cached, after_fetch))
unfolding list_municipalities integration_nfeio.Client.do_request cached
    integration_nfeio.Base.show_int
list_fetched = refl

list_again_example :
    list_municipalities scripted clock settings "op" question cached after_fetch
    ≡ (ok no_list, (cached, after_fetch))
unfolding list_municipalities integration_nfeio.Client.do_request cached
    integration_nfeio.Base.show_int
list_again_example =
    list_again scripted clock settings "op" question empty cached quiet after_fetch refl refl
      (omega arith)

lint_describe_contract_iff_example :
    (lint_describe_contract
        (record { resource_types = []; action_catalog = []; idempotent_actions = "x" ∷ [] })
        ("x" ∷ [])
      ≡ none)
    ↔ IsConsistent
        (record { resource_types = []; action_catalog = []; idempotent_actions = "x" ∷ [] })
        ("x" ∷ [])
lint_describe_contract_iff_example =
    lint_describe_contract_iff
      (record { resource_types = []; action_catalog = []; idempotent_actions = "x" ∷ [] })
      ("x" ∷ [])

-- The lint passes what the adapter describes.
linted :
    lint_describe_contract (project (describe (λ s. s) "amqp")) supported_execute_operations ≡ none
unfolding describe project lint_describe_contract
linted = refl

abbrev sale : TaxInput ℕ
sale = record {
  municipio_code = "3304557";
  service_amount = 100;
  iss_rate_override = 3;
  deductions = 40;
}

whole-IsOrder : IsOrder whole
whole-IsOrder = record {
  irreflexive = λ x. ground arith;
  asymmetric = λ x y less. ground arith;
  exclusive = λ x y less. ground arith;
}

calculate_iss-IsCharged_example :
    let templates : Templates ℕ = ("3304557", rio) ∷ [] in
    ((find_template "3304557" templates ≡ none)
      × (calculate_iss whole templates sale ≡ err (message "template_not_found: 3304557")))
    ⊎ ((tpl : MunicipioTemplate ℕ) × (out : TaxOutput ℕ) × (find_template "3304557" templates
          ≡ some tpl)
        × (calculate_iss whole templates sale ≡ ok out)
        × IsCharged whole tpl sale out)
unfolding find_template load_templates integration_nfeio.Base.has_suffix
calculate_iss-IsCharged_example =
    calculate_iss-IsCharged whole whole-IsOrder (some directory) sale refl
