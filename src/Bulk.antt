-- ===== src/Bulk.antt =====
-- providers/nfeio/adapter/bulk_issue.go: a batch of invoices. The goroutines of a batch are taken as
-- whole calls of `IssueNFSe` in the order in which they run, any order that the caller's items
-- allow. The deadlines of the batch and of its items belong to the network.
pub mod Complete
use integration_nfeio.Base.{
  ℕ, zero, suc, ◌+◌, String, Bool, true, false, ◌&&◌, not, List, [], ◌∷◌, length, replicate, ltb,
  ◌==◌, eq_str, if◌then◌else◌,
}
use integration_nfeio.Floats.{Floats}
use integration_nfeio.Config.{Config}
use integration_nfeio.Http.{Net, Error, api, message, Result, ok, err, World, M}
use integration_nfeio.Template.{Templates}
use integration_nfeio.Invoice.{IssueInput, Invoice, issue_nfse}

-- `BulkIssueInput`; `fail_fast` is reserved and never read.
pub record BulkInput (F : Type 0) : Type 0 where
  pub company_id : String
  pub items : List (IssueInput F)
  pub fail_fast : Bool

-- `BulkIssueResult`.
pub record BulkResult : Type 0 where
  pub index : ℕ
  pub external_id : String
  pub success : Bool
  pub invoice_id : String
  pub status : String
  pub error_code : String
  pub error_message : String

-- `BulkIssueOutput`.
pub record BulkOutput : Type 0 where
  pub results : List BulkResult
  pub succeeded_count : ℕ
  pub failed_count : ℕ

-- The zero value of a slot.
abbrev pub blank : BulkResult
blank = record {
  index = 0;
  external_id = "";
  success = false;
  invoice_id = "";
  status = "";
  error_code = "";
  error_message = "";
}

-- `results[i] = r`.
unfoldable pub set_at : {A : Type 0} → ℕ → A → List A → List A
set_at i a [] = []
set_at zero a (x ∷ xs) = a ∷ xs
set_at (suc i) a (x ∷ xs) = x ∷ set_at i a xs

abbrev error_code : Error → String
error_code (api e) = e.name
error_code _ = ""

-- The counts of the last loop.
unfoldable pub count_succeeded : List BulkResult → ℕ
count_succeeded [] = 0
count_succeeded (r ∷ rs) = (if r.success then 1 else 0) + count_succeeded rs

unfoldable pub count_failed : List BulkResult → ℕ
count_failed [] = 0
count_failed (r ∷ rs) = (if r.success then 0 else 1) + count_failed rs

abbrev pub bulk_output : List BulkResult → BulkOutput
bulk_output rs = record {
  results = rs;
  succeeded_count = count_succeeded rs;
  failed_count = count_failed rs;
}

-- `error_text` is the `Error` method of the errors.
module _ {F : Type 0} (floats : Floats F) (error_text : Error → String) where
  -- The item with the batch's company, where it has none of its own.
  abbrev pub item_of : String → IssueInput F → IssueInput F
  item_of company x =
      if not (eq_str company "") && eq_str x.company_id ""
      then record x { company_id = company }
      else x

  -- What one goroutine writes into its slot.
  unfoldable pub bulk_result : ℕ → IssueInput F → Result (Invoice F) → BulkResult
  bulk_result i x (ok out) = record {
    index = i;
    external_id = x.external_id;
    success = true;
    invoice_id = out.id;
    status = out.status;
    error_code = "";
    error_message = "";
  }
  bulk_result i x (err e) = record {
    index = i;
    external_id = x.external_id;
    success = false;
    invoice_id = "";
    status = "";
    error_code = error_code e;
    error_message = error_text e;
  }

  module _ {S : Type 0} (net : Net S) (cfg : Config) (templates : Templates F)
      (company : String) where
    abbrev pub issue_item : IssueInput F → M S (Invoice F)
    issue_item x w =
        issue_nfse floats net cfg "ensure_service_invoice" templates (item_of company x) w

    -- The goroutines, in the order in which they run.
    unfoldable pub run_items :
        List (ℕ × IssueInput F) → List BulkResult → World S → List BulkResult × World S
    unfolding set_at bulk_result
    run_items [] rs w = (rs, w)
    run_items ((i, x) ∷ rest) rs w =
        run_items rest (set_at i (bulk_result i x (issue_item x w).0) rs) (issue_item x w).1

  -- `BulkIssue`, under an order of its items.
  unfoldable pub bulk_issue :
      {S : Type 0}
      → Net S
      → Config
      → Templates F
      → List (ℕ × IssueInput F)
      → BulkInput F
      → M S BulkOutput
  unfolding run_items count_succeeded count_failed
  bulk_issue net cfg templates order in' w =
      let slots = replicate (length in'.items) blank in
      let done = run_items net cfg templates in'.company_id order slots w in
      if ltb 50 (length in'.items)
      then (err (message "input_too_large"), w)
      else if length in'.items == 0
      then (ok (record { results = []; succeeded_count = 0; failed_count = 0 }), w)
      else (ok (bulk_output done.0), done.1)
