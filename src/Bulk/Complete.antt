-- ===== src/Bulk/Complete.antt =====
-- The results of a batch, over the orders in which its items may run.
use integration_nfeio.Base.{
  ℕ, zero, suc, ◌+◌, ◌≤◌, ◌<◌, String, true, some, List, [], ◌∷◌, length, get_elem?, replicate,
  length-replicate, ltb, ◌==◌, ◌≡◌, ◌≢◌, refl, ap, sym, ◌∙◌, ◌⊎◌, inl, inr, arith, Bool-cases, All,
}
use integration_nfeio.Floats.{Floats}
use integration_nfeio.Config.{Config}
use integration_nfeio.Http.{Net, Error, ok, err, World}
use integration_nfeio.Template.{Templates}
use integration_nfeio.Invoice.{IssueInput}
use integration_nfeio.Bulk.{
  BulkInput, BulkResult, BulkOutput, blank, set_at, count_succeeded, count_failed, bulk_output,
  bulk_result, issue_item, run_items, bulk_issue,
}

length-set_at : {A : Type 0} (i : ℕ) (a : A) (xs : List A) → length (set_at i a xs) ≡ length xs
unfolding set_at
length-set_at i a [] = refl
length-set_at zero a (x ∷ xs) = refl
length-set_at (suc i) a (x ∷ xs) = omega (arith, length-set_at i a xs)

get-set_at_self :
    {A : Type 0} (i : ℕ) (a : A) (xs : List A)
    → i < length xs
    → get_elem? (set_at i a xs) i ≡ some a
unfolding set_at
get-set_at_self i a [] h = absurd (omega arith)
get-set_at_self zero a (x ∷ xs) h = refl
get-set_at_self (suc i) a (x ∷ xs) h = get-set_at_self i a xs (omega arith)

get-set_at_ne :
    {A : Type 0} (i j : ℕ) (a : A) (xs : List A)
    → (j ≡ i → ⊥)
    → get_elem? (set_at i a xs) j ≡ get_elem? xs j
unfolding set_at
get-set_at_ne i j a [] h = refl
get-set_at_ne zero zero a (x ∷ xs) h = absurd (h refl)
get-set_at_ne zero (suc j) a (x ∷ xs) h = refl
get-set_at_ne (suc i) zero a (x ∷ xs) h = refl
get-set_at_ne (suc i) (suc j) a (x ∷ xs) h = get-set_at_ne i j a xs (λ e. h (ap suc e))

get_elem?-lt : {A : Type 0} (xs : List A) (i : ℕ) {x : A} → get_elem? xs i ≡ some x → i < length xs
get_elem?-lt [] i h = absurd (cc)
get_elem?-lt (x ∷ xs) zero h = omega arith
get_elem?-lt (x ∷ xs) (suc i) h = omega (arith, get_elem?-lt xs i h)

some_injective : {A : Type 0} {x y : A} → some x ≡ some y → x ≡ y
some_injective h = cc

counts_lem : (rs : List BulkResult) → count_succeeded rs + count_failed rs ≡ length rs
unfolding count_succeeded count_failed
counts_lem [] = refl
counts_lem (r ∷ rs) = ground (arith, counts_lem rs)

module _ {F : Type 0} where
  -- The item stands in the order.
  abbrev pub Runs : ℕ → IssueInput F → List (ℕ × IssueInput F) → Type 0
  Runs i x [] = ⊥
  Runs i x ((j, y) ∷ rest) = ((i ≡ j) × (x ≡ y)) ⊎ Runs i x rest

  -- An order of the items: each runs under its own index, and none is left out.
  pub record IsSchedule (items : List (IssueInput F)) (order : List (ℕ × IssueInput F))
      : Type 0 where
    pub own : All (λ p. get_elem? items p.0 ≡ some p.1) order
    pub every : (i : ℕ) (x : IssueInput F) → get_elem? items i ≡ some x → Runs i x order

module _ {F : Type 0} (floats : Floats F) (error_text : Error → String) {S : Type 0} (net : Net S)
    (cfg : Config) (templates : Templates F) (company : String) (items : List (IssueInput F)) where
  -- Slot `i` holds the result of a call for the item `x`.
  abbrev pub Holds : List BulkResult → ℕ → IssueInput F → Type 0
  Holds rs i x =
      (v : World S) × (get_elem? rs i
        ≡ some (
            bulk_result floats error_text i x
              (issue_item floats error_text net cfg templates company x v).0))

  set_at-Holds :
      (j : ℕ) (y : IssueInput F) (rest : List (ℕ × IssueInput F)) (rs : List BulkResult)
      (w : World S) (i : ℕ) (x : IssueInput F)
      → get_elem? items j ≡ some y
      → get_elem? items i ≡ some x
      → length rs ≡ length items
      → Holds rs i x ⊎ Runs i x ((j, y) ∷ rest)
      → let r =
          bulk_result floats error_text j y
            (issue_item floats error_text net cfg templates company y w).0 in
        Holds (set_at j r rs) i x ⊎ Runs i x rest
  set_at-Holds j y rest rs w i x at_j at_i same h = elim (Bool-cases (i == j)) [
    | inl equal ↦
        let here : i ≡ j = ground arith in
        let found : get_elem? items i ≡ some y = rw here at_j in
        let item : x ≡ y = some_injective (sym at_i ∙ found) in
        rw (here, item) (inl (w, get-set_at_self j _ rs (rw same (get_elem?-lt items j at_j))))
    | inr other ↦
        let apart : i ≢ j = ground arith in
        elim h [
          | inl (v, holds) ↦ inl (v, get-set_at_ne j i _ rs apart ∙ holds)
          | inr (inl (here, _)) ↦ absurd (apart here)
          | inr (inr later) ↦ inr later
        ]
  ]

  -- Running any items of the batch keeps what a slot of the batch holds.
  run_items-keeps :
      (order : List (ℕ × IssueInput F)) (rs : List BulkResult) (w : World S) (i : ℕ)
      (x : IssueInput F)
      → All (λ p. get_elem? items p.0 ≡ some p.1) order
      → get_elem? items i ≡ some x
      → length rs ≡ length items
      → Holds rs i x ⊎ Runs i x order
      → Holds (run_items floats error_text net cfg templates company order rs w).0 i x
        × (length (run_items floats error_text net cfg templates company order rs w).0
            ≡ length items)
  unfolding run_items
  run_items-keeps [] rs w i x own at_i same (inl holds) = (holds, same)
  run_items-keeps [] rs w i x own at_i same (inr runs) = absurd (runs)
  run_items-keeps ((j, y) ∷ rest) rs w i x (own_j, own) at_i same h =
      let r =
        bulk_result floats error_text j y
          (issue_item floats error_text net cfg templates company y w).0 in
      run_items-keeps rest (set_at j r rs)
        (issue_item floats error_text net cfg templates company y w).1 i x own at_i
        (length-set_at j r rs ∙ same) (set_at-Holds j y rest rs w i x own_j at_i same h)

  length-run_items :
      (order : List (ℕ × IssueInput F)) (rs : List BulkResult) (w : World S)
      → length (run_items floats error_text net cfg templates company order rs w).0 ≡ length rs
  unfolding run_items
  length-run_items [] rs w = refl
  length-run_items ((j, y) ∷ rest) rs w =
      let r =
        bulk_result floats error_text j y
          (issue_item floats error_text net cfg templates company y w).0 in
      length-run_items rest (set_at j r rs)
        (issue_item floats error_text net cfg templates company y w).1
      ∙ length-set_at j r rs

module _ {F : Type 0} (floats : Floats F) (error_text : Error → String) {S : Type 0} (net : Net S)
    (cfg : Config) (templates : Templates F) where
  -- The output of a batch: as many results as items, counts that add up, and in each slot the
  -- result of a call of the issue operation for the item of that index.
  pub record IsComplete (in' : BulkInput F) (out : BulkOutput) : Type 0 where
    pub size : length out.results ≡ length in'.items
    pub counts : out.succeeded_count + out.failed_count ≡ length in'.items
    pub slots :
        (i : ℕ) (x : IssueInput F)
        → get_elem? in'.items i ≡ some x
        → Holds floats error_text net cfg templates in'.company_id in'.items out.results i x

  -- A batch of at most fifty items succeeds, whatever the provider answers and in whatever order
  -- its items run, with as many results as items, counts that add up to them, and in each slot the
  -- result of a call of the issue operation for the item of that index.
  pub bulk_issue-IsComplete :
      (order : List (ℕ × IssueInput F)) (in' : BulkInput F) (w : World S)
      → length in'.items ≤ 50
      → IsSchedule in'.items order
      → (out : BulkOutput) × ((bulk_issue floats error_text net cfg templates order in' w).0
          ≡ ok out)
        × IsComplete in' out
  unfolding bulk_issue
  bulk_issue-IsComplete order in' w few schedule = elim (Bool-cases (length in'.items == 0)) [
    | inl none_at_all ↦
        let empty : length in'.items ≡ 0 = ground arith in
        (
          record { results = []; succeeded_count = 0; failed_count = 0 },
          ground arith,
          record {
            size = sym empty;
            counts = sym empty;
            slots = λ i x at_i. absurd (omega (arith, get_elem?-lt in'.items i at_i));
          },
        )
    | inr some_items ↦
        let slots = replicate (length in'.items) blank in
        let done = run_items floats error_text net cfg templates in'.company_id order slots w in
        let size : length done.0 ≡ length in'.items =
          length-run_items floats error_text net cfg templates in'.company_id in'.items order slots
            w
          ∙ length-replicate (length in'.items) blank in
        (
          bulk_output done.0,
          ground arith,
          record {
            size = size;
            counts = counts_lem done.0 ∙ size;
            slots = λ i x at_i.
                (run_items-keeps floats error_text net cfg templates in'.company_id in'.items order
                  slots w i x schedule.own at_i (length-replicate (length in'.items) blank)
                  (inr (schedule.every i x at_i))).0;
          },
        )
  ]

  -- A batch of more than fifty items is refused, and nothing is sent.
  pub bulk_issue_too_large :
      (order : List (ℕ × IssueInput F)) (in' : BulkInput F) (w : World S)
      → 50 < length in'.items
      → ((e : Error) × ((bulk_issue floats error_text net cfg templates order in' w).0 ≡ err e))
        × ((bulk_issue floats error_text net cfg templates order in' w).1 ≡ w)
  unfolding bulk_issue
  bulk_issue_too_large order in' w many =
      let large : ltb 50 (length in'.items) ≡ true = ground arith in rw large ((_, refl), refl)
