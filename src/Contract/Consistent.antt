-- ===== src/Contract/Consistent.antt =====
-- `LintDescribeContract` beside what it is to find.
use integration_nfeio.Base.{
  String, ◌<>◌, true, none, List, [], ◌∷◌, ◌++◌, All, eq_str, eq_iff, eq_refl, ◌≡◌, ◌≢◌, refl, ◌⊎◌,
  inl, inr, ◌↔◌, arith, Bool-cases,
}
use integration_nfeio.Contract.{
  ResourceType, Action, Describe, has, distinct, unknown, typed_issues, catalog_issues,
  default_issues, resource_names, action_names, issues, drift_of, lint_describe_contract,
}

-- The text is one of the list.
abbrev pub In : String → List String → Type 0
In x [] = ⊥
In x (y ∷ ys) = (y ≡ x) ⊎ In x ys

has-In : (xs : List String) (x : String) → has xs x ≡ true → In x xs
unfolding has
has-In [] x h = absurd (cc)
has-In (y ∷ ys) x h = elim (Bool-cases (eq_str y x)) [
  | inl same ↦ inl (ground (arith, eq_iff y x))
  | inr other ↦ inr (has-In ys x (rw other at h))
]

In-has : (xs : List String) (x : String) → In x xs → has xs x ≡ true
unfolding has
In-has [] x h = absurd (h)
In-has (y ∷ ys) x (inl same) = rw same (ground (arith, eq_refl x))
In-has (y ∷ ys) x (inr later) = ground (arith, In-has ys x later)

append-nil : {A : Type 0} (xs ys : List A) → xs ++ ys ≡ [] → (xs ≡ []) × (ys ≡ [])
append-nil [] ys h = (refl, h)
append-nil (x ∷ xs) ys h = absurd (cc)

module _ (set : List String) (issue : String → String) where
  unknown-nil : (xs : List String) → unknown set issue xs ≡ [] → All (λ x. In x set) xs
  unfolding unknown
  unknown-nil [] h = tt
  unknown-nil (x ∷ xs) h = elim (Bool-cases (has set x)) [
    | inl known ↦ (has-In set x known, unknown-nil xs (rw known at h))
    | inr missing ↦
        let contra : ◌≡◌ {A = List String} (issue x ∷ unknown set issue xs) [] = rw missing at h in
        absurd (cc)
  ]

  nil-unknown : (xs : List String) → All (λ x. In x set) xs → unknown set issue xs ≡ []
  unfolding unknown
  nil-unknown [] h = refl
  nil-unknown (x ∷ xs) (p, h) = rw (In-has set x p) (nil-unknown xs h)

-- A predicate of the distinct names is one of all names.
module _ (P : String → Type 0) where
  All-In : (xs : List String) (x : String) → All P xs → In x xs → P x
  All-In [] x h i = absurd (i)
  All-In (y ∷ ys) x (p, h) (inl same) = rw (← same) p
  All-In (y ∷ ys) x (p, h) (inr later) = All-In ys x h later

  distinct-All : (xs : List String) → All P (distinct xs) → All P xs
  unfolding distinct
  distinct-All [] h = tt
  distinct-All (x ∷ xs) h = elim (Bool-cases (has (distinct xs) x)) [
    | inl twice ↦
        let rest : All P (distinct xs) = rw twice at h in
        (All-In (distinct xs) x rest (has-In (distinct xs) x twice), distinct-All xs rest)
    | inr once ↦
        let both : P x × All P (distinct xs) = rw once at h in (both.0, distinct-All xs both.1)
  ]

  All-distinct : (xs : List String) → All P xs → All P (distinct xs)
  unfolding distinct
  All-distinct [] h = tt
  All-distinct (x ∷ xs) (p, h) = elim (Bool-cases (has (distinct xs) x)) [
    | inl twice ↦ rw twice (All-distinct xs h)
    | inr once ↦ rw once (p, All-distinct xs h)
  ]

-- An action that names resource types, all of them known.
abbrev pub IsTyped : List String → Action → Type 0
IsTyped resources a = (a.resource_types ≢ []) × All (λ r. In r resources) a.resource_types

module _ (resources : List String) where
  typed_issues-nil :
      (name : String) (rs : List String)
      → typed_issues resources name rs ≡ []
      → (rs ≢ []) × All (λ r. In r resources) rs
  typed_issues-nil name [] h = absurd (cc)
  typed_issues-nil name (r ∷ rs) h = (λ e. absurd (cc), unknown-nil resources _ (r ∷ rs) h)

  nil-typed_issues :
      (name : String) (rs : List String)
      → rs ≢ []
      → All (λ r. In r resources) rs
      → typed_issues resources name rs ≡ []
  nil-typed_issues name [] ne h = absurd (ne refl)
  nil-typed_issues name (r ∷ rs) ne h = nil-unknown resources _ (r ∷ rs) h

  catalog_issues-nil :
      (as' : List Action) → catalog_issues resources as' ≡ [] → All (IsTyped resources) as'
  unfolding catalog_issues
  catalog_issues-nil [] h = tt
  catalog_issues-nil (a ∷ as') h =
      let (first, rest) = append-nil (typed_issues resources a.name a.resource_types) _ h in
      (typed_issues-nil a.name a.resource_types first, catalog_issues-nil as' rest)

  nil-catalog_issues :
      (as' : List Action) → All (IsTyped resources) as' → catalog_issues resources as' ≡ []
  unfolding catalog_issues
  nil-catalog_issues [] h = refl
  nil-catalog_issues (a ∷ as') ((ne, known), h) =
      rw (nil-typed_issues a.name a.resource_types ne known) (nil-catalog_issues as' h)

-- A resource type whose default actions are all operations.
abbrev pub HasDefaults : List String → ResourceType → Type 0
HasDefaults ops t = All (λ op. In op ops) t.default_actions

module _ (ops : List String) where
  default_issues-nil :
      (ts : List ResourceType) → default_issues ops ts ≡ [] → All (HasDefaults ops) ts
  unfolding default_issues
  default_issues-nil [] h = tt
  default_issues-nil (t ∷ ts) h =
      let (first, rest) = append-nil (unknown ops _ t.default_actions) _ h in
      (unknown-nil ops _ t.default_actions first, default_issues-nil ts rest)

  nil-default_issues :
      (ts : List ResourceType) → All (HasDefaults ops) ts → default_issues ops ts ≡ []
  unfolding default_issues
  nil-default_issues [] h = refl
  nil-default_issues (t ∷ ts) (p, h) =
      rw (nil-unknown ops _ t.default_actions p) (nil-default_issues ts h)

-- A contract that names the same operations everywhere.
pub record IsConsistent (spec : Describe) (ops : List String) : Type 0 where
  pub catalogued : All (λ op. In op (action_names spec.action_catalog)) ops
  pub supported : All (λ a. In a ops) (action_names spec.action_catalog)
  pub typed : All (IsTyped (resource_names spec.resource_types)) spec.action_catalog
  pub defaults : All (HasDefaults ops) spec.resource_types
  pub idempotent : All (λ op. In op ops) spec.idempotent_actions

drift_of-none : (is' : List String) → drift_of is' ≡ none → is' ≡ []
drift_of-none [] h = refl
drift_of-none (x ∷ xs) h = absurd (cc)

issues-IsConsistent :
    (spec : Describe) (ops : List String) → issues spec ops ≡ [] → IsConsistent spec ops
unfolding issues
issues-IsConsistent spec ops h =
    let names = action_names spec.action_catalog in
    let (first, rest) = append-nil (unknown names _ ops) _ h in
    let (second, rest') = append-nil (unknown ops _ (distinct names)) _ rest in
    let (third, rest'') =
      append-nil (catalog_issues (resource_names spec.resource_types) spec.action_catalog) _
        rest' in
    let (fourth, fifth) = append-nil (default_issues ops spec.resource_types) _ rest'' in
    record {
      catalogued = unknown-nil names _ ops first;
      supported = distinct-All (λ a. In a ops) names (unknown-nil ops _ (distinct names) second);
      typed = catalog_issues-nil (resource_names spec.resource_types) spec.action_catalog third;
      defaults = default_issues-nil ops spec.resource_types fourth;
      idempotent = unknown-nil ops _ spec.idempotent_actions fifth;
    }

IsConsistent-issues :
    (spec : Describe) (ops : List String) → IsConsistent spec ops → issues spec ops ≡ []
unfolding issues
IsConsistent-issues spec ops c =
    let names = action_names spec.action_catalog in
    rw
      (
        nil-unknown names (λ op. "operation " <> (op <> " is missing from ActionCatalog")) ops
            c.catalogued,
        nil-unknown ops (λ a. "action " <> (a <> " is missing from SupportedExecuteOperations"))
            (distinct names) (All-distinct (λ a. In a ops) names c.supported),
        nil-catalog_issues (resource_names spec.resource_types) spec.action_catalog c.typed,
        nil-default_issues ops spec.resource_types c.defaults,
      )
      (nil-unknown ops (λ op. "idempotent_actions references unknown operation " <> op)
        spec.idempotent_actions c.idempotent)

-- The lint returns nil exactly where every supported operation is in the catalogue and every
-- catalogued action is supported, every action names resource types and only known ones, and every
-- default and every idempotent action is supported.
pub lint_describe_contract_iff :
    (spec : Describe) (ops : List String)
    → (lint_describe_contract spec ops ≡ none) ↔ IsConsistent spec ops
unfolding lint_describe_contract
lint_describe_contract_iff spec ops = (
  λ h. issues-IsConsistent spec ops (drift_of-none (issues spec ops) h),
  λ c. rw (IsConsistent-issues spec ops c),
)
