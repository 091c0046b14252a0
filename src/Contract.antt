-- ===== src/Contract.antt =====
-- pkg/contractcheck/contractcheck.go: the lint of an adapter's describe contract.
pub mod Consistent
use integration_nfeio.Base.{
  String, ◌<>◌, Bool, false, ◌||◌, Option, none, some, List, [], ◌∷◌, ◌++◌, map, at_most_str,
  eq_str, if◌then◌else◌,
}

pub record ResourceType : Type 0 where
  pub name : String
  pub default_actions : List String

-- `ActionDefinition`.
pub record Action : Type 0 where
  pub name : String
  pub resource_types : List String

-- `DescribeResponse`, with its `ExecutionSpec` in place.
pub record Describe : Type 0 where
  pub resource_types : List ResourceType
  pub action_catalog : List Action
  pub idempotent_actions : List String

-- Membership in a set of strings.
unfoldable pub has : List String → String → Bool
has [] x = false
has (v ∷ vs) x = eq_str v x || has vs x

-- The keys of the map that a list of names is put into.
unfoldable pub distinct : List String → List String
unfolding has
distinct [] = []
distinct (x ∷ xs) = let rest = distinct xs in if has rest x then rest else x ∷ rest

-- An issue for each value that is not in the set.
unfoldable pub unknown : List String → (String → String) → List String → List String
unfolding has
unknown set issue [] = []
unknown set issue (x ∷ xs) = (if has set x then [] else issue x ∷ []) ++ unknown set issue xs

-- The issues of one action: it names no resource type, or ones that are unknown.
abbrev pub typed_issues : List String → String → List String → List String
typed_issues resources name [] = ("action " <> (name <> " has no resource_types")) ∷ []
typed_issues resources name (r ∷ rs) =
    unknown resources (λ x. "action " <> (name <> (" references unknown resource_type " <> x)))
      (r ∷ rs)

unfoldable pub catalog_issues : List String → List Action → List String
unfolding unknown
catalog_issues resources [] = []
catalog_issues resources (a ∷ as') =
    typed_issues resources a.name a.resource_types ++ catalog_issues resources as'

unfoldable pub default_issues : List String → List ResourceType → List String
unfolding unknown
default_issues ops [] = []
default_issues ops (t ∷ ts) =
    unknown ops
      (λ op.
        "resource_type " <> (t.name <> (" default_actions references unknown operation " <> op)))
      t.default_actions
    ++ default_issues ops ts

abbrev pub resource_names : List ResourceType → List String
resource_names ts = map (λ t. t.name) ts

abbrev pub action_names : List Action → List String
action_names as' = map (λ a. a.name) as'

-- Every issue, in the order of the code; the texts leave out the quotes.
unfoldable pub issues : Describe → List String → List String
unfolding distinct unknown catalog_issues default_issues
issues spec ops =
    unknown (action_names spec.action_catalog)
      (λ op. "operation " <> (op <> " is missing from ActionCatalog")) ops
    ++ (unknown ops (λ a. "action " <> (a <> " is missing from SupportedExecuteOperations"))
          (distinct (action_names spec.action_catalog))
        ++ (catalog_issues (resource_names spec.resource_types) spec.action_catalog
            ++ (default_issues ops spec.resource_types
                ++ unknown ops (λ op. "idempotent_actions references unknown operation " <> op)
                    spec.idempotent_actions)))

unfoldable pub insert_sorted : String → List String → List String
insert_sorted x [] = x ∷ []
insert_sorted x (y ∷ ys) = if at_most_str x y then x ∷ y ∷ ys else y ∷ insert_sorted x ys

-- `sort.Strings`.
unfoldable pub sort_strings : List String → List String
unfolding insert_sorted
sort_strings [] = []
sort_strings (x ∷ xs) = insert_sorted x (sort_strings xs)

abbrev pub drift_of : List String → Option (List String)
drift_of [] = none
drift_of (x ∷ xs) = some (sort_strings (x ∷ xs))

-- `LintDescribeContract`: none where it returns nil, else the issues of its error, sorted.
unfoldable pub lint_describe_contract : Describe → List String → Option (List String)
unfolding issues sort_strings
lint_describe_contract spec ops = drift_of (issues spec ops)
