-- ===== src/Floats.antt =====
-- `float64` as the sources use it: its tests, its arithmetic and its JSON literals are a parameter.
use integration_nfeio.Base.{String, Bool, Option, none, some}
use integration_nfeio.Json.{Json, null, num, Read, unset, wrong, got}

pub record Floats (F : Type 0) : Type 0 where
  pub zero : F
  pub one : F
  pub less : F → F → Bool
  pub at_most : F → F → Bool
  pub minus : F → F → F
  pub times : F → F → F
  pub parse : String → Option F
  pub print : F → String

module _ {F : Type 0} (floats : Floats F) where
  abbrev parsed_float : Option F → Read F
  parsed_float none = wrong
  parsed_float (some x) = got x

  abbrev pub read_float : Json → Read F
  read_float null = unset
  read_float (num s) = parsed_float (floats.parse s)
  read_float _ = wrong

  abbrev pub float_json : F → Json
  float_json x = num (floats.print x)
