-- ===== src/Reconcile/Wired/ById.antt =====
-- The observe operation of the invoice reconciler on the filter of one id.
use integration_nfeio.Base.{String}
use integration_nfeio.Json.{Json, str, Fields, end, field}
use integration_nfeio.Floats.{Floats}
use integration_nfeio.Config.{Config}
use integration_nfeio.Http.{Net}
use integration_nfeio.Template.{Templates}

module _ {F S : Type 0} (print : Json → String) (floats : Floats F) (net : Net S) (cfg : Config)
    (op : String) (templates : Templates F) where
  abbrev by_id : String → Fields
  by_id id = field "id" (str id) end
