-- ===== src/Manage.antt =====
-- providers/nfeio/adapter/manage_template.go: the read-only catalogue of templates. The YAML parser and
-- the order in which Go ranges over a map are parameters.
pub mod Validated
use integration_nfeio.Base.{
  String, ◌<>◌, Bool, true, false, Option, none, some, List, [], ◌∷◌, map, eq_str, if◌then◌else◌,
}
use integration_nfeio.Http.{Result, ok, err, message}
use integration_nfeio.Floats.{Floats}
use integration_nfeio.Template.{MunicipioTemplate, Templates, find_template, validate_template}

-- `ManageTemplateInput`.
pub record ManageInput : Type 0 where
  pub operation : String
  pub municipio_code : String
  pub yaml_content : String

-- `TemplateSummary`.
pub record Summary (F : Type 0) : Type 0 where
  pub municipio_code : String
  pub name : String
  pub iss_rate : F
  pub special_regime : String

-- `ManageTemplateOutput`.
pub record ManageOutput (F : Type 0) : Type 0 where
  pub template : Option (MunicipioTemplate F)
  pub templates : List (Summary F)
  pub valid : Bool
  pub errors : List String

-- What `yaml.Unmarshal` makes of a text: a template, or the text of its error.
pub data Parsed (F : Type 0) : Type 0 where
  malformed : String → Parsed F
  well_formed : MunicipioTemplate F → Parsed F

-- The code outside the repository that the operation needs: the parser, the order in which a map is
-- ranged over, and the `%q` of fmt.
pub record Yaml (F : Type 0) : Type 0 where
  pub parse : String → Parsed F
  pub ranged : Templates F → Templates F
  pub quoted : String → String

module _ {F : Type 0} where
  abbrev pub no_output : ManageOutput F
  no_output = record { template = none; templates = []; valid = false; errors = [] }

  abbrev pub summary : String × MunicipioTemplate F → Summary F
  summary (code, t) = record {
    municipio_code = code;
    name = t.name;
    iss_rate = t.iss.rate;
    special_regime = t.iss.special_regime;
  }

  abbrev get_template : String → Option (MunicipioTemplate F) → Result (ManageOutput F)
  get_template code none = err (message ("template_not_found: " <> code))
  get_template code (some t) = ok (record no_output { template = some t })

  abbrev pub verdict : Option String → ManageOutput F
  verdict none = record no_output { valid = true }
  verdict (some problem) = record no_output { errors = ("(input): " <> problem) ∷ [] }

module _ {F : Type 0} (floats : Floats F) (yaml : Yaml F) where
  abbrev pub validate_parsed : Parsed F → ManageOutput F
  validate_parsed (malformed text) = record no_output { errors = text ∷ [] }
  validate_parsed (well_formed t) = verdict (validate_template floats t)

  -- `ManageTemplate`.
  unfoldable pub manage_template : Templates F → ManageInput → Result (ManageOutput F)
  unfolding find_template
  manage_template templates in' =
      if eq_str in'.operation "get"
      then get_template in'.municipio_code (find_template in'.municipio_code templates)
      else if eq_str in'.operation "list"
      then ok (record no_output { templates = map summary (yaml.ranged templates) })
      else if eq_str in'.operation "validate"
      then ok (validate_parsed (yaml.parse in'.yaml_content))
      else err (
          message (
            "unsupported operation "
            <> (yaml.quoted in'.operation <> " (allowed: get, list, validate)")))
