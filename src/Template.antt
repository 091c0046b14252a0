-- ===== src/Template.antt =====
-- providers/nfeio/adapter/template_loader.go: the municipal templates, their validation and
-- their loading.
pub mod Loaded
use integration_nfeio.Base.{
  String, Bool, ◌||◌, not, has_suffix, Option, none, some, List, [], ◌∷◌, eq_str, if◌then◌else◌,
}
use integration_nfeio.Http.{Result, ok, err, Error, message}
use integration_nfeio.Floats.{Floats}

pub record ServiceCodes : Type 0 where
  pub city_service_code : String
  pub federal_service_code : String
  pub cnae_code : String
  pub nbs_code : String

pub record IssConfig (F : Type 0) : Type 0 where
  pub rate : F
  pub taxation_type : String
  pub special_regime : String

pub record LocationDefaults : Type 0 where
  pub country : String
  pub city_code : String
  pub city_name : String

pub record MunicipioTemplate (F : Type 0) : Type 0 where
  pub api_version : String
  pub municipio_code : String
  pub name : String
  pub state : String
  pub service_codes : ServiceCodes
  pub iss : IssConfig F
  pub location_defaults : LocationDefaults
  pub rps_serial_number : String
  pub notes : String

-- `map[string]*MunicipioTemplate`: each code once, in the order in which it was first loaded.
abbrev pub Templates : Type 0 → Type 0
Templates F = List (String × MunicipioTemplate F)

module _ {F : Type 0} where
  unfoldable pub find_template : String → Templates F → Option (MunicipioTemplate F)
  find_template code [] = none
  find_template code ((k, t) ∷ ts) = if eq_str k code then some t else find_template code ts

  unfoldable pub put_template : String → MunicipioTemplate F → Templates F → Templates F
  put_template code t [] = (code, t) ∷ []
  put_template code t ((k, u) ∷ ts) =
      if eq_str k code then (k, t) ∷ ts else (k, u) ∷ put_template code t ts

module _ {F : Type 0} (floats : Floats F) where
  -- `validateTemplate`; `none` where it returns nil.
  unfoldable pub validate_template : MunicipioTemplate F → Option String
  validate_template t =
      if eq_str t.municipio_code ""
      then some "municipio_code required"
      else if eq_str t.name ""
      then some "name required"
      else if eq_str t.state ""
      then some "state required"
      else if eq_str t.service_codes.city_service_code ""
      then some "service_codes.city_service_code required"
      else if eq_str t.service_codes.federal_service_code ""
      then some "service_codes.federal_service_code required"
      else if floats.at_most t.iss.rate floats.zero || floats.less floats.one t.iss.rate
      then some "iss.rate must be in (0, 1]"
      else none

  -- A directory entry; `parsed` is what its text parses to, `none` where it cannot be read or parsed.
  pub record Entry : Type 0 where
    pub name : String
    pub is_dir : Bool
    pub parsed : Option (MunicipioTemplate F)

  abbrev accept : MunicipioTemplate F → Option String → Templates F → Result (Templates F)
  accept t (some problem) out = err (message problem)
  accept t none out = ok (put_template t.municipio_code t out)

  abbrev load_parsed : Option (MunicipioTemplate F) → Templates F → Result (Templates F)
  load_parsed none out = err (message "read or parse")
  load_parsed (some t) out = accept t (validate_template t) out

  abbrev load_entry : Entry → Templates F → Result (Templates F)
  load_entry e out =
      if e.is_dir || not (has_suffix e.name ".yaml") then ok out else load_parsed e.parsed out

  abbrev then_load :
      Result (Templates F) → (Templates F → Result (Templates F)) → Result (Templates F)
  then_load (ok out) k = k out
  then_load (err e) k = err e

  -- The loop of `LoadTemplatesDir` and `LoadTemplatesFS`.
  unfoldable pub load_entries : List Entry → Templates F → Result (Templates F)
  unfolding validate_template put_template
  load_entries [] out = ok out
  load_entries (e ∷ es) out = then_load (load_entry e out) (λ out'. load_entries es out')

  -- `LoadTemplatesDir`; `none` is a directory that cannot be read.
  unfoldable pub load_templates : Option (List Entry) → Result (Templates F)
  unfolding load_entries
  load_templates none = err (message "read templates dir")
  load_templates (some es) = load_entries es []
