-- ===== src/Tax.antt =====
-- providers/nfeio/adapter/tax_calc.go: `CalculateISS`.
pub mod Charged
use integration_nfeio.Base.{String, ◌<>◌, Option, none, some, if◌then◌else◌}
use integration_nfeio.Floats.{Floats}
use integration_nfeio.Http.{Result, ok, err, message}
use integration_nfeio.Template.{MunicipioTemplate, Templates, find_template}

-- `CalculateISSInput`.
pub record TaxInput (F : Type 0) : Type 0 where
  pub municipio_code : String
  pub service_amount : F
  pub iss_rate_override : F
  pub deductions : F

-- `CalculateISSOutput`.
pub record TaxOutput (F : Type 0) : Type 0 where
  pub iss_rate : F
  pub base_tax_amount : F
  pub iss_tax_amount : F

module _ {F : Type 0} (floats : Floats F) where
  abbrev pub rate_of : F → F → F
  rate_of rate override = if floats.less floats.zero override then override else rate

  abbrev pub base_of : F → F
  base_of base = if floats.less base floats.zero then floats.zero else base

  abbrev pub taxed : F → F → TaxOutput F
  taxed rate base = record {
    iss_rate = rate;
    base_tax_amount = base;
    iss_tax_amount = floats.times base rate;
  }

  abbrev pub calculate_with : TaxInput F → Option (MunicipioTemplate F) → Result (TaxOutput F)
  calculate_with in' none = err (message ("template_not_found: " <> in'.municipio_code))
  calculate_with in' (some tpl) = ok (
      taxed (rate_of tpl.iss.rate in'.iss_rate_override)
        (base_of (floats.minus in'.service_amount in'.deductions)))

  -- `CalculateISS`.
  unfoldable pub calculate_iss : Templates F → TaxInput F → Result (TaxOutput F)
  unfolding find_template
  calculate_iss templates in' = calculate_with in' (find_template in'.municipio_code templates)
