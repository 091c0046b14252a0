-- ===== src/Tax/Charged.antt =====
-- The tax that `CalculateISS` of tax_calc.go charges with the templates that template_loader.go loads.
use integration_nfeio.Base.{
  String, ◌<>◌, false, true, Option, none, some, List, [], ◌∷◌, ◌≡◌, refl, inl, inr, ◌⊎◌,
  Bool-cases, Option-cases, ap, arith, All, eq_str, eq_iff,
}
use integration_nfeio.Floats.{Floats}
use integration_nfeio.Http.{ok, err, message}
use integration_nfeio.Template.{
  MunicipioTemplate, Templates, Entry, find_template, validate_template, load_templates,
}
use integration_nfeio.Template.Loaded.{IsListed, load_templates-IsListed}
use integration_nfeio.Tax.{
  TaxInput, TaxOutput, rate_of, base_of, taxed, calculate_with, calculate_iss,
}

-- What IEEE 754 says of the comparisons of two `float64`s.
pub record IsOrder {F : Type 0} (floats : Floats F) : Type 0 where
  pub irreflexive : (x : F) → floats.less x x ≡ false
  pub asymmetric : (x y : F) → floats.less x y ≡ true → floats.less y x ≡ false
  pub exclusive : (x y : F) → floats.less x y ≡ true → floats.at_most y x ≡ false

module _ {F : Type 0} (floats : Floats F) where
  -- The output charges, under the template of the municipality, the greater of zero and of the amount
  -- less the deductions, at the override where that is above zero, or else at the template's rate,
  -- which is not above one; in neither case is the rate at most zero.
  pub record IsCharged (tpl : MunicipioTemplate F) (in' : TaxInput F) (out : TaxOutput F)
      : Type 0 where
    pub own : tpl.municipio_code ≡ in'.municipio_code
    pub above_zero : floats.less out.base_tax_amount floats.zero ≡ false
    pub above_rest :
        floats.less out.base_tax_amount (floats.minus in'.service_amount in'.deductions) ≡ false
    pub attained :
        (out.base_tax_amount ≡ floats.zero)
        ⊎ (out.base_tax_amount ≡ floats.minus in'.service_amount in'.deductions)
    pub rate :
        ((out.iss_rate ≡ in'.iss_rate_override)
          × (floats.less floats.zero in'.iss_rate_override ≡ true))
        ⊎ ((out.iss_rate ≡ tpl.iss.rate)
            × (floats.less floats.zero in'.iss_rate_override ≡ false)
            × (floats.less floats.one tpl.iss.rate ≡ false))
    pub above : floats.at_most out.iss_rate floats.zero ≡ false
    pub product : out.iss_tax_amount ≡ floats.times out.base_tax_amount out.iss_rate

  find_template-IsListed :
      (code : String) (ts : Templates F) {t : MunicipioTemplate F}
      → All (IsListed floats) ts
      → find_template code ts ≡ some t
      → IsListed floats (code, t)
  unfolding find_template
  find_template-IsListed code [] h e = absurd (cc)
  find_template-IsListed code ((k, u) ∷ ts) {t} (p, h) e = elim (Bool-cases (eq_str k code)) [
    | inl same ↦
        let named : k ≡ code = ground (arith, eq_iff k code) in
        let found : u ≡ t = ground arith in rw (← named, ← found) p
    | inr other ↦ find_template-IsListed code ts h (rw other at e)
  ]

  -- What a valid template says of its rate.
  rate_valid :
      (t : MunicipioTemplate F)
      → validate_template floats t ≡ none
      → (floats.at_most t.iss.rate floats.zero ≡ false)
        × (floats.less floats.one t.iss.rate ≡ false)
  unfolding validate_template
  rate_valid t h = (ground arith, ground arith)

  module _ (order : IsOrder floats) where
    taxed-IsCharged :
        (tpl : MunicipioTemplate F) (in' : TaxInput F)
        → IsListed floats (in'.municipio_code, tpl)
        → IsCharged tpl in' (
            taxed floats
              (rate_of floats tpl.iss.rate in'.iss_rate_override)
              (base_of floats (floats.minus in'.service_amount in'.deductions)))
    taxed-IsCharged tpl in' (valid, own) =
        let base = floats.minus in'.service_amount in'.deductions in
        let zero = floats.zero in
        let override = in'.iss_rate_override in
        let (low, high) = rate_valid tpl valid in
        let irreflexive = order.irreflexive in
        record {
          own = own;
          above_zero = elim (Bool-cases (floats.less base zero)) [
            | inl below ↦ rw below (irreflexive zero)
            | inr over ↦ rw (over, over)
          ];
          above_rest = elim (Bool-cases (floats.less base zero)) [
            | inl below ↦ rw below (order.asymmetric base zero below)
            | inr over ↦ rw over (irreflexive base)
          ];
          attained = elim (Bool-cases (floats.less base zero)) [
            | inl below ↦ rw below (inl refl)
            | inr over ↦ rw over (inr refl)
          ];
          rate = elim (Bool-cases (floats.less zero override)) [
            | inl set ↦ rw set (inl (refl, refl))
            | inr unset ↦ rw unset (inr (refl, refl, high))
          ];
          above = elim (Bool-cases (floats.less zero override)) [
            | inl set ↦ rw set (order.exclusive zero override set)
            | inr unset ↦ rw unset low
          ];
          product = refl;
        }

    -- With templates that load, CalculateISS fails exactly for a municipality without a template, and
    -- else charges under the municipality's own template: the base is the greater of zero and of the
    -- amount less the deductions, the rate is the override where that is above zero, or else the
    -- template's, which is not above one, the rate is not at most zero, and the tax is their product,
    -- if floats are ordered as IEEE 754 says.
    pub calculate_iss-IsCharged :
        (dir : Option (List (Entry floats))) {templates : Templates F} (in' : TaxInput F)
        → load_templates floats dir ≡ ok templates
        → ((find_template in'.municipio_code templates ≡ none)
            × (calculate_iss floats templates in'
                ≡ err (message ("template_not_found: " <> in'.municipio_code))))
          ⊎ ((tpl : MunicipioTemplate F) × (out : TaxOutput F) × (find_template in'.municipio_code
                  templates
                ≡ some tpl)
              × (calculate_iss floats templates in' ≡ ok out)
              × IsCharged tpl in' out)
    unfolding calculate_iss
    calculate_iss-IsCharged dir {templates} in' loaded =
        let listed = load_templates-IsListed floats dir loaded in
        elim (Option-cases (find_template in'.municipio_code templates)) [
          | inl missing ↦ inl (missing, ap (calculate_with floats in') missing)
          | inr (tpl, found) ↦
              let valid = find_template-IsListed in'.municipio_code templates listed found in
              inr (
                tpl,
                taxed floats (rate_of floats tpl.iss.rate in'.iss_rate_override)
                    (base_of floats (floats.minus in'.service_amount in'.deductions)),
                found,
                ap (calculate_with floats in') found,
                taxed-IsCharged tpl in' valid,
              )
        ]
