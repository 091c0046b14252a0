-- ===== src/Manage/Validated.antt =====
-- `ManageTemplate` of manage_template.go beside the loader of template_loader.go.
use integration_nfeio.Base.{
  String, Bool, true, false, Option, none, some, List, [], ◌∷◌, eq_str, ◌≡◌, ◌≢◌, refl, ◌↔◌, arith,
  Option-cases, inl, inr, eq_iff,
}
use integration_nfeio.Http.{Result, ok, err, message}
use integration_nfeio.Floats.{Floats}
use integration_nfeio.Template.{
  MunicipioTemplate, Templates, Entry, put_template, validate_template, load_templates,
}
use integration_nfeio.Manage.{
  ManageInput, ManageOutput, Parsed, malformed, well_formed, Yaml, validate_parsed, manage_template,
}

module _ {F : Type 0} (floats : Floats F) where
  abbrev template_of : Parsed F → Option (MunicipioTemplate F)
  template_of (malformed text) = none
  template_of (well_formed t) = some t

  -- A file of the templates directory with that content.
  abbrev pub candidate : Parsed F → Entry floats
  candidate parsed = record { name = "candidate.yaml"; is_dir = false; parsed = template_of parsed }

  -- Whether a directory of this one file loads.
  abbrev pub Loads : Parsed F → Type 0
  Loads parsed = (ts : Templates F) × (load_templates floats (some (candidate parsed ∷ [])) ≡ ok ts)

  -- What the caller of a validation is told.
  pub record IsVerdict (parsed : Parsed F) (out : ManageOutput F) : Type 0 where
    pub accepted : (out.valid ≡ true) ↔ Loads parsed
    pub explained : (out.valid ≡ false) ↔ (out.errors ≢ [])

  loaded_alone :
      (t : MunicipioTemplate F)
      → validate_template floats t ≡ none
      → load_templates floats (some (candidate (well_formed t) ∷ []))
        ≡ ok (put_template t.municipio_code t [])
  unfolding load_templates integration_nfeio.Base.has_suffix
  loaded_alone t fine = rw fine refl

  refused :
      (t : MunicipioTemplate F) (ts : Templates F) {problem : String}
      → validate_template floats t ≡ some problem
      → load_templates floats (some (candidate (well_formed t) ∷ [])) ≡ ok ts
      → ⊥
  unfolding load_templates integration_nfeio.Base.has_suffix
  refused t ts {problem} bad e =
      let contra : ◌≡◌ {A = Result (Templates F)} (err (message problem)) (ok ts) = rw bad at e in
      cc

  validate_parsed-IsVerdict :
      (yaml : Yaml F) (parsed : Parsed F) → IsVerdict parsed (validate_parsed floats yaml parsed)
  unfolding load_templates integration_nfeio.Base.has_suffix
  validate_parsed-IsVerdict yaml (malformed text) = record {
    accepted = (λ h. absurd (cc), λ (ts, e). absurd (cc));
    explained = (λ _ e. absurd (cc), λ _. refl);
  }
  validate_parsed-IsVerdict yaml (well_formed t) =
      elim (Option-cases (validate_template floats t)) [
        | inl fine ↦ rw fine (record {
          accepted = (λ _. (put_template t.municipio_code t [], loaded_alone t fine), λ _. refl);
          explained = (λ h. absurd (cc), λ h. absurd (h refl));
        })
        | inr (problem, bad) ↦ rw bad (record {
          accepted = (λ h. absurd (cc), λ (ts, e). absurd (refused t ts bad e));
          explained = (λ _ e. absurd (cc), λ _. refl);
        })
      ]

  module _ (yaml : Yaml F) where
    -- A validation never fails: its output is valid exactly where a templates directory with the one
    -- file of that content loads, and it has errors exactly where it is not valid.
    pub manage_template-IsVerdict :
        (templates : Templates F) (in' : ManageInput)
        → in'.operation ≡ "validate"
        → (out : ManageOutput F) × (manage_template floats yaml templates in' ≡ ok out)
          × IsVerdict (yaml.parse in'.yaml_content) out
    unfolding manage_template
    manage_template-IsVerdict templates in' h = (
      validate_parsed floats yaml (yaml.parse in'.yaml_content),
      rw h refl,
      validate_parsed-IsVerdict yaml (yaml.parse in'.yaml_content),
    )
