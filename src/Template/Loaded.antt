-- ===== src/Template/Loaded.antt =====
-- What a loaded set of templates holds.
use integration_nfeio.Base.{
  String, ◌||◌, not, Option, none, some, List, [], ◌∷◌, ◌≡◌, refl, Bool-cases, inl, inr, eq_str,
  eq_iff, All, arith, has_suffix, Option-cases,
}
use integration_nfeio.Http.{Result, ok, err}
use integration_nfeio.Floats.{Floats}
use integration_nfeio.Template.{
  MunicipioTemplate, Templates, put_template, validate_template, Entry, accept, load_parsed,
  load_entry, then_load, load_entries, load_templates,
}

module _ {F : Type 0} (floats : Floats F) where
  -- A template that is valid and stands under its own code.
  abbrev pub IsListed : String × MunicipioTemplate F → Type 0
  IsListed (code, t) = (validate_template floats t ≡ none) × (t.municipio_code ≡ code)

  put_template-All :
      (code : String) (t : MunicipioTemplate F) (ts : Templates F)
      → IsListed (code, t)
      → All IsListed ts
      → All IsListed (put_template code t ts)
  unfolding put_template
  put_template-All code t [] p h = (p, tt)
  put_template-All code t ((k, u) ∷ ts) p (q, h) = elim (Bool-cases (eq_str k code)) [
    | inl same ↦ let equal : k ≡ code = ground (arith, eq_iff k code) in rw same (rw equal p, h)
    | inr other ↦ rw other (q, put_template-All code t ts p h)
  ]

  load_parsed-All :
      (o : Option (MunicipioTemplate F)) (ts : Templates F) {out : Templates F}
      → All IsListed ts
      → load_parsed floats o ts ≡ ok out
      → All IsListed out
  load_parsed-All none ts h e = absurd (cc)
  load_parsed-All (some t) ts {out} h e = elim (Option-cases (validate_template floats t)) [
    | inr (problem, bad) ↦
        let contra : ◌≡◌ {A = Result (Templates F)} (accept floats t (some problem) ts) (ok out) =
          rw bad at e in
        absurd (cc)
    | inl fine ↦
        let same : put_template t.municipio_code t ts ≡ out = ground arith in
        rw (← same) (put_template-All t.municipio_code t ts (fine, refl) h)
  ]

  load_entry-All :
      (x : Entry floats) (ts : Templates F) {out : Templates F}
      → All IsListed ts
      → load_entry floats x ts ≡ ok out
      → All IsListed out
  load_entry-All x ts {out} h e = elim (Bool-cases (x.is_dir || not (has_suffix x.name ".yaml"))) [
    | inl skip ↦ let same : ts ≡ out = ground arith in rw (← same) h
    | inr file ↦ load_parsed-All x.parsed ts h (rw file at e)
  ]

  then_load-ok :
      (r : Result (Templates F)) (k : Templates F → Result (Templates F)) {out : Templates F}
      → then_load floats r k ≡ ok out
      → (mid : Templates F) × (r ≡ ok mid) × (k mid ≡ ok out)
  then_load-ok (ok mid) k e = (mid, refl, e)
  then_load-ok (err y) k e = absurd (cc)

  load_entries-All :
      (es : List (Entry floats)) (ts : Templates F) {out : Templates F}
      → All IsListed ts
      → load_entries floats es ts ≡ ok out
      → All IsListed out
  unfolding load_entries
  load_entries-All [] ts {out} h e = let same : ts ≡ out = ground arith in rw (← same) h
  load_entries-All (x ∷ es) ts h e =
      let (mid, first, rest) = then_load-ok (load_entry floats x ts) (load_entries floats es) e in
      load_entries-All es mid (load_entry-All x ts h first) rest

  -- Where the templates load, each of them is valid and stands under its own municipal code.
  pub load_templates-IsListed :
      (dir : Option (List (Entry floats))) {out : Templates F}
      → load_templates floats dir ≡ ok out
      → All IsListed out
  unfolding load_templates
  load_templates-IsListed none e = absurd (cc)
  load_templates-IsListed (some es) e = load_entries-All es [] tt e
