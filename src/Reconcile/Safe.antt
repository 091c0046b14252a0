-- ===== src/Reconcile/Safe.antt =====
-- The runes that `providerText` leaves.
use text.Mathlib.TextLemmas.{nil-append, cons-append}
use integration_nfeio.Base.{
  AllChars, AllChars-append, ℕ, zero, suc, ◌+◌, ◌≤◌, Char, code, String, ◌<>◌, false, ltb, ◌≡◌, ◌≢◌,
  refl, inl, inr, arith, Bool-cases, trim_space, trim_left, trim_right, cons_trimmed, is_space,
}
use integration_nfeio.Reconcile.{is_unsafe, cleaned, rune_count, take_runes, provider_text}

-- Neither an ASCII control character nor one that JSON text has to escape.
pub record IsSafe (c : ℕ) : Type 0 where
  pub printable : 32 ≤ c
  pub not_delete : c ≢ 127
  pub not_backslash : c ≢ 92
  pub not_quote : c ≢ 34

is_unsafe-IsSafe : (c : ℕ) → is_unsafe c ≡ false → IsSafe c
unfolding is_unsafe
is_unsafe-IsSafe c h = record {
  printable = ground arith;
  not_delete = λ e. absurd (ground arith);
  not_backslash = λ e. absurd (ground arith);
  not_quote = λ e. absurd (ground arith);
}

cleaned-AllChars : (s : String) → AllChars IsSafe (cleaned s)
unfolding cleaned
cleaned-AllChars String.[] = tt
cleaned-AllChars (String.◌∷◌ c s) = elim (Bool-cases (is_unsafe (code c))) [
  | inl bad ↦ rw bad (cleaned-AllChars s)
  | inr fine ↦ rw fine (is_unsafe-IsSafe (code c) fine, cleaned-AllChars s)
]

module _ (P : ℕ → Type 0) where
  trim_left-AllChars : (s : String) → AllChars P s → AllChars P (trim_left s)
  unfolding trim_left
  trim_left-AllChars String.[] h = tt
  trim_left-AllChars (String.◌∷◌ c s) (p, h) = elim (Bool-cases (is_space (code c))) [
    | inl space ↦ rw space (trim_left-AllChars s h)
    | inr text ↦ rw text (p, h)
  ]

  cons_trimmed-AllChars :
      (c : Char) (s : String) → P (code c) → AllChars P s → AllChars P (cons_trimmed c s)
  cons_trimmed-AllChars c String.[] p h = elim (Bool-cases (is_space (code c))) [
    | inl space ↦ rw space tt
    | inr text ↦ rw text (p, tt)
  ]
  cons_trimmed-AllChars c (String.◌∷◌ d s) p h = (p, h)

  trim_right-AllChars : (s : String) → AllChars P s → AllChars P (trim_right s)
  unfolding trim_right
  trim_right-AllChars String.[] h = tt
  trim_right-AllChars (String.◌∷◌ c s) (p, h) =
      cons_trimmed-AllChars c (trim_right s) p (trim_right-AllChars s h)

  trim_space-AllChars : (s : String) → AllChars P s → AllChars P (trim_space s)
  unfolding trim_space
  trim_space-AllChars s h = trim_right-AllChars (trim_left s) (trim_left-AllChars s h)

  take_runes-AllChars : (n : ℕ) (s : String) → AllChars P s → AllChars P (take_runes n s)
  unfolding take_runes
  take_runes-AllChars zero s h = tt
  take_runes-AllChars (suc n) String.[] h = tt
  take_runes-AllChars (suc n) (String.◌∷◌ c s) (p, h) = (p, take_runes-AllChars n s h)

rune_count-append : (s t : String) → rune_count (s <> t) ≡ rune_count s + rune_count t
unfolding rune_count
rune_count-append String.[] t =
    let none_yet : rune_count "" ≡ 0 = refl in rw nil-append (omega arith)
rune_count-append (String.◌∷◌ c s) t = rw cons-append (omega (arith, rune_count-append s t))

rune_count-take_runes : (n : ℕ) (s : String) → rune_count (take_runes n s) ≤ n
unfolding rune_count take_runes
rune_count-take_runes zero s = omega arith
rune_count-take_runes (suc n) String.[] = omega arith
rune_count-take_runes (suc n) (String.◌∷◌ c s) = omega (arith, rune_count-take_runes n s)

dots-AllChars : AllChars IsSafe "..."
unfolding is_unsafe
dots-AllChars = let dot : IsSafe 46 = is_unsafe-IsSafe 46 refl in (dot, (dot, (dot, tt)))

rune_count_dots : rune_count "..." ≡ 3
unfolding rune_count
rune_count_dots = refl

-- Whatever the provider's text, what an error holds of it has at most 203 runes, and none of them is
-- below U+0020, U+007F, a backslash or a double quote.
pub provider_text-IsSafe :
    (s : String) → AllChars IsSafe (provider_text s) × (rune_count (provider_text s) ≤ 203)
unfolding provider_text
provider_text-IsSafe s =
    let text = trim_space (cleaned s) in
    let safe = trim_space-AllChars IsSafe (cleaned s) (cleaned-AllChars s) in
    elim (Bool-cases (ltb 200 (rune_count text))) [
      | inl long ↦ rw long (
        AllChars-append IsSafe (take_runes 200 text) "..."
            (take_runes-AllChars IsSafe 200 text safe) dots-AllChars,
        omega (
          arith,
          rune_count-append (take_runes 200 text) "...",
          rune_count-take_runes 200 text,
          rune_count_dots,
        ),
      )
      | inr short ↦ rw short (safe, ground arith)
    ]
