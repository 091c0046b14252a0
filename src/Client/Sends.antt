-- ===== src/Client/Sends.antt =====
-- The calls of an operation, counted and described: a rule for each way that steps are composed.
use mathlib.Core.List.{append_assoc}
use integration_nfeio.Base.{
  sym, [], ◌+◌, length-replicate, All-replicate, length-append, All-append, ℕ, ◌≤◌, String, Bool,
  true, false, Option, List, ◌++◌, ◌≡◌, refl, ap, ◌∙◌, if◌then◌else◌, arith, length, All, replicate,
}
use integration_nfeio.Client.Sending.{do_request-sent}
use integration_nfeio.Json.{Json}
use integration_nfeio.Config.{Config}
use integration_nfeio.Http.{Method, Request, Net, Result, ok, err, World, M, after, ◌>>=◌, ◌>>◌}
use integration_nfeio.Client.{make_request, Target, do_request}

-- The world `w'` is reached from `w` by at most `n` requests, all of which satisfy `P`.
abbrev pub SentOnly {ℓ} : {S : Type 0} → (Request → Type ℓ) → ℕ → World S → World S → Type ℓ
SentOnly P n w w' = (rs : List Request) × (w'.sent ≡ rs ++ w.sent) × All P rs × (length rs ≤ n)

module _ {ℓ} {S : Type 0} (P : Request → Type ℓ) where
  pub SentOnly-refl : (w : World S) → SentOnly P 0 w w
  SentOnly-refl w = ([], refl, tt, omega arith)

  pub SentOnly-trans :
      (m n : ℕ) (u v w : World S) → SentOnly P m u v → SentOnly P n v w → SentOnly P (n + m) u w
  SentOnly-trans m n u v w (rs, e, p, l) (rs', e', p', l') = (
    rs' ++ rs,
    e' ∙ (ap (λ x. rs' ++ x) e ∙ sym (append_assoc rs' rs u.sent)),
    All-append P rs' rs p' p,
    omega (arith, length-append rs' rs),
  )

  pub SentOnly-weaken : (m n : ℕ) (u v : World S) → m ≤ n → SentOnly P m u v → SentOnly P n u v
  SentOnly-weaken m n u v h (rs, e, p, l) = (rs, e, p, omega arith)

  -- A step after another, which may have failed.
  pub SentOnly-after :
      {A B : Type 0} (m n : ℕ) (w : World S) (k : A → M S B) (p : Result A × World S)
      → SentOnly P m w p.1
      → ((a : A) (v : World S) → SentOnly P n v (k a v).1)
      → SentOnly P (n + m) w (after k p).1
  SentOnly-after m n w k (ok a, v) h g = SentOnly-trans m n w v (k a v).1 h (g a v)
  SentOnly-after m n w k (err e, v) h g = SentOnly-weaken m (n + m) w v (omega arith) h

  pub do_request-SentOnly :
      {A : Type 0} (net : Net S) (cfg : Config) (op : String) (m : Method) (path : String)
      (body : Option Json) (out : Target A) (w : World S)
      → P (make_request cfg m path body)
      → SentOnly P 3 w (do_request net cfg op m path body out w).1
  do_request-SentOnly net cfg op m path body out w p =
      let (n, sent, most, _) = do_request-sent net cfg op m path body out w in
      (
        replicate n (make_request cfg m path body),
        sent,
        All-replicate P n _ p,
        omega (arith, length-replicate n (make_request cfg m path body)),
      )

-- A step that reaches its end by at most `n` requests, all of which satisfy `P`.
pub record Sends {ℓ} {S A : Type 0} (P : Request → Type ℓ) (n : ℕ) (m : M S A) : Type ℓ where
  pub run : (w : World S) → SentOnly P n w (m w).1

module _ {ℓ} {S : Type 0} {P : Request → Type ℓ} where
  pub Sends-pure : {A : Type 0} (r : Result A) → Sends {S = S} P 0 (λ w. (r, w))
  Sends-pure r = record { run = SentOnly-refl P }

  pub Sends-bind :
      {A B : Type 0} {m n : ℕ} {a : M S A} {k : A → M S B}
      → Sends P m a
      → ((x : A) → Sends P n (k x))
      → Sends P (n + m) (a >>= k)
  Sends-bind {m} {n} {a} {k} h g = record {
    run = λ w. SentOnly-after P m n w k (a w) (h.run w) (λ x. (g x).run);
  }

  pub Sends-then :
      {B : Type 0} {m n : ℕ} {a : M S (Unit {0})} {k : M S B}
      → Sends P m a
      → Sends P n k
      → Sends P (n + m) (a >> k)
  Sends-then {m} {n} {a} {k} h g = record {
    run = λ w. SentOnly-after P m n w (λ _. k) (a w) (h.run w) (λ _. g.run);
  }

  pub Sends-if :
      {A : Type 0} {n : ℕ} (b : Bool) {a c : M S A}
      → Sends P n a
      → Sends P n c
      → Sends P n (if b then a else c)
  Sends-if true h g = h
  Sends-if false h g = g

  pub Sends-weaken : {A : Type 0} (m n : ℕ) {a : M S A} → m ≤ n → Sends P m a → Sends P n a
  Sends-weaken m n {a} h s = record { run = λ w. SentOnly-weaken P m n w (a w).1 h (s.run w) }

  pub Sends-do_request :
      {A : Type 0} (net : Net S) (cfg : Config) (op : String) (m : Method) (path : String)
      (body : Option Json) (out : Target A)
      → P (make_request cfg m path body)
      → Sends P 3 (do_request net cfg op m path body out)
  Sends-do_request net cfg op m path body out p = record {
    run = λ w. do_request-SentOnly P net cfg op m path body out w p;
  }
