-- ===== src/Subscription/Exact/Lookup.antt =====
-- What `getWebhookByExactID` asks for, and what it returns.
use mathlib.Core.Path.{subst₂}
use integration_nfeio.Base.{
  String, ◌<>◌, true, Option, none, some, ◌≡◌, refl, ap, sym, ◌∙◌, ◌⊎◌, inl, inr, arith, Bool-cases,
  eq_iff,
}
use integration_nfeio.Json.{Fields, end}
use integration_nfeio.Config.{Config}
use integration_nfeio.Http.{get_method, put_method, Request, Response, Net, Result, ok, err, World}
use integration_nfeio.Http.Yields.{after-ok, Yields}
use integration_nfeio.Client.{make_request, do_request, Target, into, read_body, is_success}
use integration_nfeio.Client.Answers.{Replied, do_request-eq-ok}
use integration_nfeio.Client.Sends.{SentOnly-refl, SentOnly-after, do_request-SentOnly, Sends}
use integration_nfeio.Subscription.{webhook_exact_path}
use integration_nfeio.Subscription.Document.{decode_document, document_id}
use integration_nfeio.Subscription.Exact.{
  sanitize_result, is_requested, check_id, get_webhook_by_exact_id,
}

pub sanitize_result-world :
    {S A : Type 0} (operation : String) (p : Result A × World S)
    → (sanitize_result operation p).1 ≡ p.1
sanitize_result-world operation (ok a, w) = refl
sanitize_result-world operation (err e, w) = refl

-- A read or a write of exactly this webhook.
abbrev pub IsExactRequest : Config → String → Request → Type 0
IsExactRequest cfg id r =
    (r.url ≡ cfg.base_url <> webhook_exact_path id)
    × ((r.method ≡ get_method) ⊎ (r.method ≡ put_method))

-- The provider's last answer was a 2xx to a GET of the webhook `id`, and its document is `d`,
-- which names `id`.
pub record IsRead {S : Type 0} (net : Net S) (cfg : Config) (id : String) (d : Fields) (w : World S)
    : Type 0 where
  pub response : Response
  pub replied : Replied net (make_request cfg get_method (webhook_exact_path id) none) response w
  pub success : is_success response.status ≡ true
  pub document : read_body (into decode_document end) response.body ≡ ok d
  pub named : document_id d ≡ some id

is_requested_sound : (id : String) (o : Option String) → is_requested id o ≡ true → o ≡ some id
is_requested_sound id none h = cc
is_requested_sound id (some s) h = ground (arith, eq_iff s id)

check_id-ok :
    {S : Type 0} (id operation : String) (d : Fields) (w : World S) {d' : Fields}
    → (check_id id operation d w).0 ≡ ok d'
    → (d ≡ d') × (document_id d ≡ some id)
check_id-ok id operation d w h = elim (Bool-cases (is_requested id (document_id d))) [
  | inl same ↦ (ground arith, is_requested_sound id (document_id d) same)
  | inr other ↦ absurd (ground arith)
]

sanitize_result-ok :
    {S A : Type 0} (operation : String) (p : Result A × World S) {a : A} {w : World S}
    → sanitize_result operation p ≡ (ok a, w)
    → p ≡ (ok a, w)
sanitize_result-ok operation (ok a, w) h = h
sanitize_result-ok operation (err e, w) h = cc

check_id-world :
    {S : Type 0} (id operation : String) (d : Fields) (w : World S)
    → (check_id id operation d w).1 ≡ w
check_id-world id operation d w = ground arith

module _ {S : Type 0} (net : Net S) (cfg : Config) (op : String) where
  pub get_webhook-Sends :
      (id operation : String)
      → Sends (IsExactRequest cfg id) 3 (get_webhook_by_exact_id net cfg op id operation)
  unfolding get_webhook_by_exact_id
  get_webhook-Sends id operation = record {
    run = λ w.
        let out : Target Fields = into decode_document end in
        let read = do_request net cfg op get_method (webhook_exact_path id) none out w in
        SentOnly-after (IsExactRequest cfg id) 3 0 w (check_id id operation)
          (sanitize_result operation read)
          (rw (sanitize_result-world operation read) (
            do_request-SentOnly (IsExactRequest cfg id) net cfg op get_method _ none out w
              (refl, inl refl)))
          (λ d v. rw (check_id-world id operation d v) (SentOnly-refl (IsExactRequest cfg id) v));
  }

  -- The document that a call returns is the one that the last answer held.
  get_webhook-ok :
      (id operation : String) (w : World S) {d : Fields}
      → (get_webhook_by_exact_id net cfg op id operation w).0 ≡ ok d
      → IsRead net cfg id d (get_webhook_by_exact_id net cfg op id operation w).1
  unfolding get_webhook_by_exact_id
  get_webhook-ok id operation w {d} h =
      let out : Target Fields = into decode_document end in
      let read = do_request net cfg op get_method (webhook_exact_path id) none out w in
      let (a, v, step, checked, same) =
        after-ok (check_id id operation) (sanitize_result operation read) {b = d} h in
      let plain = sanitize_result-ok operation read step in
      let (r, replied, success, body) =
        do_request-eq-ok net cfg op get_method (webhook_exact_path id) none out w {a = a}
          (ap (λ p. p.0) plain) in
      let (equal, named) = check_id-ok id operation a v checked in
      let final = same ∙ (check_id-world id operation a v ∙ sym (ap (λ p. p.1) plain)) in
      subst₂ (λ x y. IsRead net cfg id x y) equal (sym final)
        (record {
          response = r;
          replied = replied;
          success = success;
          document = body;
          named = named;
        })

  pub get_webhook-Yields :
      (id operation : String)
      → Yields (IsRead net cfg id) (get_webhook_by_exact_id net cfg op id operation)
  get_webhook-Yields id operation = record {
    run = λ w d h. get_webhook-ok id operation w {d = d} h;
  }
