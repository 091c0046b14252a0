-- ===== src/Subscription/Document/Desired.antt =====
-- What the PUT of `EnsureWebhookSubscription` changes in the provider's document, and what it keeps.
use integration_nfeio.Base.{
  String, true, false, Option, none, some, ◌≡◌, ◌≢◌, refl, ap, sym, ◌∙◌, arith, Bool-cases, eq_iff,
  equal_fold, inl, inr,
}
use integration_nfeio.Json.{
  Json, null, bool, num, str, arr, obj, Fields, end, field, get, insert, insert_all, as_map,
}
use integration_nfeio.Json.Maps.{get-insert_self, get-insert_ne}
use integration_nfeio.Http.{ok}
use integration_nfeio.Subscription.{EnsureInput}
use integration_nfeio.Subscription.Document.{
  without_authorization, migrate_headers, clean_headers, desired_fields, any_authorization,
  legacy_of, has_legacy_authorization,
}

-- An object's `Authorization` test after one insertion.
any_authorization-insert :
    (k : String) (v : Json) (m : Fields)
    → equal_fold k "Authorization" ≡ false
    → any_authorization m ≡ false
    → any_authorization (insert k v m) ≡ false
unfolding any_authorization insert
any_authorization-insert k v end h g = rw h
any_authorization-insert k v (field j w m) h g = ground (arith, any_authorization-insert k v m h)

any_authorization-insert_all :
    (acc m : Fields)
    → any_authorization acc ≡ false
    → any_authorization m ≡ false
    → any_authorization (insert_all acc m) ≡ false
unfolding insert_all any_authorization
any_authorization-insert_all acc end h g = h
any_authorization-insert_all acc (field k v m) h g =
    any_authorization-insert_all (insert k v acc) m
      (any_authorization-insert k v acc (ground arith) h) (ground arith)

any_authorization-without : (m : Fields) → any_authorization (without_authorization m) ≡ false
unfolding any_authorization without_authorization
any_authorization-without end = refl
any_authorization-without (field k v m) = ground (arith, any_authorization-without m)

-- How the desired fields `d'` follow from the current ones `d`.
pub record IsDesired (in' : EnsureInput) (runtime_hmac : String) (d d' : Fields) : Type 0 where
  pub secure : get "insecureSsl" d' ≡ some (bool false)
  pub kept : (k : String) → k ≢ "insecureSsl" → k ≢ "secret" → k ≢ "headers" → get k d' ≡ get k d
  pub ordinary :
      in'.set_hmac_from_runtime ≡ false → (k : String) → k ≢ "insecureSsl" → get k d' ≡ get k d
  pub keyed : in'.set_hmac_from_runtime ≡ true → get "secret" d' ≡ some (str runtime_hmac)
  pub cleaned : in'.set_hmac_from_runtime ≡ true → has_legacy_authorization d' ≡ ok false

abbrev secured : Fields → Fields
secured d = insert "insecureSsl" (bool false) d

abbrev migrated : String → Fields → Fields
migrated runtime_hmac d = insert "secret" (str runtime_hmac) (secured d)

distinct :
    (◌≢◌ {A = String} "secret" "insecureSsl")
    × (◌≢◌ {A = String} "headers" "insecureSsl")
    × (◌≢◌ {A = String} "headers" "secret")
distinct = (
  ground (arith, eq_iff "secret" "insecureSsl"),
  ground (arith, eq_iff "headers" "insecureSsl"),
  ground (arith, eq_iff "headers" "secret"),
)

secured-kept : (d : Fields) (k : String) → k ≢ "insecureSsl" → get k (secured d) ≡ get k d
secured-kept d k h = get-insert_ne "insecureSsl" k (bool false) d (λ e. h (sym e))

ordinary_lem :
    (in' : EnsureInput) (runtime_hmac : String) (d : Fields)
    → in'.set_hmac_from_runtime ≡ false
    → IsDesired in' runtime_hmac d (secured d)
ordinary_lem in' runtime_hmac d off = record {
  secure = get-insert_self "insecureSsl" (bool false) d;
  kept = λ k h _ _. secured-kept d k h;
  ordinary = λ _ k h. secured-kept d k h;
  keyed = λ on. absurd (cc);
  cleaned = λ on. absurd (cc);
}

migrated-secure : (h : String) (d : Fields) → get "insecureSsl" (migrated h d) ≡ some (bool false)
migrated-secure h d =
    get-insert_ne "secret" "insecureSsl" (str h) (secured d) distinct.0
    ∙ get-insert_self "insecureSsl" (bool false) d

migrated-kept :
    (h : String) (d : Fields) (k : String)
    → k ≢ "insecureSsl"
    → k ≢ "secret"
    → get k (migrated h d) ≡ get k d
migrated-kept h d k p q =
    get-insert_ne "secret" k (str h) (secured d) (λ e. q (sym e)) ∙ secured-kept d k p

-- Headers that are absent or null stay as they are.
untouched_lem :
    (in' : EnsureInput) (runtime_hmac : String) (d : Fields)
    → in'.set_hmac_from_runtime ≡ true
    → legacy_of (get "headers" (migrated runtime_hmac d)) ≡ ok false
    → IsDesired in' runtime_hmac d (migrated runtime_hmac d)
unfolding has_legacy_authorization
untouched_lem in' runtime_hmac d on clean = record {
  secure = migrated-secure runtime_hmac d;
  kept = λ k p q _. migrated-kept runtime_hmac d k p q;
  ordinary = λ off. absurd (cc);
  keyed = λ _. get-insert_self "secret" (str runtime_hmac) (secured d);
  cleaned = λ _. clean;
}

-- Headers that are an object lose their `Authorization` entries.
cleaned_lem :
    (in' : EnsureInput) (runtime_hmac : String) (d headers : Fields)
    → in'.set_hmac_from_runtime ≡ true
    → IsDesired in' runtime_hmac d
        (insert "headers" (obj (without_authorization headers)) (migrated runtime_hmac d))
unfolding has_legacy_authorization as_map
cleaned_lem in' runtime_hmac d headers on =
    let new = obj (without_authorization headers) in
    let base = migrated runtime_hmac d in
    record {
      secure =
          get-insert_ne "headers" "insecureSsl" new base distinct.1
          ∙ migrated-secure runtime_hmac d;
      kept = λ k p q r.
          get-insert_ne "headers" k new base (λ e. r (sym e)) ∙ migrated-kept runtime_hmac d k p q;
      ordinary = λ off. absurd (cc);
      keyed = λ _.
          get-insert_ne "headers" "secret" new base distinct.2
          ∙ get-insert_self "secret" (str runtime_hmac) (secured d);
      cleaned = λ _. rw (get-insert_self "headers" new base) (
          ap ok (
            any_authorization-insert_all end (without_authorization headers) refl
              (any_authorization-without headers)));
    }

from_clean_headers :
    (in' : EnsureInput) (runtime_hmac : String) (d : Fields) (o : Option Fields) {d' : Fields}
    → in'.set_hmac_from_runtime ≡ true
    → clean_headers (migrated runtime_hmac d) o ≡ ok d'
    → IsDesired in' runtime_hmac d d'
from_clean_headers in' runtime_hmac d none on h = absurd (cc)
from_clean_headers in' runtime_hmac d (some headers) {d'} on h =
    let same : insert "headers" (obj (without_authorization headers)) (migrated runtime_hmac d)
        ≡ d' =
      cc in
    rw (← same) (cleaned_lem in' runtime_hmac d headers on)

from_headers :
    (in' : EnsureInput) (runtime_hmac : String) (d : Fields) (o : Option Json) {d' : Fields}
    → in'.set_hmac_from_runtime ≡ true
    → get "headers" (migrated runtime_hmac d) ≡ o
    → migrate_headers (migrated runtime_hmac d) o ≡ ok d'
    → IsDesired in' runtime_hmac d d'
from_headers in' runtime_hmac d none {d'} on e h =
    let same : migrated runtime_hmac d ≡ d' = cc in
    rw (← same) (untouched_lem in' runtime_hmac d on (rw e))
from_headers in' runtime_hmac d (some null) {d'} on e h =
    let same : migrated runtime_hmac d ≡ d' = cc in
    rw (← same) (untouched_lem in' runtime_hmac d on (rw e))
from_headers in' runtime_hmac d (some (obj fs)) on e h =
    from_clean_headers in' runtime_hmac d (as_map (obj fs)) on h
from_headers in' runtime_hmac d (some (bool b)) on e h =
    from_clean_headers in' runtime_hmac d (as_map (bool b)) on h
from_headers in' runtime_hmac d (some (num b)) on e h =
    from_clean_headers in' runtime_hmac d (as_map (num b)) on h
from_headers in' runtime_hmac d (some (str b)) on e h =
    from_clean_headers in' runtime_hmac d (as_map (str b)) on h
from_headers in' runtime_hmac d (some (arr b)) on e h =
    from_clean_headers in' runtime_hmac d (as_map (arr b)) on h

-- Where the desired fields exist, insecureSsl is false in them and every field but insecureSsl,
-- secret and headers is as the provider had it. Without a migration insecureSsl alone may change;
-- with one the secret is the runtime secret and no Authorization header is left.
pub desired_fields-IsDesired :
    (d : Fields) (in' : EnsureInput) (runtime_hmac : String) {d' : Fields}
    → desired_fields d in' runtime_hmac ≡ ok d'
    → IsDesired in' runtime_hmac d d'
unfolding desired_fields
desired_fields-IsDesired d in' runtime_hmac {d'} h = elim (Bool-cases in'.set_hmac_from_runtime) [
  | inl on ↦ from_headers in' runtime_hmac d _ on refl (rw on at h)
  | inr off ↦
      let same : secured d ≡ d' = ground arith in rw (← same) (ordinary_lem in' runtime_hmac d off)
]
