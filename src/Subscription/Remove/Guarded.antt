-- ===== src/Subscription/Remove/Guarded.antt =====
-- When `DestroyWebhookSubscription` sends its DELETE, and what its success means.
use integration_nfeio.Base.{
  ℕ, String, Bool, true, false, not, none, pos, ℤ, ◌≡◌, ◌≢◌, refl, ap, ◌⊎◌, inl, inr, arith,
  Bool-cases, eq_str, eq_iff, eq_int, eq-false_of_ne,
}
use integration_nfeio.Config.{Config}
use integration_nfeio.Http.{delete_method, Response, Net, Error, api, Result, ok, err, World}
use integration_nfeio.Client.{make_request, do_request, discard, is_success, api_error_of}
use integration_nfeio.Client.Answers.{Replied, do_request-eq-ok, do_request-eq-api}
use integration_nfeio.Subscription.{
  DestroyInput, DestroyOutput, valid_webhook_id, webhook_exact_path,
}
use integration_nfeio.Subscription.Remove.{destroyed, destroy_outcome, destroy_webhook_subscription}

module _ {S : Type 0} (net : Net S) (cfg : Config) (op : String) where
  -- Unless the id is valid and the confirmation repeats it exactly, the call fails and the world is
  -- as it was: nothing is sent.
  pub destroy_unconfirmed :
      (in' : DestroyInput) (w : World S)
      → (valid_webhook_id in'.id ≡ false) ⊎ (in'.confirm_id ≢ in'.id)
      → ((e : Error) × ((destroy_webhook_subscription net cfg op in' w).0 ≡ err e))
        × ((destroy_webhook_subscription net cfg op in' w).1 ≡ w)
  unfolding destroy_webhook_subscription
  destroy_unconfirmed in' w h = elim (Bool-cases (valid_webhook_id in'.id)) [
    | inr bad ↦ rw bad ((_, refl), refl)
    | inl fine ↦ elim h [
      | inl bad ↦ absurd (cc)
      | inr ne ↦ rw (fine, eq-false_of_ne _ _ ne) ((_, refl), refl)
    ]
  ]

  -- An answer to the exact DELETE that counts as a deletion: a 2xx, or one whose error carries 404.
  pub record IsDeleted (id : String) (already_absent : Bool) (w : World S) : Type 0 where
    pub response : Response
    pub replied :
        Replied net (make_request cfg delete_method (webhook_exact_path id) none) response w
    pub accepted : is_success response.status ≡ not already_absent
    pub absent : already_absent ≡ true → (api_error_of response).status ≡ pos 404

  eq_int_sound : (a : ℤ) (n : ℕ) → eq_int a (pos n) ≡ true → a ≡ pos n
  eq_int_sound a n h = ground arith

  eq_str_sound : (s t : String) → eq_str s t ≡ true → s ≡ t
  eq_str_sound s t h = ground (arith, eq_iff s t)

  destroy_outcome-ok :
      (id : String) (w : World S) (p : Result (Unit {0}) × World S) {out : DestroyOutput}
      → do_request net cfg op delete_method (webhook_exact_path id) none (discard tt) w ≡ p
      → (destroy_outcome p).0 ≡ ok out
      → (out.deleted ≡ true) × IsDeleted id out.already_absent (destroy_outcome p).1
  destroy_outcome-ok id w (ok a, v) {out} e h =
      let (r, replied, success, _) =
        do_request-eq-ok net cfg op delete_method (webhook_exact_path id) none (discard tt) w
          {a = a} (ap (λ q. q.0) e) in
      let result : destroyed false ≡ out = cc in
      rw (← result) (
        refl,
        record {
          response = r;
          replied = rw (ap (λ q. q.1) e) at replied;
          accepted = success;
          absent = λ x. absurd (cc);
        },
      )
  destroy_outcome-ok id w (err (api x), v) {out} e h =
      elim (Bool-cases (eq_int x.status (pos 404))) [
        | inr other ↦ absurd (ground arith)
        | inl gone ↦
            let (r, replied, bad, made) =
              do_request-eq-api net cfg op delete_method (webhook_exact_path id) none (discard tt) w
                {e = x} (ap (λ q. q.0) e) in
            let result : destroyed true ≡ out = ground arith in
            rw (← result, gone)
              (
                refl,
                record {
                  response = r;
                  replied = rw (ap (λ q. q.1) e) at replied;
                  accepted = bad;
                  absent = λ _. rw (← made) (eq_int_sound x.status 404 gone);
                },
              )
      ]
  destroy_outcome-ok id w (err y, v) e h = absurd (cc)

  -- Where the call succeeds, the last answer was to the DELETE of the exact webhook. Either it was
  -- a 2xx, or the output says already_absent and the error that was read from it carries 404.
  pub destroy-IsDeleted :
      (in' : DestroyInput) (w : World S) {out : DestroyOutput}
      → (destroy_webhook_subscription net cfg op in' w).0 ≡ ok out
      → (in'.confirm_id ≡ in'.id)
        × (out.deleted ≡ true)
        × IsDeleted in'.id out.already_absent (destroy_webhook_subscription net cfg op in' w).1
  unfolding destroy_webhook_subscription
  destroy-IsDeleted in' w {out} h = elim (Bool-cases (valid_webhook_id in'.id)) [
    | inr bad ↦ absurd (ground arith)
    | inl fine ↦ elim (Bool-cases (eq_str in'.confirm_id in'.id)) [
      | inr other ↦ absurd (ground arith)
      | inl same ↦
          let (deleted, is_deleted) =
            destroy_outcome-ok in'.id w
              (do_request net cfg op delete_method (webhook_exact_path in'.id) none (discard tt) w)
              refl (rw (fine, same) at h) in
          rw (fine, same) (eq_str_sound in'.confirm_id in'.id same, deleted, is_deleted)
    ]
  ]
