-- ===== src/Subscription/Ensure/Confirmed.antt =====
-- What a success of `EnsureWebhookSubscription` has seen the provider confirm.
use integration_nfeio.Base.{
  String, Bool, true, false, some, ◌≡◌, ap, sym, inl, inr, arith, Bool-cases, Option-cases, ◌&&◌,
  not,
}
use integration_nfeio.Json.{Fields}
use integration_nfeio.Config.{Config}
use integration_nfeio.Http.{Net, ok, World, after, ◌>>=◌}
use integration_nfeio.Http.Yields.{Yields, Yields-bind, Yields-last, Yields-then}
use integration_nfeio.Subscription.{
  EnsureInput, EnsureOutput, safe_webhook_output, validate_ensure_input,
}
use integration_nfeio.Subscription.Document.{
  desired_fields, document_insecure_ssl, has_matching_runtime_secret, has_legacy_authorization,
}
use integration_nfeio.Subscription.Exact.{lift}
use integration_nfeio.Subscription.Exact.Lookup.{IsRead, get_webhook-Yields}
use integration_nfeio.Subscription.Ensure.{
  op_ensure, put_desired, flag_of, finish_update, update_webhook, reconcile_webhook,
  ensure_webhook_subscription,
}

-- What the provider's document of a confirmed webhook says.
pub record IsConfirmed (in' : EnsureInput) (d : Fields) : Type 0 where
  pub secure : document_insecure_ssl d ≡ some false
  pub migrated : in'.set_hmac_from_runtime ≡ true → has_legacy_authorization d ≡ ok false

finish_update-ok :
    {S : Type 0} (in' : EnsureInput) (d : Fields) (w : World S) {out : EnsureOutput}
    → (finish_update in' d w).0 ≡ ok out
    → IsConfirmed in' d
      × (out ≡ safe_webhook_output in'.id false true)
      × ((finish_update in' d w).1 ≡ w)
unfolding finish_update
finish_update-ok in' d w h =
    (record { secure = ground arith; migrated = λ m. ground arith }, ground arith, ground arith)

-- A success: the provider's last answer was a document of this webhook that confirms the input.
pub record IsReconciled {S : Type 0} (net : Net S) (cfg : Config) (in' : EnsureInput)
    (out : EnsureOutput) (w : World S) : Type 0 where
  pub document : Fields
  pub read : IsRead net cfg in'.id document w
  pub confirmed : IsConfirmed in' document
  pub named : out.id ≡ in'.id
  pub secure : out.insecure_ssl ≡ false

module _ {S : Type 0} (net : Net S) (cfg : Config) (op : String) (in' : EnsureInput) where
  finish_update-IsReconciled :
      (d : Fields) (w : World S) (out : EnsureOutput)
      → IsRead net cfg in'.id d w
      → (finish_update in' d w).0 ≡ ok out
      → IsReconciled net cfg in' out (finish_update in' d w).1
  finish_update-IsReconciled d w out read h =
      let (confirmed, result, still) = finish_update-ok in' d w h in
      record {
        document = d;
        read = rw still read;
        confirmed = confirmed;
        named = ap (λ o. o.id) result;
        secure = ap (λ o. o.insecure_ssl) result;
      }

  update_webhook-Yields :
      (current : Fields) → Yields (IsReconciled net cfg in') (update_webhook net cfg op in' current)
  unfolding update_webhook
  update_webhook-Yields current =
      Yields-last (lift (desired_fields current in' cfg.webhook_secret)) (λ desired.
        Yields-then (put_desired net cfg op in'.id desired) (
          Yields-bind (finish_update in') (get_webhook-Yields net cfg op in'.id op_ensure)
            finish_update-IsReconciled))

  reconcile_webhook-IsReconciled :
      (current : Fields) (insecure_ssl : Bool) (w : World S) (out : EnsureOutput)
      → IsRead net cfg in'.id current w
      → flag_of (document_insecure_ssl current) ≡ ok insecure_ssl
      → (reconcile_webhook net cfg op in' current insecure_ssl w).0 ≡ ok out
      → IsReconciled net cfg in' out (reconcile_webhook net cfg op in' current insecure_ssl w).1
  unfolding reconcile_webhook
  reconcile_webhook-IsReconciled current insecure_ssl w out read flag h =
      elim (Bool-cases (not insecure_ssl && not in'.set_hmac_from_runtime)) [
        | inl same ↦
            let result : safe_webhook_output in'.id false false ≡ out = ground arith in
            rw same (record {
              document = current;
              read = read;
              confirmed = record { secure = ground arith; migrated = λ m. ground arith };
              named = ap (λ o. o.id) (sym result);
              secure = ap (λ o. o.insecure_ssl) (sym result);
            })
        | inr drift ↦
            elim (Bool-cases (
              insecure_ssl
              && not in'.set_hmac_from_runtime
              && not (has_matching_runtime_secret current cfg.webhook_secret))) [
                | inl refused ↦ absurd (ground arith)
                | inr fine ↦
                    rw (drift, fine)
                      ((update_webhook-Yields current).run w out (rw (drift, fine) at h))
              ]
      ]

  -- The flag that is read from the current document decides what is done.
  from_current :
      (current : Fields) (w : World S) (out : EnsureOutput)
      → IsRead net cfg in'.id current w
      → (after
          (reconcile_webhook net cfg op in' current)
          (lift (flag_of (document_insecure_ssl current)) w)).0
        ≡ ok out
      → IsReconciled net cfg in' out
          (after
            (reconcile_webhook net cfg op in' current)
            (lift (flag_of (document_insecure_ssl current)) w)).1
  from_current current w out read h = elim (Option-cases (document_insecure_ssl current)) [
    | inl missing ↦ absurd (ground arith)
    | inr (b, found) ↦
        rw found (reconcile_webhook-IsReconciled current b w out read (rw found) (rw found at h))
  ]

  ensure-Yields : Yields (IsReconciled net cfg in') (ensure_webhook_subscription net cfg op in')
  unfolding ensure_webhook_subscription
  ensure-Yields = Yields-then (lift (validate_ensure_input in' cfg.webhook_secret)) (
      Yields-bind
        (λ current.
          lift (flag_of (document_insecure_ssl current))
          >>= reconcile_webhook net cfg op in' current)
        (get_webhook-Yields net cfg op in'.id op_ensure) from_current)

  -- Where the operation succeeds, the last answer was a 2xx to a GET of the exact webhook; its
  -- document names the webhook, has insecureSsl false and, if a migration was asked for, holds no
  -- Authorization header; and the output repeats the id with insecure_ssl false.
  pub ensure-IsReconciled :
      (w : World S) {out : EnsureOutput}
      → (ensure_webhook_subscription net cfg op in' w).0 ≡ ok out
      → IsReconciled net cfg in' out (ensure_webhook_subscription net cfg op in' w).1
  ensure-IsReconciled w {out} h = ensure-Yields.run w out h
