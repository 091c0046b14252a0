-- ===== src/Reconcile/Matched.antt =====
-- What a successful guarded destroy of a webhook subscription has agreed on.
use integration_nfeio.Base.{
  String, Bool, false, ◌&&◌, not, ◌≡◌, ap, sym, ◌∙◌, ◌⊎◌, inl, inr, arith, Bool-cases, eq_str,
  eq_iff,
}
use integration_nfeio.Config.{Config}
use integration_nfeio.Http.{Net, ok, World}
use integration_nfeio.Http.Yields.{after-ok}
use integration_nfeio.Subscription.{EnsureInput, DestroyInput}
use integration_nfeio.Subscription.Remove.{destroy_webhook_subscription}
use integration_nfeio.Subscription.Remove.Guarded.{IsDeleted, destroy-IsDeleted}
use integration_nfeio.Reconcile.{forget, destroy_with_desired}

-- The text is empty or it is the given one.
agrees : (s ref : String) → (not (eq_str s "") && not (eq_str s ref)) ≡ false → (s ≡ "") ⊎ (s ≡ ref)
agrees s ref h = ground (arith, eq_iff s "", eq_iff s ref)

module _ {S : Type 0} (net : Net S) (cfg : Config) (op : String) where
  -- Where the guarded destroy succeeds, the ref and the id of the desired input are each empty or
  -- the given ref, its confirm_id is that ref, and the webhook of that ref was deleted or absent.
  pub destroy_with_desired-IsDeleted :
      (ref : String) (desired : EnsureInput) (w : World S)
      → (destroy_with_desired net cfg op ref desired w).0 ≡ ok tt
      → ((desired.ref ≡ "") ⊎ (desired.ref ≡ ref))
        × ((desired.id ≡ "") ⊎ (desired.id ≡ ref))
        × (desired.confirm_id ≡ ref)
        × ((already_absent : Bool) × IsDeleted net cfg op ref already_absent
              (destroy_with_desired net cfg op ref desired w).1)
  unfolding destroy_with_desired
  destroy_with_desired-IsDeleted ref desired w h =
      elim (Bool-cases (not (eq_str desired.ref "") && not (eq_str desired.ref ref))) [
        | inl bad ↦ absurd (ground arith)
        | inr fine ↦ elim (Bool-cases (not (eq_str desired.id "") && not (eq_str desired.id ref))) [
          | inl bad ↦ absurd (ground arith)
          | inr same ↦
              let in' : DestroyInput = record { id = ref; confirm_id = desired.confirm_id } in
              let (out, v, step, _, world) =
                after-ok forget (destroy_webhook_subscription net cfg op in' w) {b = tt}
                  (rw (fine, same) at h) in
              let (confirmed, _, deleted) =
                destroy-IsDeleted net cfg op in' w {out = out} (ap (λ p. p.0) step) in
              (
                agrees desired.ref ref fine,
                agrees desired.id ref same,
                confirmed,
                (out.already_absent, rw (fine, same, world ∙ sym (ap (λ p. p.1) step)) deleted),
              )
        ]
      ]
