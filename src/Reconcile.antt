-- ===== src/Reconcile.antt =====
-- providers/nfeio/adapter/reconcilers.go: the guarded destroy of a webhook subscription, and the
-- provider's text in errors.
pub mod Matched
pub mod Safe
pub mod Wired
use integration_nfeio.Base.{
  ℕ, zero, suc, ◌+◌, Char, code, String, ◌<>◌, Bool, ◌||◌, ◌&&◌, not, ltb, ◌==◌, eq_str, trim_space,
  if◌then◌else◌,
}
use integration_nfeio.Config.{Config}
use integration_nfeio.Http.{Net, Result, ok, err, World, M, message, after}
use integration_nfeio.Subscription.{EnsureInput, DestroyOutput}
use integration_nfeio.Subscription.Remove.{destroy_webhook_subscription}

-- A character that `providerText` drops: a control character, a backslash or a double quote.
unfoldable pub is_unsafe : ℕ → Bool
is_unsafe c = ltb c 0x20 || c == 0x7f || c == 92 || c == 34

-- `strings.Map` with that test.
unfoldable pub cleaned : String → String
unfolding is_unsafe
cleaned String.[] = ""
cleaned (String.◌∷◌ c s) = if is_unsafe (code c) then cleaned s else String.◌∷◌ c (cleaned s)

-- The number of runes, and the first of them.
unfoldable pub rune_count : String → ℕ
rune_count String.[] = 0
rune_count (String.◌∷◌ c s) = suc (rune_count s)

unfoldable pub take_runes : ℕ → String → String
take_runes zero s = ""
take_runes (suc n) String.[] = ""
take_runes (suc n) (String.◌∷◌ c s) = String.◌∷◌ c (take_runes n s)

abbrev pub max_provider_text_runes : ℕ
max_provider_text_runes = 200

-- `providerText`.
unfoldable pub provider_text : String → String
unfolding cleaned rune_count take_runes
provider_text s =
    let text = trim_space (cleaned s) in
    if ltb max_provider_text_runes (rune_count text)
    then take_runes max_provider_text_runes text <> "..."
    else text

abbrev pub forget : {S : Type 0} → DestroyOutput → M S (Unit {0})
forget out w = (ok tt, w)

-- `webhookSubReconciler.DestroyWithDesired`.
unfoldable pub destroy_with_desired :
    {S : Type 0} → Net S → Config → String → String → EnsureInput → M S (Unit {0})
destroy_with_desired net cfg op ref desired w =
    let done = after forget (
      destroy_webhook_subscription net cfg op (record { id = ref; confirm_id = desired.confirm_id })
        w) in
    if not (eq_str desired.ref "") && not (eq_str desired.ref ref)
    then (err (message "destroy_webhook_subscription: ref mismatch"), w)
    else if not (eq_str desired.id "") && not (eq_str desired.id ref)
    then (err (message "destroy_webhook_subscription: id mismatch"), w)
    else done
