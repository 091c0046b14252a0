-- ===== src/Examples/Envelopes.antt =====
-- Execute envelopes on concrete data.
use integration_nfeio.Base.{
  AllChars, String, Bool, none, some, List, [], ◌∷◌, ◌≤◌, ◌⊎◌, ◌≡◌, refl, trim_space,
}
use integration_nfeio.Http.{Reply, World}
use integration_nfeio.Subscription.{EnsureInput}
use integration_nfeio.Subscription.Input.{empty_ensure_input}
use integration_nfeio.Subscription.Remove.Guarded.{IsDeleted}
use integration_nfeio.Reconcile.{rune_count, provider_text, destroy_with_desired}
use integration_nfeio.Reconcile.Safe.{IsSafe, provider_text-IsSafe}
use integration_nfeio.Reconcile.Matched.{destroy_with_desired-IsDeleted}
use integration_nfeio.Examples.{scripted, reply, settings, at_start}
use integration_nfeio.Json.{Fields, end, field, obj, str, get}
use integration_nfeio.Envelope.{with_envelope_instance, with_service_invoice_destroy_ref}
use integration_nfeio.Envelope.Lifted.{IsLifted, with_envelope_instance-IsLifted}
use integration_nfeio.Envelope.Referred.{IsReferred, with_ref-IsReferred}

abbrev envelope : Fields
envelope = field "operation" (str " destroy_service_invoice ") (
    field "input" (obj (field "invoice_id" (str "i1") end))
      (field "integration" (obj (field "instance" (obj (field "name" (str "prod") end)) end)) end))

abbrev referred : Fields
referred = field "operation" (str " destroy_service_invoice ") (
    field "input" (obj (field "invoice_id" (str "i1") (field "ref" (str "i1") end)))
      (field "integration" (obj (field "instance" (obj (field "name" (str "prod") end)) end)) end))

with_envelope_instance-IsLifted_example : IsLifted envelope (with_envelope_instance envelope)
with_envelope_instance-IsLifted_example = with_envelope_instance-IsLifted envelope

with_ref-IsReferred_example : IsReferred envelope referred
unfolding with_service_invoice_destroy_ref trim_space
with_ref-IsReferred_example = with_ref-IsReferred envelope {env' = referred} refl

named : get "instance_id" (with_envelope_instance envelope).env ≡ some (str "prod")
unfolding with_envelope_instance trim_space
named = refl

provider_text-IsSafe_example :
    AllChars IsSafe (provider_text " a\"b ") × (rune_count (provider_text " a\"b ") ≤ 203)
provider_text-IsSafe_example = provider_text-IsSafe " a\"b "

abbrev desired : EnsureInput
desired = record empty_ensure_input { id = "wh_1"; confirm_id = "wh_1" }

abbrev deleting : World (List Reply)
deleting = at_start (reply 204 "" none ∷ [])

destroy_with_desired-IsDeleted_example :
    ((◌≡◌ {A = String} "" "") ⊎ (◌≡◌ {A = String} "" "wh_1"))
    × ((◌≡◌ {A = String} "wh_1" "") ⊎ (◌≡◌ {A = String} "wh_1" "wh_1"))
    × (◌≡◌ {A = String} "wh_1" "wh_1")
    × ((already_absent : Bool) × IsDeleted scripted settings "op" "wh_1" already_absent
          (destroy_with_desired scripted settings "op" "wh_1" desired deleting).1)
unfolding destroy_with_desired integration_nfeio.Subscription.Remove.destroy_webhook_subscription
    integration_nfeio.Subscription.valid_webhook_id integration_nfeio.Base.byte_len trim_space
    integration_nfeio.Client.do_request
destroy_with_desired-IsDeleted_example =
    destroy_with_desired-IsDeleted scripted settings "op" "wh_1" desired deleting refl
