-- ===== src/Invoice/Cancel.antt =====
-- `CancelNFSe` of adapter.go, and the destroy operation of `serviceInvoiceReconciler` of
-- reconcilers.go.
pub mod Confirmed
use integration_nfeio.Base.{String, ◌<>◌, Bool, Option, none, List, [], ◌∷◌, eq_str, if◌then◌else◌}
use integration_nfeio.Json.{Json, Decoder, Decoded, decode_struct, store, read_string}
use integration_nfeio.Config.{Config}
use integration_nfeio.Http.{
  put_method, Net, cancellation_pending, message, Result, ok, err, World, M, after,
}
use integration_nfeio.Client.{into, do_request}
use integration_nfeio.Invoice.{Selection, CancelOutput, invoice_path, with_company}

-- The part of the answer that is read.
pub record Cancellation : Type 0 where
  pub status : String
  pub flow_message : String

abbrev pub no_cancellation : Cancellation
no_cancellation = record { status = ""; flow_message = "" }

abbrev cancellation_fields : List String
cancellation_fields = "status" ∷ "flowMessage" ∷ []

abbrev set_cancellation : String → Json → Cancellation → Decoded Cancellation
set_cancellation n v x =
    if eq_str n "status"
    then store (read_string v) (λ s. record x { status = s }) x
    else store (read_string v) (λ s. record x { flow_message = s }) x

unfoldable pub decode_cancellation : Decoder Cancellation
unfolding decode_struct
decode_cancellation = decode_struct cancellation_fields set_cancellation

abbrev pub cancel_path : String → String → String
cancel_path company invoice = invoice_path company invoice <> "/cancel"

abbrev pub cancel_output : Cancellation → CancelOutput
cancel_output raw = record {
  cancelled = eq_str raw.status "Cancelled";
  status = raw.status;
  flow_message = raw.flow_message;
}

abbrev pub read_cancellation : {S : Type 0} → Cancellation → M S CancelOutput
read_cancellation raw w = (ok (cancel_output raw), w)

-- What a cancellation comes to for the caller that destroys.
abbrev pub confirm : {S : Type 0} → String → CancelOutput → M S (Unit {0})
confirm ref out w =
    if out.cancelled
    then (ok tt, w)
    else (err (cancellation_pending ref out.status out.flow_message), w)

module _ {S : Type 0} (net : Net S) (cfg : Config) (op : String) where
  abbrev pub put_cancel : Selection → String → M S CancelOutput
  put_cancel in' company w = after read_cancellation (
      do_request net cfg op put_method (cancel_path company in'.invoice_id) none
        (into decode_cancellation no_cancellation) w)

  -- `CancelNFSe`.
  unfoldable pub cancel_nfse : Selection → M S CancelOutput
  cancel_nfse in' w = with_company cfg in'.company_id (put_cancel in') w

  -- `serviceInvoiceReconciler.DestroyWithDesired`; of the desired input only the company is read.
  unfoldable pub destroy_service_invoice : String → String → M S (Unit {0})
  unfolding cancel_nfse
  destroy_service_invoice ref company_id w =
      if eq_str ref ""
      then (err (message "destroy_service_invoice: ref (invoice_id) required"), w)
      else after (confirm ref)
          (cancel_nfse (record { company_id = company_id; invoice_id = ref }) w)
