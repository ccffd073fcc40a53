-- ===== src/Payment/Storage.antt =====
-- ps/storage.py: a version of a payment as a document. The payload is the payment without its
-- identifier; pydantic's dump and validation of it are taken as exact.
pub mod Keys
use policy_pilot.Prelude.{ℕ, String, ◌≡◌, refl, Option, none, some, List, []}
use policy_pilot.Prelude.Text.{Text}
use policy_pilot.Payment.Model.{Time, Payment, status_value}
use policy_pilot.Payment.Iso.{IsoText, format_timestamp, parse_timestamp}
use policy_pilot.Payment.Storage.Keys.{
  payment_document_key, payment_id_from_document_key,
  payment_id_from_document_key-payment_document_key,
}

pub record VersionedPayment : Type 0 where
  pub payment : Payment
  pub version_number : ℕ
  pub valid_in : Time
  pub valid_out : Option Time

-- The `out` field: the sentinel PAYMENT_CURRENT_OUT, or the text of the time at which the version was closed.
pub data Out : Type 0 where
  payment_current_out : Out
  closed_out : IsoText → Out

pub record PaymentDocument : Type 0 where
  pub document_id : Text
  pub version_number : ℕ
  pub record_in : IsoText
  pub record_out : Out
  pub status : String
  pub owning_lob : String
  pub instruction_id : Text
  pub payload : Payment

unfoldable pub payload_without_payment_id : Payment → Payment
payload_without_payment_id p = record p { payment_id = [] }

-- `valid_out` is left to its default: both callers write the current version.
unfoldable pub versioned_payment_to_document : Payment → ℕ → Time → PaymentDocument
unfolding payload_without_payment_id
versioned_payment_to_document p version_number valid_in = record {
  document_id = payment_document_key p.payment_id version_number;
  version_number = version_number;
  record_in = format_timestamp valid_in;
  record_out = payment_current_out;
  status = status_value p.status;
  owning_lob = p.owning_lob;
  instruction_id = p.instruction_id;
  payload = payload_without_payment_id p;
}

abbrev pub parse_out : Out → Option Time
parse_out payment_current_out = none
parse_out (closed_out t) = some (parse_timestamp t)

-- The stored `in` is a text, so that `payment.created_at` never stands in for it.
unfoldable pub document_to_versioned_payment : PaymentDocument → VersionedPayment
document_to_versioned_payment d = record {
  payment = record d.payload { payment_id = payment_id_from_document_key d.document_id };
  version_number = d.version_number;
  valid_in = parse_timestamp d.record_in;
  valid_out = parse_out d.record_out;
}

-- Reading back a stored version gives the payment, its identifier included, as an open version.
pub document_to_versioned_payment_lem :
    (p : Payment) (n : ℕ) (now : Time)
    → document_to_versioned_payment (versioned_payment_to_document p n now)
      ≡ record { payment = p; version_number = n; valid_in = now; valid_out = none }
unfolding document_to_versioned_payment versioned_payment_to_document
document_to_versioned_payment_lem p n now =
    rw (payment_id_from_document_key-payment_document_key p.payment_id n)
