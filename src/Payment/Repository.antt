-- ===== src/Payment/Repository.antt =====
-- ps/repository.py: the payments collection, as an instance of the common code.
pub mod Versions
use policy_pilot.Prelude.{
  ℕ, ◌≡◌, refl, String, Bool, true, false, not, Option, none, some, List, [], ◌∷◌, ◌&&◌,
  if◌then◌else◌, ◌==◌, str_eq, is_blank, select,
}
use policy_pilot.Prelude.Text.{Text, same}
use policy_pilot.Prelude.Exec.{Exec, pure, ◌>>=◌, ◌>>◌}
use policy_pilot.Mongo.{Collection}
use policy_pilot.Versioned
use policy_pilot.Payment.Model.{Time, Payment, cancelled, status_eq}
use policy_pilot.Payment.Errors.{Error, payment_not_found, concurrent_modification, mongo_error}
use policy_pilot.Payment.Iso.{iso_eq, format_timestamp, text_order}
use policy_pilot.Payment.Storage.{
  VersionedPayment, Out, payment_current_out, closed_out, PaymentDocument,
  versioned_payment_to_document, document_to_versioned_payment, document_to_versioned_payment_lem,
}
use policy_pilot.Payment.Storage.Keys.{
  payment_document_key, payment_id_filter, payment_id_filter-payment_document_key,
  payment_document_key_injective,
}

-- `==` of two `out` strings
abbrev pub out_eq : Out → Out → Bool
out_eq payment_current_out payment_current_out = true
out_eq (closed_out s) (closed_out t) = iso_eq s t
out_eq _ _ = false

-- The version of a payment that is open since a time.
abbrev pub open_version : Payment → ℕ → Time → VersionedPayment
open_version p n now = record { payment = p; version_number = n; valid_in = now; valid_out = none }

abbrev pub payment_rows : Versioned.Rows
payment_rows = record {
  Item = Payment;
  Document = PaymentDocument;
  Version = VersionedPayment;
  Error = Error;
  document_id = λ d. d.document_id;
  version_number = λ d. d.version_number;
  is_open = λ d. out_eq d.record_out payment_current_out;
  close_at = λ now d. record d { record_out = closed_out (format_timestamp now) };
  id_of = λ p. p.payment_id;
  touch = λ now p. record p { updated_at = now };
  to_document = versioned_payment_to_document;
  to_version = document_to_versioned_payment;
  open_version = open_version;
  key = payment_document_key;
  id_filter = payment_id_filter;
  not_found = payment_not_found;
  concurrent_modification = concurrent_modification;
  mongo_error = mongo_error;
}

pub payment_rows-IsVersioned : Versioned.IsVersioned payment_rows
unfolding versioned_payment_to_document
payment_rows-IsVersioned = record {
  new_id = λ p n now. refl;
  new_number = λ p n now. refl;
  new_open = λ p n now. refl;
  new_version = document_to_versioned_payment_lem;
  close_id = λ now d. refl;
  close_number = λ now d. refl;
  close_shut = λ now d. refl;
  touch_id = λ now p. refl;
  filter_key = payment_id_filter-payment_document_key;
  key_injective = payment_document_key_injective;
}

abbrev pub is_current_of : Text → PaymentDocument → Bool
is_current_of = Versioned.is_current_of payment_rows

-- The filters of `list_current`; an empty or missing value does not filter.
abbrev pub asks : Option String → String → Bool
asks none value = true
asks (some wanted) value = if is_blank wanted then true else str_eq value wanted

-- The filter on `instruction_id`.
abbrev pub asks_id : Option Text → Text → Bool
asks_id none value = true
asks_id (some []) value = true
asks_id (some (c ∷ cs)) value = same value (c ∷ cs)

pub record Query : Type 0 where
  pub instruction_id : Option Text
  pub status : Option String
  pub owning_lob : Option String
  pub created_by_user_id : Option String
  pub limit : ℕ
  pub include_cancelled : Bool

abbrev pub list_current_query : Query → PaymentDocument → Bool
list_current_query q d =
    out_eq d.record_out payment_current_out
    && (asks_id q.instruction_id d.instruction_id
        && (asks q.status d.status
            && (asks q.owning_lob d.owning_lob
                && asks q.created_by_user_id d.payload.created_by.user_id)))

abbrev pub is_not_cancelled : VersionedPayment → Bool
is_not_cancelled record_ = not (status_eq record_.payment.status cancelled)

module _ (C : Collection PaymentDocument) where
  abbrev pub insert_initial : Payment → Time → Exec Error C.Data VersionedPayment
  insert_initial = Versioned.insert_initial payment_rows C

  abbrev pub append_version : Payment → Time → Exec Error C.Data VersionedPayment
  append_version = Versioned.append_version payment_rows C

  abbrev pub get_current : Text → Exec Error C.Data VersionedPayment
  get_current = Versioned.get_current payment_rows C

  unfoldable pub list_current : Query → Exec Error C.Data (List VersionedPayment)
  list_current q = do
    found ←
        Versioned.reading payment_rows C
          (C.find_newest (list_current_query q) (λ d. text_order d.record_in) q.limit)
    let records = Versioned.convert payment_rows found
    pure (if q.include_cancelled then records else select is_not_cancelled records)

  abbrev pub list_versions : Text → Exec Error C.Data (List VersionedPayment)
  list_versions = Versioned.list_versions payment_rows C
