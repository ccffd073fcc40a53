-- ===== src/Payment/Service/Saving.antt =====
-- What the parts of `_save_payment_with_security_event` write: a version, and its security event.
pub mod Atomic
use policy_pilot.Prelude.Text.{Text}
use policy_pilot.Prelude.{Option}
use policy_pilot.Payment.Model.{PaymentAction, Subject, Details, Payment}
use policy_pilot.Payment.Storage.{VersionedPayment}
use policy_pilot.Payment.Events.{SecurityEventDocument}
use policy_pilot.Payment.Platform.{ledger, Platform}
use policy_pilot.Ledger.Saving

abbrev pub event_key : SecurityEventDocument → Text
event_key d = d.document_id

module _ (P : Platform) where
  -- A first version has been inserted.
  abbrev pub IsCreated : Payment → P.Payments.Data → VersionedPayment → P.Payments.Data → Type 0
  IsCreated = Saving.IsCreated (ledger P)

  -- The open version has been closed, and the payment added as the next one.
  abbrev pub IsAppended : Payment → P.Payments.Data → VersionedPayment → P.Payments.Data → Type 0
  IsAppended = Saving.IsAppended (ledger P)

  -- The matching security event has been added, unless the subject's are not recorded.
  abbrev pub IsRecorded :
      PaymentAction → Subject → Details → VersionedPayment → P.Events.Data → P.Events.Data → Type 0
  IsRecorded = Saving.IsRecorded (ledger P)
