-- ===== src/Payment/Service/Reject.antt =====
-- `PaymentService.reject`.
use policy_pilot.Prelude.{String, not, Option, some}
use policy_pilot.Prelude.Text.{Text}
use policy_pilot.Prelude.Exec.{pure, raise_if, ◌>>=◌, ◌>>◌}
use policy_pilot.Payment.Model.{
  Time, submitted, rejected, status_eq, reject, Subject, Payment, user_ref,
}
use policy_pilot.Payment.Errors.{invalid_state_transition}
use policy_pilot.Payment.Storage.{VersionedPayment}
use policy_pilot.Payment.Guards.{status_of, end_date_of}
use policy_pilot.Payment.Platform.{Credentials, Platform, Svc, ask}
use policy_pilot.Payment.Service.{
  persist_new_version, link_audit_execution, try_release_single_use_instruction, get_current_or_404,
}
use policy_pilot.Payment.Service.Update.{get_backing}
use policy_pilot.Payment.Service.Cancel.{reason_details}

abbrev pub as_rejected : Payment → Subject → String → Time → Payment
as_rejected p subject reason now = record p {
  status = rejected;
  rejected_by = some (user_ref subject);
  rejection_reason = some reason;
  rejected_at = some now;
  updated_at = now;
}

module _ (P : Platform) where
  unfoldable pub reject_body :
      VersionedPayment → Subject → String → Credentials → Option String → Svc P VersionedPayment
  reject_body current subject reason creds audit_execution_id = do
    let p = current.payment
    raise_if (not (status_eq p.status submitted))
        (invalid_state_transition "only SUBMITTED payments can be rejected")
    instruction ← get_backing P p.instruction_id creds
    now ← ask P P.now
    saved ←
        persist_new_version P (as_rejected p subject reason now) reject subject
          (some (reason_details reason)) (end_date_of instruction) (status_of instruction) creds
    link_audit_execution P audit_execution_id saved.1 saved.0.payment.payment_id subject
    try_release_single_use_instruction P saved.0.payment creds
    pure saved.0

  unfoldable pub reject_op :
      Text → Subject → String → Credentials → Option String → Svc P VersionedPayment
  reject_op payment_id subject reason creds audit_execution_id = do
    current ← get_current_or_404 P payment_id
    reject_body current subject reason creds audit_execution_id
