-- ===== src/Payment/Service/Cancel.antt =====
-- `PaymentService.cancel`, and `_cancel`, by which an approval that finds its instruction invalid ends.
use policy_pilot.Prelude.{String, not, Option, none, some, ◌||◌, if◌then◌else◌, is_blank}
use policy_pilot.Prelude.Text.{Text}
use policy_pilot.Prelude.Exec.{pure, raise_if, ◌>>=◌, ◌>>◌}
use policy_pilot.Payment.Model.{
  Time, draft, submitted, cancelled, status_eq, cancel, Subject, Details, no_details, Payment,
  user_ref,
}
use policy_pilot.Payment.Errors.{invalid_state_transition}
use policy_pilot.Payment.Authorization.{details_with_authorization}
use policy_pilot.Payment.Storage.{VersionedPayment}
use policy_pilot.Payment.Guards.{status_of, end_date_of}
use policy_pilot.Payment.Platform.{Credentials, Platform, Svc, ask}
use policy_pilot.Payment.Service.{
  authorize, persist_authorized, link_audit_execution, try_release_single_use_instruction,
  get_current_or_404,
}
use policy_pilot.Payment.Service.Update.{get_backing}

abbrev pub reason_details : String → Details
reason_details reason = record no_details { reason = some reason }

-- `{"reason": request.reason} if request and request.reason else None`
abbrev pub optional_reason : Option String → Option Details
optional_reason none = none
optional_reason (some reason) = if is_blank reason then none else some (reason_details reason)

-- `request.reason if request and request.reason else None`
abbrev pub given_reason : Option String → Option String
given_reason none = none
given_reason (some reason) = if is_blank reason then none else some reason

abbrev pub as_cancelled : Payment → Subject → Option String → Time → Payment
as_cancelled p subject reason now = record p {
  status = cancelled;
  cancelled_by = some (user_ref subject);
  cancellation_reason = reason;
  cancelled_at = some now;
  updated_at = now;
}

module _ (P : Platform) where
  unfoldable pub cancel_body :
      VersionedPayment
      → Subject
      → Option String
      → Credentials
      → Option String
      → Svc P VersionedPayment
  cancel_body current subject reason creds audit_execution_id = do
    let p = current.payment
    raise_if (status_eq p.status cancelled)
        (invalid_state_transition "payment is already cancelled")
    raise_if (not (status_eq p.status draft || status_eq p.status submitted))
        (invalid_state_transition "only DRAFT or SUBMITTED payments can be cancelled")
    instruction ← get_backing P p.instruction_id creds
    block ← authorize P cancel subject p (end_date_of instruction) (status_of instruction) creds
    now ← ask P P.now
    saved ←
        persist_authorized P (as_cancelled p subject (given_reason reason) now) cancel subject
          (details_with_authorization (optional_reason reason) block)
    link_audit_execution P audit_execution_id saved.1 saved.0.payment.payment_id subject
    try_release_single_use_instruction P saved.0.payment creds
    pure saved.0

  unfoldable pub cancel_op :
      Text → Subject → Option String → Credentials → Option String → Svc P VersionedPayment
  cancel_op payment_id subject reason creds audit_execution_id = do
    current ← get_current_or_404 P payment_id
    cancel_body current subject reason creds audit_execution_id

  abbrev pub no_credentials : Credentials
  no_credentials = record { bearer_token = none; session_id = none }

  -- `_cancel`
  unfoldable pub cancel_invalid :
      Payment → Subject → String → Option String → Svc P VersionedPayment
  cancel_invalid p subject reason audit_execution_id = do
    now ← ask P P.now
    saved ←
        persist_authorized P (as_cancelled p subject (some reason) now) cancel subject
          (reason_details reason)
    link_audit_execution P audit_execution_id saved.1 saved.0.payment.payment_id subject
    try_release_single_use_instruction P saved.0.payment no_credentials
    pure saved.0
