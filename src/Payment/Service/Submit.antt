-- ===== src/Payment/Service/Submit.antt =====
-- `PaymentService.submit`: the saga that marks a SINGLE_USE instruction as used first.
use policy_pilot.Prelude.{String, Bool, true, false, not, Option, none, some, if◌then◌else◌}
use policy_pilot.Prelude.Text.{Text}
use policy_pilot.Prelude.Exec.{Result, ok, err, pure, raise, raise_if, ◌>>=◌, ◌>>◌}
use policy_pilot.Payment.Model.{
  Time, draft, submitted, status_eq, submit, Subject, Details, no_details, Payment, user_ref,
}
use policy_pilot.Payment.Errors.{
  Error, value_error, runtime_error, invalid_state_transition, instruction_state,
}
use policy_pilot.Payment.Authorization.{details_with_authorization}
use policy_pilot.Payment.Storage.{VersionedPayment}
use policy_pilot.Payment.Repository.{Query, list_current}
use policy_pilot.Payment.Events.{text}
use policy_pilot.Payment.Instruction.{InstructionJson, version_or}
use policy_pilot.Payment.Guards.{
  status_of, end_date_of, validate_instruction_approved_for_submit,
  validate_single_use_submit_exclusivity,
}
use policy_pilot.Payment.Platform.{attempt, Credentials, Platform, Svc, ask, on_payments}
use policy_pilot.Payment.Client.{get_instruction, mark_used}
use policy_pilot.Payment.Platform.{check}
use policy_pilot.Payment.Service.{
  authorize, persist_authorized, link_audit_execution, get_current_or_404,
  should_record_security_event, record_policy_denial, when, is_single_use,
}
use policy_pilot.Payment.Service.Update.{get_backing}

abbrev pub exclusivity_query : Payment → Query
exclusivity_query p = record {
  instruction_id = some p.instruction_id;
  status = none;
  owning_lob = none;
  created_by_user_id = none;
  limit = 100;
  include_cancelled = false;
}

-- The two `except` clauses round `mark_used`: the denial's reason, and the error raised.
abbrev pub is_state_error : Error → Bool
is_state_error (instruction_state id) = true
is_state_error _ = false

abbrev pub saga_reason : Error → String
saga_reason e =
    if is_state_error e
    then "Saga step failed — instruction cannot be marked USED"
    else "Saga step failed — instruction-service unreachable"

abbrev pub saga_error : Error → Error
saga_error e =
    if is_state_error e
    then value_error "instruction cannot be marked USED"
    else runtime_error "Could not mark instruction as USED before submitting payment"

abbrev pub saga_details : Details
saga_details = record no_details { saga_step = some "mark_used" }

module _ (P : Platform) where
  unfoldable pub check_exclusivity : Payment → Svc P (Unit {0})
  check_exclusivity p = when P (is_single_use p) do
    associated ← on_payments P (list_current P.Payments (exclusivity_query p))
    check P (validate_single_use_submit_exclusivity p associated)

  -- A failed saga step is recorded as a denial, and raised.
  unfoldable pub saga_failed : Payment → Subject → Error → Svc P (Unit {0})
  saga_failed p subject e = do
    when P (should_record_security_event P subject)
        (record_policy_denial P submit subject p (text (saga_reason e)) (some saga_details))
    raise (saga_error e)

  abbrev pub after_mark : Payment → Subject → Result Error InstructionJson → Svc P (Unit {0})
  after_mark p subject (ok j) = pure tt
  after_mark p subject (err e) = saga_failed p subject e

  -- The saga step: mark the instruction as used, and take its new version.
  unfoldable pub mark_instruction_used : Payment → Subject → Credentials → Svc P Payment
  mark_instruction_used p subject creds = do
    marked ← attempt P (mark_used P p.instruction_id p.payment_id creds)
    after_mark p subject marked
    instruction ← get_instruction P p.instruction_id creds
    pure (record p { instruction_version = version_or 1 instruction.version_number })

  abbrev pub saga : Bool → Payment → Subject → Credentials → Svc P Payment
  saga false p subject creds = pure p
  saga true p subject creds = mark_instruction_used p subject creds

  abbrev pub as_submitted : Payment → Subject → Time → Payment
  as_submitted p subject now = record p {
    status = submitted;
    submitted_by = some (user_ref subject);
    submitted_at = some now;
    updated_at = now;
  }

  unfoldable pub submit_body :
      VersionedPayment → Subject → Credentials → Option String → Svc P VersionedPayment
  submit_body current subject creds audit_execution_id = do
    let p = current.payment
    raise_if (not (status_eq p.status draft))
        (invalid_state_transition "only DRAFT payments can be submitted")
    instruction ← get_backing P p.instruction_id creds
    checked_at ← ask P P.now
    check P (validate_instruction_approved_for_submit P.fromisoformat checked_at instruction)
    check_exclusivity p
    let versioned = record p { instruction_version = version_or 1 instruction.version_number }
    block ←
        authorize P submit subject versioned (end_date_of instruction) (status_of instruction) creds
    marked ← saga (is_single_use versioned) versioned subject creds
    now ← ask P P.now
    saved ←
        persist_authorized P (as_submitted marked subject now) submit subject
          (details_with_authorization none block)
    link_audit_execution P audit_execution_id saved.1 saved.0.payment.payment_id subject
    pure saved.0

  unfoldable pub submit_op : Text → Subject → Credentials → Option String → Svc P VersionedPayment
  submit_op payment_id subject creds audit_execution_id = do
    current ← get_current_or_404 P payment_id
    submit_body current subject creds audit_execution_id
