-- ===== src/Payment/Service/Approve.antt =====
-- `PaymentService.approve`.
use policy_pilot.Prelude.{String, Bool, true, false, not, Option, none, some, if◌then◌else◌}
use policy_pilot.Prelude.Text.{Text}
use policy_pilot.Prelude.Exec.{Result, ok, err, pure, raise, raise_if, ◌>>=◌, ◌>>◌}
use policy_pilot.Payment.Model.{
  Time, submitted, approved, status_eq, approve, Subject, Payment, user_ref,
}
use policy_pilot.Payment.Errors.{Error, invalid_state_transition, instruction_not_found}
use policy_pilot.Payment.Storage.{VersionedPayment}
use policy_pilot.Payment.Instruction.{InstructionJson}
use policy_pilot.Payment.Guards.{status_of, end_date_of}
use policy_pilot.Payment.Guards.Approval.{Invalid, check_instruction_validity_for_approval}
use policy_pilot.Payment.Platform.{attempt, Credentials, Platform, Svc, ask}
use policy_pilot.Payment.Client.{get_instruction}
use policy_pilot.Payment.Service.{persist_new_version, link_audit_execution, get_current_or_404}
use policy_pilot.Payment.Service.Cancel.{cancel_invalid}
use policy_pilot.Payment.Guards.Approval.{
  modified, not_approvable, expired, bad_end_date, not_effective, bad_effective_date, type_changed,
}

-- The fixed words of each reason.
abbrev pub invalid_text : Invalid → String
invalid_text modified = "instruction was modified after payment creation"
invalid_text not_approvable = "instruction is no longer in an approvable state"
invalid_text expired = "instruction has expired"
invalid_text bad_end_date = "instruction has an unparseable end_date value"
invalid_text not_effective = "instruction is not yet effective"
invalid_text bad_effective_date = "instruction has an unparseable effective_date value"
invalid_text type_changed = "instruction type changed since payment creation"

abbrev pub as_approved : Payment → Subject → Time → Payment
as_approved p subject now = record p {
  status = approved;
  approved_by = some (user_ref subject);
  approved_at = some now;
  updated_at = now;
}

module _ (P : Platform) where
  -- The rest of `approve`, when the instruction is valid.
  unfoldable pub approve_valid :
      Payment → InstructionJson → Subject → Credentials → Option String → Svc P VersionedPayment
  approve_valid p instruction subject creds audit_execution_id = do
    now ← ask P P.now
    saved ←
        persist_new_version P (as_approved p subject now) approve subject none
          (end_date_of instruction) (status_of instruction) creds
    link_audit_execution P audit_execution_id saved.1 saved.0.payment.payment_id subject
    pure saved.0

  abbrev pub approve_or_cancel :
      Option Invalid
      → Payment
      → InstructionJson
      → Subject
      → Credentials
      → Option String
      → Svc P VersionedPayment
  approve_or_cancel none p instruction subject creds audit_execution_id =
      approve_valid p instruction subject creds audit_execution_id
  approve_or_cancel (some reason) p instruction subject creds audit_execution_id =
      cancel_invalid P p subject (invalid_text reason) audit_execution_id

  unfoldable pub approve_checked :
      Payment → InstructionJson → Subject → Credentials → Option String → Svc P VersionedPayment
  approve_checked p instruction subject creds audit_execution_id = do
    now ← ask P P.now
    approve_or_cancel (check_instruction_validity_for_approval P.fromisoformat now p instruction) p
        instruction subject creds audit_execution_id

  abbrev pub is_not_found : Error → Bool
  is_not_found (instruction_not_found id) = true
  is_not_found _ = false

  -- The instruction, or what its read raised.
  unfoldable pub approve_fetched :
      Payment
      → Result Error InstructionJson
      → Subject
      → Credentials
      → Option String
      → Svc P VersionedPayment
  approve_fetched p (ok instruction) subject creds audit_execution_id =
      approve_checked p instruction subject creds audit_execution_id
  approve_fetched p (err e) subject creds audit_execution_id =
      if is_not_found e
      then cancel_invalid P p subject "backing instruction could not be found at approval time"
          audit_execution_id
      else raise e

  unfoldable pub approve_body :
      VersionedPayment → Subject → Credentials → Option String → Svc P VersionedPayment
  approve_body current subject creds audit_execution_id = do
    raise_if (not (status_eq current.payment.status submitted))
        (invalid_state_transition "only SUBMITTED payments can be approved")
    fetched ← attempt P (get_instruction P current.payment.instruction_id creds)
    approve_fetched current.payment fetched subject creds audit_execution_id

  unfoldable pub approve_op : Text → Subject → Credentials → Option String → Svc P VersionedPayment
  approve_op payment_id subject creds audit_execution_id = do
    current ← get_current_or_404 P payment_id
    approve_body current subject creds audit_execution_id
