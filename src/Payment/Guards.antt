-- ===== src/Payment/Guards.antt =====
-- ps/service.py: the checks of the backing instruction, and of the other payments against it.
pub mod Approval
use policy_pilot.Prelude.{
  ℕ, String, Bool, true, false, not, Option, none, some, List, ◌&&◌, ◌||◌, ◌==◌, ltb, str_eq,
  if◌then◌else◌, is_one_of, or_empty, is_blank, count_if,
}
use policy_pilot.Prelude.Exec.{Result, ok, err}
use policy_pilot.Payment.Model.{Time, PaymentStatus, draft, submitted, status_eq, Payment}
use policy_pilot.Payment.Errors.{Error, value_error}
use policy_pilot.Payment.Storage.{VersionedPayment}
use policy_pilot.Payment.Instruction.{InstructionJson, version_or}
use policy_pilot.Payment.Moment.{Moment, drop_tzinfo, is_before, is_after}

abbrev pub status_of : InstructionJson → String
status_of i = or_empty i.status

abbrev pub end_date_of : InstructionJson → String
end_date_of i = or_empty i.end_date

abbrev pub is_approved_status : String → Bool
is_approved_status status = str_eq status "APPROVED"

abbrev pub is_draft_backing_status : String → Bool
is_draft_backing_status status =
    str_eq status "DRAFT" || (str_eq status "SUBMITTED" || str_eq status "APPROVED")

abbrev pub is_active : VersionedPayment → Bool
is_active r = status_eq r.payment.status draft || status_eq r.payment.status submitted

-- `_validate_single_use_submit_exclusivity`
unfoldable pub validate_single_use_submit_exclusivity :
    Payment → List VersionedPayment → Result Error (Unit {0})
validate_single_use_submit_exclusivity p associated =
    if not (str_eq p.instruction_type "SINGLE_USE")
    then ok tt
    else if ltb 1 (count_if is_active associated)
    then err (value_error "cannot submit payment for SINGLE_USE instruction")
    else ok tt

module _ (fromisoformat : String → Option Moment) (now : Time) where
  -- `_validate_instruction_not_expired`: the parsed time is compared without its offset.
  unfoldable pub validate_instruction_not_expired : InstructionJson → Result Error (Unit {0})
  validate_instruction_not_expired i =
      if is_blank (end_date_of i) then ok tt else elim (fromisoformat (end_date_of i)) [
        | none ↦ err (value_error "invalid isoformat string")
        | some end_dt ↦
            if ltb (drop_tzinfo end_dt) now
            then err (value_error "instruction has expired")
            else ok tt
      ]

  -- `_validate_instruction_for_draft_payment`, which `_validate_instruction_at_create` is too
  unfoldable pub validate_instruction_for_draft_payment : InstructionJson → Result Error (Unit {0})
  validate_instruction_for_draft_payment i =
      if not (is_draft_backing_status (status_of i))
      then err (value_error "instruction is not in a usable state for drafting a payment")
      else validate_instruction_not_expired i

  -- `_validate_instruction_approved_for_submit`
  unfoldable pub validate_instruction_approved_for_submit :
      InstructionJson → Result Error (Unit {0})
  validate_instruction_approved_for_submit i =
      if not (is_approved_status (status_of i))
      then err (value_error "instruction must be APPROVED before a payment can be submitted")
      else validate_instruction_not_expired i
