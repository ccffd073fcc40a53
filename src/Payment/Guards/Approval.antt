-- ===== src/Payment/Guards/Approval.antt =====
-- `_check_instruction_validity_for_approval`: the first reason against approving, if there is one.
pub mod Payable
use policy_pilot.Prelude.{
  String, Bool, not, Option, none, some, ◌&&◌, ◌||◌, ◌==◌, str_eq, if◌then◌else◌, or_empty,
  is_blank,
}
use policy_pilot.Payment.Model.{Time, Payment}
use policy_pilot.Payment.Instruction.{InstructionJson, version_or}
use policy_pilot.Payment.Moment.{Moment, is_before, is_after}

-- The texts of the reasons, by their kind.
pub data Invalid : Type 0 where
  modified not_approvable expired bad_end_date not_effective bad_effective_date type_changed :
      Invalid

abbrev pub is_backing_ok : Payment → InstructionJson → Bool
is_backing_ok p i =
    str_eq (or_empty i.status) "APPROVED"
    || (str_eq (or_empty i.status) "USED"
        && (str_eq p.instruction_type "SINGLE_USE"
            && str_eq (or_empty i.instruction_type) "SINGLE_USE"))

abbrev pub is_type_changed : Payment → InstructionJson → Bool
is_type_changed p i =
    not (is_blank (or_empty i.instruction_type))
    && (not (is_blank p.instruction_type)
        && not (str_eq (or_empty i.instruction_type) p.instruction_type))

module _ (fromisoformat : String → Option Moment) (now : Time) where
  -- the reason that the end date gives, or the later checks'
  abbrev pub end_date_reason : String → Option Invalid
  end_date_reason raw = if is_blank raw then none else elim (fromisoformat raw) [
    | none ↦ some bad_end_date
    | some end_dt ↦ if is_before end_dt now then some expired else none
  ]

  abbrev pub effective_date_reason : String → Option Invalid
  effective_date_reason raw = if is_blank raw then none else elim (fromisoformat raw) [
    | none ↦ some bad_effective_date
    | some eff_dt ↦ if is_after eff_dt now then some not_effective else none
  ]

  -- `a or b` on reasons
  abbrev pub or_reason : Option Invalid → Option Invalid → Option Invalid
  or_reason (some reason) later = some reason
  or_reason none later = later

  unfoldable pub check_instruction_validity_for_approval :
      Payment → InstructionJson → Option Invalid
  check_instruction_validity_for_approval p i =
      if not (version_or 0 i.version_number == p.instruction_version)
      then some modified
      else if not (is_backing_ok p i)
      then some not_approvable
      else or_reason (end_date_reason (or_empty i.end_date)) (
          or_reason (effective_date_reason (or_empty i.effective_date))
            (if is_type_changed p i then some type_changed else none))
