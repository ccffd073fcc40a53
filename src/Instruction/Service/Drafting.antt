-- ===== src/Instruction/Service/Drafting.antt =====
-- `InstructionService.create`, `update` and `cancel`.
use policy_pilot.Prelude.{
  String, true, false, not, Option, none, some, ◌||◌, if◌then◌else◌, is_blank,
}
use policy_pilot.Prelude.Text.{Text}
use policy_pilot.Prelude.Exec.{Result, ok, err, raise_if, or_raise, ◌>>=◌, ◌>>◌}
use policy_pilot.Payment.Moment.{drop_tzinfo, east}
use policy_pilot.Payment.Model.{Time, Subject, UserReference, user_ref}
use policy_pilot.Instruction.Route.{validate_route_rules, is_valid_owning_lob}
use policy_pilot.Instruction.Model.{
  InstructionStatus, draft, submitted, cancelled, status_eq, create, update, cancel, Details,
  no_details, CashSettlementInstruction, CreateInstructionRequest, instruction_of_request,
}
use policy_pilot.Instruction.Evidence.{details_with_authorization}
use policy_pilot.Instruction.Storage.{VersionedInstruction}
use policy_pilot.Instruction.Repository.{
  Error, runtime_error, value_error, invalid_state_transition, get_current,
}
use policy_pilot.Instruction.Platform.{Caller, Platform, Svc, ask, on_instructions}
use policy_pilot.Instruction.Service.{authorize, persist}

-- The validators of `CashSettlementInstruction`, of the owning profit centers and of the route.
unfoldable pub validate_instruction :
    CashSettlementInstruction → Result Error CashSettlementInstruction
validate_instruction i =
    if not (is_valid_owning_lob i.owning_lob)
      || not (is_valid_owning_lob i.route.funding_account.owning_lob)
    then err (value_error "owning_lob must be a P&L profit center: FICC, FX, or DESK_<name>")
    else elim (validate_route_rules i.owning_lob i.route) [
      | none ↦ ok i
      | some message ↦ err (value_error message)
    ]

-- What `update` keeps of the instruction that it replaces.
unfoldable pub keep_history :
    CashSettlementInstruction → CashSettlementInstruction → CashSettlementInstruction
keep_history updated i = record updated {
  lifecycle_events = i.lifecycle_events;
  created_at = i.created_at;
  submitted_at = i.submitted_at;
  approved_by = i.approved_by;
  approved_at = i.approved_at;
  rejected_by = i.rejected_by;
  rejected_at = i.rejected_at;
  rejection_reason = i.rejection_reason;
  cancelled_at = i.cancelled_at;
  suspended_by = i.suspended_by;
  suspended_at = i.suspended_at;
  last_used_at = i.last_used_at;
  usage_count = i.usage_count;
  used_by = i.used_by;
}

-- `now` carries the offset of UTC.
abbrev pub as_cancelled : CashSettlementInstruction → Time → CashSettlementInstruction
as_cancelled i now = record i {
  status = cancelled;
  cancelled_at = some (record { wall = now; offset = some (east 0) });
}

-- `{"reason": request.reason} if request and request.reason else {}`
abbrev pub reason_details : Option String → Details
reason_details none = no_details
reason_details (some reason) =
    if is_blank reason then no_details else record no_details { reason = some reason }

module _ (P : Platform) where
  -- `_parse_datetime`
  unfoldable pub parse_datetime : String → Result Error Time
  parse_datetime value = elim (P.fromisoformat value) [
    | some moment ↦ ok (drop_tzinfo moment)
    | none ↦ err (value_error "Invalid isoformat string")
  ]

  abbrev pub check : {A : Type 0} → Result Error A → Svc P A
  check r s = (r, s)

  -- `_instruction_from_request`
  unfoldable pub instruction_from_request :
      CreateInstructionRequest
      → Text
      → InstructionStatus
      → UserReference
      → Svc P CashSettlementInstruction
  instruction_from_request request instruction_id status created_by = do
    effective_date ← check (parse_datetime request.effective_date)
    end_date ← check (parse_datetime request.end_date)
    created_at ← ask P P.now
    updated_at ← ask P P.now
    check (
        validate_instruction (
          instruction_of_request request instruction_id status created_by effective_date end_date
            created_at updated_at))

  unfoldable pub create_instruction :
      CreateInstructionRequest → Subject → Caller → Svc P VersionedInstruction
  create_instruction request subject caller = do
    business_date ← ask P P.now
    allocated ← ask P (P.next_instruction_id business_date request.owning_lob)
    instruction_id ← or_raise allocated (runtime_error "sequence allocation failed")
    i ← instruction_from_request request instruction_id draft (user_ref subject)
    block ← authorize P create subject i caller true none
    persist P true i create subject (details_with_authorization none block)

  -- `update` authorizes the updated instruction.
  unfoldable pub update_current :
      VersionedInstruction
      → CreateInstructionRequest
      → Subject
      → Caller
      → Svc P VersionedInstruction
  update_current current request subject caller = do
    let i = current.instruction
    raise_if (not (status_eq i.status draft))
        (invalid_state_transition "only DRAFT instructions can be updated")
    rebuilt ← instruction_from_request request i.instruction_id i.status i.created_by
    let updated = keep_history rebuilt i
    block ← authorize P update subject updated caller true none
    persist P false updated update subject (details_with_authorization none block)

  unfoldable pub update_instruction :
      Text → CreateInstructionRequest → Subject → Caller → Svc P VersionedInstruction
  update_instruction instruction_id request subject caller = do
    current ← on_instructions P (get_current P.Instructions instruction_id)
    update_current current request subject caller

  -- `cancel` does not keep the authorization in the details.
  unfoldable pub cancel_current :
      VersionedInstruction → Subject → Option String → Caller → Svc P VersionedInstruction
  cancel_current current subject reason caller = do
    let i = current.instruction
    raise_if (status_eq i.status cancelled)
        (invalid_state_transition "instruction is already cancelled")
    raise_if (not (status_eq i.status draft || status_eq i.status submitted))
        (invalid_state_transition "only DRAFT or SUBMITTED instructions can be cancelled")
    authorize P cancel subject i caller true (some (reason_details reason))
    now ← ask P P.now
    persist P false (as_cancelled i now) cancel subject (reason_details reason)

  unfoldable pub cancel_instruction :
      Text → Subject → Option String → Caller → Svc P VersionedInstruction
  cancel_instruction instruction_id subject reason caller = do
    current ← on_instructions P (get_current P.Instructions instruction_id)
    cancel_current current subject reason caller
