-- ===== src/Instruction/Service/Review.antt =====
-- `InstructionService.submit`, `approve` and `reject`.
use policy_pilot.Prelude.{String, not, none, some, true, false}
use policy_pilot.Prelude.Text.{Text}
use policy_pilot.Prelude.Exec.{raise_if, ◌>>=◌, ◌>>◌}
use policy_pilot.Payment.Model.{Time, Subject, user_ref}
use policy_pilot.Instruction.Model.{
  draft, submitted, approved, rejected, status_eq, submit, approve, reject, Details, no_details,
  CashSettlementInstruction,
}
use policy_pilot.Instruction.Evidence.{details_with_authorization}
use policy_pilot.Instruction.Storage.{VersionedInstruction}
use policy_pilot.Instruction.Repository.{invalid_state_transition, get_current}
use policy_pilot.Instruction.Platform.{Caller, Platform, Svc, ask, on_instructions}
use policy_pilot.Instruction.Service.{authorize, persist}

abbrev pub as_submitted : CashSettlementInstruction → Time → CashSettlementInstruction
as_submitted i now = record i { status = submitted; submitted_at = some now }

abbrev pub as_approved : CashSettlementInstruction → Subject → Time → CashSettlementInstruction
as_approved i subject now = record i {
  status = approved;
  approved_by = some (user_ref subject);
  approved_at = some now;
}

abbrev pub as_rejected :
    CashSettlementInstruction → Subject → String → Time → CashSettlementInstruction
as_rejected i subject reason now = record i {
  status = rejected;
  rejected_by = some (user_ref subject);
  rejected_at = some now;
  rejection_reason = some reason;
}

abbrev pub rejection_details : String → Details
rejection_details reason = record no_details { reason = some reason }

module _ (P : Platform) where
  unfoldable pub submit_current :
      VersionedInstruction → Subject → Caller → Svc P VersionedInstruction
  submit_current current subject caller = do
    let i = current.instruction
    raise_if (not (status_eq i.status draft))
        (invalid_state_transition "only DRAFT instructions can be submitted")
    block ← authorize P submit subject i caller true none
    now ← ask P P.now
    persist P false (as_submitted i now) submit subject (details_with_authorization none block)

  unfoldable pub submit_instruction : Text → Subject → Caller → Svc P VersionedInstruction
  submit_instruction instruction_id subject caller = do
    current ← on_instructions P (get_current P.Instructions instruction_id)
    submit_current current subject caller

  unfoldable pub approve_current :
      VersionedInstruction → Subject → Caller → Svc P VersionedInstruction
  approve_current current subject caller = do
    let i = current.instruction
    raise_if (not (status_eq i.status submitted))
        (invalid_state_transition "only SUBMITTED instructions can be approved")
    block ← authorize P approve subject i caller true none
    now ← ask P P.now
    persist P false (as_approved i subject now) approve subject
        (details_with_authorization none block)

  unfoldable pub approve_instruction : Text → Subject → Caller → Svc P VersionedInstruction
  approve_instruction instruction_id subject caller = do
    current ← on_instructions P (get_current P.Instructions instruction_id)
    approve_current current subject caller

  unfoldable pub reject_current :
      VersionedInstruction → Subject → String → Caller → Svc P VersionedInstruction
  reject_current current subject reason caller = do
    let i = current.instruction
    raise_if (not (status_eq i.status submitted))
        (invalid_state_transition "only SUBMITTED instructions can be rejected")
    block ← authorize P reject subject i caller true (some (rejection_details reason))
    now ← ask P P.now
    persist P false (as_rejected i subject reason now) reject subject
        (details_with_authorization (some (rejection_details reason)) block)

  unfoldable pub reject_instruction : Text → Subject → String → Caller → Svc P VersionedInstruction
  reject_instruction instruction_id subject reason caller = do
    current ← on_instructions P (get_current P.Instructions instruction_id)
    reject_current current subject reason caller
