-- ===== src/Instruction/Service/Suspension.antt =====
-- `InstructionService.suspend` and `reactivate`.
use policy_pilot.Prelude.{not, none, some, true, false}
use policy_pilot.Prelude.Text.{Text}
use policy_pilot.Prelude.Exec.{raise_if, ◌>>=◌, ◌>>◌}
use policy_pilot.Payment.Model.{Time, Subject}
use policy_pilot.Instruction.Model.{
  approved, suspended, status_eq, suspend, reactivate, CashSettlementInstruction,
}
use policy_pilot.Instruction.Evidence.{details_with_authorization}
use policy_pilot.Instruction.Storage.{VersionedInstruction}
use policy_pilot.Instruction.Repository.{invalid_state_transition, get_current}
use policy_pilot.Instruction.Platform.{Caller, Platform, Svc, ask, on_instructions}
use policy_pilot.Instruction.Service.{authorize, persist}

abbrev pub as_suspended : CashSettlementInstruction → Subject → Time → CashSettlementInstruction
as_suspended i subject now = record i {
  status = suspended;
  suspended_by = some subject.user_id;
  suspended_at = some now;
}

abbrev pub as_reactivated : CashSettlementInstruction → CashSettlementInstruction
as_reactivated i = record i { status = approved; suspended_by = none; suspended_at = none }

module _ (P : Platform) where
  unfoldable pub suspend_current :
      VersionedInstruction → Subject → Caller → Svc P VersionedInstruction
  suspend_current current subject caller = do
    let i = current.instruction
    raise_if (not (status_eq i.status approved))
        (invalid_state_transition "only APPROVED instructions can be suspended")
    block ← authorize P suspend subject i caller true none
    now ← ask P P.now
    persist P false (as_suspended i subject now) suspend subject
        (details_with_authorization none block)

  unfoldable pub suspend_instruction : Text → Subject → Caller → Svc P VersionedInstruction
  suspend_instruction instruction_id subject caller = do
    current ← on_instructions P (get_current P.Instructions instruction_id)
    suspend_current current subject caller

  unfoldable pub reactivate_current :
      VersionedInstruction → Subject → Caller → Svc P VersionedInstruction
  reactivate_current current subject caller = do
    let i = current.instruction
    raise_if (not (status_eq i.status suspended))
        (invalid_state_transition "only SUSPENDED instructions can be reactivated")
    block ← authorize P reactivate subject i caller true none
    persist P false (as_reactivated i) reactivate subject (details_with_authorization none block)

  unfoldable pub reactivate_instruction : Text → Subject → Caller → Svc P VersionedInstruction
  reactivate_instruction instruction_id subject caller = do
    current ← on_instructions P (get_current P.Instructions instruction_id)
    reactivate_current current subject caller
