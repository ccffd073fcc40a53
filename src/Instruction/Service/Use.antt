-- ===== src/Instruction/Service/Use.antt =====
-- `InstructionService.use` and `release_use`, which payment-service calls for a payment.
use policy_pilot.Prelude.{
  ◌+◌, ◌-◌, String, Bool, not, Option, none, some, true, false, if◌then◌else◌, leb,
}
use policy_pilot.Prelude.Text.{Text, same}
use policy_pilot.Prelude.Exec.{raise_if, ◌>>=◌, ◌>>◌}
use policy_pilot.Payment.Model.{Time, Subject}
use policy_pilot.Instruction.Model.{
  single_use, type_eq, approved, used, status_eq, use_action, release_use, Details, no_details,
  CashSettlementInstruction,
}
use policy_pilot.Instruction.Evidence.{details_with_authorization}
use policy_pilot.Instruction.Storage.{VersionedInstruction}
use policy_pilot.Instruction.Repository.{invalid_state_transition, get_current}
use policy_pilot.Instruction.Platform.{Caller, Platform, Svc, ask, on_instructions}
use policy_pilot.Instruction.Service.{authorize, persist}

-- The instruction that the use is authorized on.
abbrev pub counted : CashSettlementInstruction → Time → CashSettlementInstruction
counted i now = record i { usage_count = i.usage_count + 1; last_used_at = some now }

-- A single-use instruction is USED by the payment from then on.
abbrev pub as_used : CashSettlementInstruction → Text → CashSettlementInstruction
as_used i payment_reference =
    if type_eq i.instruction_type single_use
    then record i { status = used; used_by = some payment_reference }
    else i

abbrev pub use_details : CashSettlementInstruction → Text → Option String → Details
use_details i payment_reference end_to_end = record no_details {
  payment_reference = some payment_reference;
  end_to_end_identification = end_to_end;
  currency = some i.route.currency;
}

abbrev pub release_details : Text → Details
release_details payment_reference = record no_details { payment_reference = some payment_reference }

abbrev pub is_used_by : Option Text → Text → Bool
is_used_by none payment_reference = false
is_used_by (some by) payment_reference = same by payment_reference

abbrev pub as_released : CashSettlementInstruction → CashSettlementInstruction
as_released i = record i {
  status = approved;
  used_by = none;
  usage_count = if leb 1 i.usage_count then i.usage_count - 1 else i.usage_count;
}

module _ (P : Platform) where
  unfoldable pub use_current :
      VersionedInstruction → Subject → Text → Option String → Caller → Svc P VersionedInstruction
  use_current current subject payment_reference end_to_end caller = do
    let i = current.instruction
    raise_if (not (status_eq i.status approved))
        (invalid_state_transition "only APPROVED instructions can be used")
    now ← ask P P.now
    let details = use_details i payment_reference end_to_end
    block ← authorize P use_action subject (counted i now) caller true (some details)
    persist P false (as_used (counted i now) payment_reference) use_action subject
        (details_with_authorization (some details) block)

  unfoldable pub use_instruction :
      Text → Subject → Text → Option String → Caller → Svc P VersionedInstruction
  use_instruction instruction_id subject payment_reference end_to_end caller = do
    current ← on_instructions P (get_current P.Instructions instruction_id)
    use_current current subject payment_reference end_to_end caller

  unfoldable pub release_current :
      VersionedInstruction → Subject → Text → Caller → Svc P VersionedInstruction
  release_current current subject payment_reference caller = do
    let i = current.instruction
    raise_if (not (type_eq i.instruction_type single_use))
        (invalid_state_transition "only SINGLE_USE instructions support release")
    raise_if (not (status_eq i.status used))
        (invalid_state_transition "only USED instructions can be released")
    raise_if (not (is_used_by i.used_by payment_reference))
        (invalid_state_transition "instruction used_by does not match the releasing payment")
    block ← authorize P release_use subject i caller true (some (release_details payment_reference))
    persist P false (as_released i) release_use subject
        (details_with_authorization (some (release_details payment_reference)) block)

  unfoldable pub release_instruction : Text → Subject → Text → Caller → Svc P VersionedInstruction
  release_instruction instruction_id subject payment_reference caller = do
    current ← on_instructions P (get_current P.Instructions instruction_id)
    release_current current subject payment_reference caller
