-- ===== src/Payment/Service/Update.antt =====
-- `PaymentService.update`.
use policy_pilot.Prelude.{String, not, none}
use policy_pilot.Prelude.Text.{Text, same}
use policy_pilot.Prelude.Exec.{ok, err, pure, raise_if, ◌>>=◌, ◌>>◌}
use policy_pilot.Payment.Model.{draft, status_eq, update, Amount, Subject}
use policy_pilot.Payment.Errors.{
  Error, value_error, invalid_state_transition, instruction_not_found,
}
use policy_pilot.Payment.Storage.{VersionedPayment}
use policy_pilot.Payment.Instruction.{InstructionJson, version_or}
use policy_pilot.Payment.Guards.{status_of, end_date_of, validate_instruction_for_draft_payment}
use policy_pilot.Payment.Platform.{Credentials, Platform, Svc, ask}
use policy_pilot.Payment.Client.{get_instruction}
use policy_pilot.Payment.Platform.{check}
use policy_pilot.Payment.Service.{persist_new_version, get_current_or_404}

-- A missing instruction is a `ValueError`.
abbrev pub missing_as_value_error : Error → Error
missing_as_value_error (instruction_not_found id) = value_error "backing instruction not found"
missing_as_value_error e = e

module _ (P : Platform) where
  unfoldable pub get_backing : Text → Credentials → Svc P InstructionJson
  get_backing instruction_id creds s =
      let (r, t) = get_instruction P instruction_id creds s in
      (elim r [ ok i ↦ ok i | err e ↦ err (missing_as_value_error e) ], t)

  unfoldable pub update_body :
      VersionedPayment → Text → String → Amount → Subject → Credentials → Svc P VersionedPayment
  update_body current instruction_id value_date amount subject creds = do
    let p = current.payment
    raise_if (not (status_eq p.status draft))
        (invalid_state_transition "only DRAFT payments can be updated")
    raise_if (not (same p.instruction_id instruction_id))
        (value_error "instruction_id cannot be changed")
    instruction ← get_backing p.instruction_id creds
    now ← ask P P.now
    check P (validate_instruction_for_draft_payment P.fromisoformat now instruction)
    updated_at ← ask P P.now
    saved ←
        persist_new_version P
          (record p {
            amount = amount;
            value_date = value_date;
            instruction_version = version_or 1 instruction.version_number;
            updated_at = updated_at;
          })
          update subject none (end_date_of instruction) (status_of instruction) creds
    pure saved.0

  unfoldable pub update_op :
      Text → Text → String → Amount → Subject → Credentials → Svc P VersionedPayment
  update_op payment_id instruction_id value_date amount subject creds = do
    current ← get_current_or_404 P payment_id
    update_body current instruction_id value_date amount subject creds
