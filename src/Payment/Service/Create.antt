-- ===== src/Payment/Service/Create.antt =====
-- `PaymentService.create`.
use policy_pilot.Prelude.{String, true, Option, none, some}
use policy_pilot.Prelude.Text.{Text}
use policy_pilot.Prelude.Exec.{Result, ok, err, pure, or_raise, ◌>>=◌, ◌>>◌}
use policy_pilot.Payment.Model.{create, Amount, Subject, Payment, create_payment}
use policy_pilot.Payment.Errors.{Error, runtime_error, key_error}
use policy_pilot.Payment.Authorization.{details_with_authorization}
use policy_pilot.Payment.Storage.{VersionedPayment}
use policy_pilot.Payment.Instruction.{InstructionJson, version_or}
use policy_pilot.Payment.Guards.{status_of, end_date_of, validate_instruction_for_draft_payment}
use policy_pilot.Payment.Platform.{Credentials, Platform, Svc, ask}
use policy_pilot.Payment.Client.{get_instruction}
use policy_pilot.Payment.Platform.{check}
use policy_pilot.Payment.Service.{
  authorize, record_event, save_payment_with_security_event, link_audit_execution,
}

-- `instruction[key]`
abbrev pub field_or_key_error : {A : Type 0} → Option A → String → Result Error A
field_or_key_error none key = err (key_error key)
field_or_key_error (some a) key = ok a

module _ (P : Platform) where
  -- The draft payment, built from the instruction after it was validated.
  unfoldable pub draft_payment : Text → String → Amount → Subject → InstructionJson → Svc P Payment
  draft_payment instruction_id value_date amount subject instruction = do
    check P (field_or_key_error instruction.status "status")
    instruction_type ← check P (field_or_key_error instruction.instruction_type "instruction_type")
    event_id ← ask P P.uuid4
    business_date ← ask P P.now
    owning_lob ← check P (field_or_key_error instruction.owning_lob "owning_lob")
    allocated ← ask P (P.next_payment_id business_date owning_lob)
    payment_id ← or_raise allocated (runtime_error "sequence allocation failed")
    currency ← check P (field_or_key_error instruction.currency "currency")
    now ← ask P P.now
    pure (
        create_payment payment_id instruction_id (version_or 1 instruction.version_number) amount
          currency value_date owning_lob instruction_type subject event_id now)

  -- Authorize, record, save and link.
  unfoldable pub create_saved :
      Payment
      → InstructionJson
      → Subject
      → Credentials
      → Option String
      → Svc P (VersionedPayment × Option Text)
  create_saved p instruction subject creds audit_execution_id = do
    block ← authorize P create subject p (end_date_of instruction) (status_of instruction) creds
    let details = details_with_authorization none block
    recorded ← record_event P p create subject details
    saved ← save_payment_with_security_event P true recorded create subject details
    link_audit_execution P audit_execution_id saved.1 saved.0.payment.payment_id subject
    pure saved

  unfoldable pub create_op :
      Text
      → String
      → Amount
      → Subject
      → Credentials
      → Option String
      → Svc P (VersionedPayment × Option Text)
  create_op instruction_id value_date amount subject creds audit_execution_id = do
    instruction ← get_instruction P instruction_id creds
    now ← ask P P.now
    check P (validate_instruction_for_draft_payment P.fromisoformat now instruction)
    p ← draft_payment instruction_id value_date amount subject instruction
    create_saved p instruction subject creds audit_execution_id
