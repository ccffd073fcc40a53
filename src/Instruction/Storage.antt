-- ===== src/Instruction/Storage.antt =====
-- inst/storage.py: a version of an instruction as a document. The payload is the instruction without
-- its identifier; pydantic's dump and validation of it are taken as exact.
use policy_pilot.Prelude.{ℕ, String, ◌≡◌, refl, Option, none, [], ◌∷◌, ◌++◌}
use policy_pilot.Prelude.Text.{Text}
use policy_pilot.Prelude.Text.Decimal.{decimal}
use policy_pilot.Payment.Model.{Time}
use policy_pilot.Payment.Iso.{IsoText, format_timestamp, parse_timestamp}
use policy_pilot.Payment.Storage.{Out, payment_current_out, parse_out}
use policy_pilot.Payment.Storage.Keys.{
  bar, payment_document_key, payment_id_from_document_key,
  payment_id_from_document_key-payment_document_key,
}
use policy_pilot.Instruction.Route.{scope_value}
use policy_pilot.Instruction.Model.{CashSettlementInstruction, status_value}

pub record VersionedInstruction : Type 0 where
  pub instruction : CashSettlementInstruction
  pub version_number : ℕ
  pub valid_in : Time
  pub valid_out : Option Time

-- INSTRUCTION_CURRENT_OUT is the same text as PAYMENT_CURRENT_OUT.
pub record InstructionDocument : Type 0 where
  pub document_id : Text
  pub version_number : ℕ
  pub record_in : IsoText
  pub record_out : Out
  pub status : String
  pub owning_lob : Text
  pub wire_scope : String
  pub payload : CashSettlementInstruction

unfoldable pub instruction_document_key : Text → ℕ → Text
instruction_document_key instruction_id version_number =
    instruction_id ++ bar ∷ decimal version_number

-- `document_key.rsplit("|", 1)[0]`, as for a payment
abbrev pub instruction_id_from_document_key : Text → Text
instruction_id_from_document_key = payment_id_from_document_key

unfoldable pub payload_without_instruction_id :
    CashSettlementInstruction → CashSettlementInstruction
payload_without_instruction_id i = record i { instruction_id = [] }

-- `valid_out` is left to its default: both callers write the current version.
unfoldable pub versioned_instruction_to_document :
    CashSettlementInstruction → ℕ → Time → InstructionDocument
unfolding payload_without_instruction_id
versioned_instruction_to_document i version_number valid_in = record {
  document_id = instruction_document_key i.instruction_id version_number;
  version_number = version_number;
  record_in = format_timestamp valid_in;
  record_out = payment_current_out;
  status = status_value i.status;
  owning_lob = i.owning_lob;
  wire_scope = scope_value i.route.wire_scope;
  payload = payload_without_instruction_id i;
}

unfoldable pub document_to_versioned_instruction : InstructionDocument → VersionedInstruction
document_to_versioned_instruction d = record {
  instruction = record d.payload {
    instruction_id = instruction_id_from_document_key d.document_id;
  };
  version_number = d.version_number;
  valid_in = parse_timestamp d.record_in;
  valid_out = parse_out d.record_out;
}

-- The two services build keys in the same way.
pub instruction_document_key_lem :
    (id : Text) (n : ℕ) → instruction_document_key id n ≡ payment_document_key id n
unfolding instruction_document_key payment_document_key
instruction_document_key_lem id n = refl

-- Reading back a stored version gives the instruction, its identifier included, as an open version.
pub document_to_versioned_instruction_lem :
    (i : CashSettlementInstruction) (n : ℕ) (now : Time)
    → document_to_versioned_instruction (versioned_instruction_to_document i n now)
      ≡ record { instruction = i; version_number = n; valid_in = now; valid_out = none }
unfolding document_to_versioned_instruction versioned_instruction_to_document
document_to_versioned_instruction_lem i n now = rw (
  instruction_document_key_lem i.instruction_id n,
  payment_id_from_document_key-payment_document_key i.instruction_id n,
)
