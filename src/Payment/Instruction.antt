-- ===== src/Payment/Instruction.antt =====
-- The JSON of an instruction, as payment-service reads it from the instruction-service.
use policy_pilot.Prelude.{ℕ, zero, suc, String, Option, none, some}

pub record InstructionJson : Type 0 where
  pub status : Option String
  pub instruction_type : Option String
  pub version_number : Option ℕ
  pub effective_date : Option String
  pub end_date : Option String
  pub owning_lob : Option String
  pub currency : Option String

-- `int(instruction.get("version_number") or default)`
abbrev pub version_or : ℕ → Option ℕ → ℕ
version_or default none = default
version_or default (some zero) = default
version_or default (some (suc n)) = suc n
