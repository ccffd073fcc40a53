-- ===== src/Payment/Lifecycle/Submitting.antt =====
-- `PaymentService.submit`, with the saga step that marks a single-use instruction as used.
use policy_pilot.Prelude.{◌≡◌, or_empty}
use policy_pilot.Prelude.Text.{Text}
use policy_pilot.Payment.Guards.{validate_instruction_not_expired}
use policy_pilot.Payment.Service.Update.{get_backing}
use policy_pilot.Prelude.Exec.{ok}
use policy_pilot.Payment.Model.{Payment}
use policy_pilot.Payment.Platform.{Credentials, Platform, Store}
use policy_pilot.Payment.Instruction.{InstructionJson}
use policy_pilot.Payment.Service.Submit.{check_exclusivity}

module _ (P : Platform) where
  -- What a submission of `p` that starts at `s` has checked: it reads the instruction, which is APPROVED and
  -- not expired when the clock is read next, and the exclusivity check passes.
  pub record IsReady (p : Payment) (creds : Credentials) (s : Store P) : Type 0 where
    pub instruction : InstructionJson
    pub read : (get_backing P p.instruction_id creds s).0 ≡ ok instruction
    pub is_approved : or_empty instruction.status ≡ "APPROVED"
    pub in_time :
        validate_instruction_not_expired P.fromisoformat
          (P.now (get_backing P p.instruction_id creds s).1.world).0
          instruction
        ≡ ok tt
    pub exclusive : (check_exclusivity P p s).0 ≡ ok tt
