-- ===== src/Instruction/Calls.antt =====
-- Calls of `InstructionService`, one after another.
pub mod Keeping
pub mod Refinement
pub mod Outcomes
pub mod Replay
pub mod Using
use policy_pilot.Prelude.{String, Option, List, [], ◌∷◌}
use policy_pilot.Prelude.Text.{Text}
use policy_pilot.Prelude.Exec.{Result}
use policy_pilot.Payment.Model.{Subject}
use policy_pilot.Instruction.Model.{CreateInstructionRequest}
use policy_pilot.Instruction.Storage.{VersionedInstruction}
use policy_pilot.Instruction.Platform.{Caller, Platform, Store, Svc}
use policy_pilot.Instruction.Service.Drafting.{
  create_instruction, update_instruction, cancel_instruction,
}
use policy_pilot.Instruction.Service.Review.{
  submit_instruction, approve_instruction, reject_instruction,
}
use policy_pilot.Instruction.Service.Suspension.{suspend_instruction, reactivate_instruction}
use policy_pilot.Instruction.Service.Use.{use_instruction, release_instruction}

pub data Call : Type 0 where
  create_call : CreateInstructionRequest → Subject → Caller → Call
  update_call : Text → CreateInstructionRequest → Subject → Caller → Call
  cancel_call : Text → Subject → Option String → Caller → Call
  submit_call approve_call suspend_call reactivate_call : Text → Subject → Caller → Call
  reject_call : Text → Subject → String → Caller → Call
  use_call : Text → Subject → Text → Option String → Caller → Call
  release_call : Text → Subject → Text → Caller → Call

module _ (P : Platform) where
  unfoldable pub serve : Call → Svc P VersionedInstruction
  serve (create_call request subject caller) = create_instruction P request subject caller
  serve (update_call id request subject caller) = update_instruction P id request subject caller
  serve (cancel_call id subject reason caller) = cancel_instruction P id subject reason caller
  serve (submit_call id subject caller) = submit_instruction P id subject caller
  serve (approve_call id subject caller) = approve_instruction P id subject caller
  serve (suspend_call id subject caller) = suspend_instruction P id subject caller
  serve (reactivate_call id subject caller) = reactivate_instruction P id subject caller
  serve (reject_call id subject reason caller) = reject_instruction P id subject reason caller
  serve (use_call id subject payment end_to_end caller) =
      use_instruction P id subject payment end_to_end caller
  serve (release_call id subject payment caller) = release_instruction P id subject payment caller

  -- The store after some calls, whichever of them raise.
  unfoldable pub serve_all : List Call → Store P → Store P
  serve_all [] s = s
  serve_all (call ∷ calls) s = serve_all calls (serve call s).1
