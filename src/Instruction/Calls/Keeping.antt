-- ===== src/Instruction/Calls/Keeping.antt =====
-- What the operations on an instruction leave of the stored versions when they raise.
use policy_pilot.Prelude.{◌≡◌, refl, String, Bool, Option, [], ◌∷◌, arith}
use policy_pilot.Prelude.Text.{Text}
use policy_pilot.Prelude.Exec.{err, raise_if, or_raise, ◌>>=◌}
use policy_pilot.Versioned.{reading, get_current}
use policy_pilot.Ledger.Failsafe
use policy_pilot.Payment.Model.{Subject, UserReference, PolicyDecision}
use policy_pilot.Instruction.Model.{
  LifecycleAction, AuthorizationBlock, Details, CashSettlementInstruction, InstructionStatus,
  CreateInstructionRequest,
}
use policy_pilot.Instruction.Repository.{Error, instruction_rows}
use policy_pilot.Instruction.Platform.{Caller, Platform, ledger, Store, Svc, on_instructions}
use policy_pilot.Instruction.Service.{
  ensure_logged_in, evaluate_policy, denial_version, record_policy_denial, record_denial, enforce,
  authorize, record_event, save_instruction_with_security_event, persist,
}
use policy_pilot.Instruction.Service.Drafting.{
  instruction_from_request, create_instruction, update_current, update_instruction, cancel_current,
  cancel_instruction,
}
use policy_pilot.Instruction.Service.Review.{
  submit_current, submit_instruction, approve_current, approve_instruction, reject_current,
  reject_instruction,
}
use policy_pilot.Instruction.Service.Suspension.{
  suspend_current, suspend_instruction, reactivate_current, reactivate_instruction,
}
use policy_pilot.Instruction.Service.Use.{
  use_current, use_instruction, release_current, release_instruction,
}
use policy_pilot.Instruction.Calls.{
  Call, create_call, update_call, cancel_call, submit_call, approve_call, suspend_call,
  reactivate_call, reject_call, use_call, release_call, serve,
}

module _ (P : Platform) where
  abbrev KeepsItems : {A : Type 0} → Svc P A → Type 0
  KeepsItems = Failsafe.KeepsItems (ledger P)

  KeepsItems-get_current :
      (id : Text) → KeepsItems (on_instructions P (get_current instruction_rows P.Instructions id))
  unfolding get_current reading ◌>>=◌
  KeepsItems-get_current id = record { at = λ s. ground arith }

  KeepsItems-raise_if : (b : Bool) (e : Error) → KeepsItems (raise_if b e)
  KeepsItems-raise_if b e = Failsafe.KeepsItems-raise_if (ledger P) b e

  KeepsItems-or_raise : {A : Type 0} (o : Option A) (e : Error) → KeepsItems (or_raise o e)
  KeepsItems-or_raise o e = Failsafe.KeepsItems-or_raise (ledger P) o e

  ruleset keeping = (
    KeepsItems-raise_if, KeepsItems-or_raise, Failsafe.keeping_items,
    Failsafe.KeepsItems-allocate_event_id, Failsafe.KeepsItems-insert_document,
    KeepsItems-get_current,
  )

  KeepsItems-denial_version : (id : Text) → KeepsItems (denial_version P id)
  unfolding denial_version
  KeepsItems-denial_version [] = search keeping depth 6
  KeepsItems-denial_version (c ∷ cs) = search keeping depth 8

  KeepsItems-record_denial :
      (action : LifecycleAction) (subject : Subject) (i : CashSettlementInstruction)
      (details : Option Details) (block : AuthorizationBlock)
      → KeepsItems (record_denial P action subject i details block)
  unfolding record_denial record_policy_denial
  KeepsItems-record_denial action subject i details block =
      search (keeping, KeepsItems-denial_version) depth 10

  KeepsItems-log_in : KeepsItems (ensure_logged_in P)
  unfolding ensure_logged_in
  KeepsItems-log_in = record { at = λ s. refl }

  KeepsItems-evaluate_policy :
      (action : LifecycleAction) (subject : Subject) (i : CashSettlementInstruction)
      (caller : Caller)
      → KeepsItems (evaluate_policy P action subject i caller)
  unfolding evaluate_policy
  KeepsItems-evaluate_policy action subject i caller = search (keeping, KeepsItems-log_in) depth 14

  KeepsItems-enforce :
      (action : LifecycleAction) (subject : Subject) (i : CashSettlementInstruction) (b : Bool)
      (details : Option Details) (decision : PolicyDecision) (block : AuthorizationBlock)
      → KeepsItems (enforce P action subject i b details decision block)
  unfolding enforce
  KeepsItems-enforce action subject i b details decision block =
      search (keeping, KeepsItems-record_denial) depth 10

  KeepsItems-authorize :
      (action : LifecycleAction) (subject : Subject) (i : CashSettlementInstruction)
      (caller : Caller) (b : Bool) (details : Option Details)
      → KeepsItems (authorize P action subject i caller b details)
  unfolding authorize
  KeepsItems-authorize action subject i caller b details =
      search (keeping, KeepsItems-evaluate_policy, KeepsItems-enforce) depth 8

  KeepsItems-record_event :
      (i : CashSettlementInstruction) (action : LifecycleAction) (subject : Subject)
      (details : Details)
      → KeepsItems (record_event P i action subject details)
  unfolding record_event
  KeepsItems-record_event i action subject details = search keeping depth 8

  abbrev pub IsFailsafe : {A : Type 0} → Svc P A → Type 0
  IsFailsafe = Failsafe.Failsafe (ledger P)

  persist-IsFailsafe :
      (initial : Bool) (i : CashSettlementInstruction) (action : LifecycleAction)
      (subject : Subject) (details : Details)
      → IsFailsafe (persist P initial i action subject details)
  unfolding persist save_instruction_with_security_event
  persist-IsFailsafe initial i action subject details =
      Failsafe.Failsafe-bind (ledger P) _ _ (KeepsItems-record_event i action subject details) (λ q.
        Failsafe.Failsafe-pure (ledger P) _ (λ saved. saved.0)
          (Failsafe.Failsafe-save (ledger P) initial q action subject details))

  KeepsItems-instruction_from_request :
      (request : CreateInstructionRequest) (id : Text) (status : InstructionStatus)
      (created_by : UserReference)
      → KeepsItems (instruction_from_request P request id status created_by)
  unfolding instruction_from_request
  KeepsItems-instruction_from_request request id status created_by = search keeping depth 8

  ruleset failing = (
    keeping, KeepsItems-authorize, KeepsItems-instruction_from_request, Failsafe.Failsafe-bind,
    Failsafe.Failsafe-then, persist-IsFailsafe,
  )

  create_instruction-IsFailsafe :
      (request : CreateInstructionRequest) (subject : Subject) (caller : Caller)
      → IsFailsafe (create_instruction P request subject caller)
  unfolding create_instruction
  create_instruction-IsFailsafe request subject caller = search failing depth 12

  update_instruction-IsFailsafe :
      (id : Text) (request : CreateInstructionRequest) (subject : Subject) (caller : Caller)
      → IsFailsafe (update_instruction P id request subject caller)
  unfolding update_instruction update_current
  update_instruction-IsFailsafe id request subject caller = search failing depth 12

  cancel_instruction-IsFailsafe :
      (id : Text) (subject : Subject) (reason : Option String) (caller : Caller)
      → IsFailsafe (cancel_instruction P id subject reason caller)
  unfolding cancel_instruction cancel_current
  cancel_instruction-IsFailsafe id subject reason caller = search failing depth 12

  submit_instruction-IsFailsafe :
      (id : Text) (subject : Subject) (caller : Caller)
      → IsFailsafe (submit_instruction P id subject caller)
  unfolding submit_instruction submit_current
  submit_instruction-IsFailsafe id subject caller = search failing depth 12

  approve_instruction-IsFailsafe :
      (id : Text) (subject : Subject) (caller : Caller)
      → IsFailsafe (approve_instruction P id subject caller)
  unfolding approve_instruction approve_current
  approve_instruction-IsFailsafe id subject caller = search failing depth 12

  reject_instruction-IsFailsafe :
      (id : Text) (subject : Subject) (reason : String) (caller : Caller)
      → IsFailsafe (reject_instruction P id subject reason caller)
  unfolding reject_instruction reject_current
  reject_instruction-IsFailsafe id subject reason caller = search failing depth 12

  suspend_instruction-IsFailsafe :
      (id : Text) (subject : Subject) (caller : Caller)
      → IsFailsafe (suspend_instruction P id subject caller)
  unfolding suspend_instruction suspend_current
  suspend_instruction-IsFailsafe id subject caller = search failing depth 12

  reactivate_instruction-IsFailsafe :
      (id : Text) (subject : Subject) (caller : Caller)
      → IsFailsafe (reactivate_instruction P id subject caller)
  unfolding reactivate_instruction reactivate_current
  reactivate_instruction-IsFailsafe id subject caller = search failing depth 12

  use_instruction-IsFailsafe :
      (id : Text) (subject : Subject) (payment : Text) (end_to_end : Option String)
      (caller : Caller)
      → IsFailsafe (use_instruction P id subject payment end_to_end caller)
  unfolding use_instruction use_current
  use_instruction-IsFailsafe id subject payment end_to_end caller = search failing depth 12

  release_instruction-IsFailsafe :
      (id : Text) (subject : Subject) (payment : Text) (caller : Caller)
      → IsFailsafe (release_instruction P id subject payment caller)
  unfolding release_instruction release_current
  release_instruction-IsFailsafe id subject payment caller = search failing depth 12

  pub serve-IsFailsafe : (call : Call) → IsFailsafe (serve P call)
  unfolding serve
  serve-IsFailsafe (create_call request subject caller) =
      create_instruction-IsFailsafe request subject caller
  serve-IsFailsafe (update_call id request subject caller) =
      update_instruction-IsFailsafe id request subject caller
  serve-IsFailsafe (cancel_call id subject reason caller) =
      cancel_instruction-IsFailsafe id subject reason caller
  serve-IsFailsafe (submit_call id subject caller) = submit_instruction-IsFailsafe id subject caller
  serve-IsFailsafe (approve_call id subject caller) =
      approve_instruction-IsFailsafe id subject caller
  serve-IsFailsafe (reject_call id subject reason caller) =
      reject_instruction-IsFailsafe id subject reason caller
  serve-IsFailsafe (suspend_call id subject caller) =
      suspend_instruction-IsFailsafe id subject caller
  serve-IsFailsafe (reactivate_call id subject caller) =
      reactivate_instruction-IsFailsafe id subject caller
  serve-IsFailsafe (use_call id subject payment end_to_end caller) =
      use_instruction-IsFailsafe id subject payment end_to_end caller
  serve-IsFailsafe (release_call id subject payment caller) =
      release_instruction-IsFailsafe id subject payment caller

  -- A call that raises leaves the stored instructions as they were.
  pub serve_fails :
      (call : Call) (s : Store P) {e : Error} {t : Store P}
      → serve P call s ≡ (err e, t)
      → t.items ≡ s.items
  serve_fails call s h = (serve-IsFailsafe call).at s h
