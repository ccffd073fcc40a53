-- ===== src/Instruction/Calls/Outcomes.antt =====
-- What each call has done when it returns.
use policy_pilot.Prelude.{◌≡◌}
use policy_pilot.Prelude.Exec.{ok}
use policy_pilot.Mongo.{IsLawful}
use policy_pilot.Instruction.Model.{
  update, cancel, submit, approve, reject, suspend, reactivate, use_action, release_use,
}
use policy_pilot.Instruction.Storage.{VersionedInstruction}
use policy_pilot.Instruction.Platform.{Platform, Store}
use policy_pilot.Instruction.Machine.{
  to_type, to_submitted, to_approved, to_rejected, to_suspended, to_reactivated, to_cancelled,
  to_used, to_released,
}
use policy_pilot.Instruction.Saving.{document_key, event_key}
use policy_pilot.Instruction.Served.{IsServed}
use policy_pilot.Instruction.Served.Operations.{
  submit_instruction-IsServed, approve_instruction-IsServed, reject_instruction-IsServed,
  suspend_instruction-IsServed, reactivate_instruction-IsServed, cancel_instruction-IsServed,
  use_instruction-IsServed, release_instruction-IsServed,
}
use policy_pilot.Instruction.Served.Drafted.{
  IsDrafted, create_instruction-IsDrafted, update_instruction-IsServed,
}
use policy_pilot.Instruction.Calls.{
  Call, create_call, update_call, cancel_call, submit_call, approve_call, suspend_call,
  reactivate_call, reject_call, use_call, release_call, serve,
}

module _ (P : Platform) where
  module _ (L : IsLawful document_key P.Instructions) (M : IsLawful event_key P.Events) where
    -- What a call does that returns, by its kind: it was allowed, and has changed its instruction or
    -- created one.
    abbrev pub Outcome : Call → Store P → VersionedInstruction → Store P → Type 0
    Outcome (create_call request subject caller) s saved t =
        IsDrafted P L M request subject caller s saved t
    Outcome (update_call id request subject caller) s saved t =
        IsServed P (to_type request.instruction_type) update subject caller id s saved t
    Outcome (cancel_call id subject reason caller) s saved t =
        IsServed P to_cancelled cancel subject caller id s saved t
    Outcome (submit_call id subject caller) s saved t =
        IsServed P to_submitted submit subject caller id s saved t
    Outcome (approve_call id subject caller) s saved t =
        IsServed P to_approved approve subject caller id s saved t
    Outcome (suspend_call id subject caller) s saved t =
        IsServed P to_suspended suspend subject caller id s saved t
    Outcome (reactivate_call id subject caller) s saved t =
        IsServed P to_reactivated reactivate subject caller id s saved t
    Outcome (reject_call id subject reason caller) s saved t =
        IsServed P to_rejected reject subject caller id s saved t
    Outcome (use_call id subject payment end_to_end caller) s saved t =
        IsServed P (to_used payment) use_action subject caller id s saved t
    Outcome (release_call id subject payment caller) s saved t =
        IsServed P (to_released payment) release_use subject caller id s saved t

    -- A call that returns was allowed by the authorization-service for its action on its instruction; it
    -- has closed the open version and added the next one, whose state is the one that the machine gives, or
    -- has inserted the first version of a draft; a route that was valid is still valid; and the security
    -- event stands beside the version, unless the subject is excluded.
    pub serve-Outcome :
        (call : Call) (s : Store P) {saved : VersionedInstruction} {t : Store P}
        → serve P call s ≡ (ok saved, t)
        → Outcome call s saved t
    unfolding serve
    serve-Outcome (create_call request subject caller) s h =
        create_instruction-IsDrafted P L M request subject caller s h
    serve-Outcome (update_call id request subject caller) s h =
        update_instruction-IsServed P L M id request subject caller s h
    serve-Outcome (cancel_call id subject reason caller) s h =
        cancel_instruction-IsServed P L M id subject reason caller s h
    serve-Outcome (submit_call id subject caller) s h =
        submit_instruction-IsServed P L M id subject caller s h
    serve-Outcome (approve_call id subject caller) s h =
        approve_instruction-IsServed P L M id subject caller s h
    serve-Outcome (suspend_call id subject caller) s h =
        suspend_instruction-IsServed P L M id subject caller s h
    serve-Outcome (reactivate_call id subject caller) s h =
        reactivate_instruction-IsServed P L M id subject caller s h
    serve-Outcome (reject_call id subject reason caller) s h =
        reject_instruction-IsServed P L M id subject reason caller s h
    serve-Outcome (use_call id subject payment end_to_end caller) s h =
        use_instruction-IsServed P L M id subject payment end_to_end caller s h
    serve-Outcome (release_call id subject payment caller) s h =
        release_instruction-IsServed P L M id subject payment caller s h
