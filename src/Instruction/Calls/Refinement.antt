-- ===== src/Instruction/Calls/Refinement.antt =====
-- The stored instructions as states of the machine, and the calls as its changes.
use policy_pilot.Prelude.{
  ◌≡◌, refl, sym, ap, ◌∙◌, Option, none, some, arith, inl, inr, find?, Bool-cases, if◌then◌else◌,
}
use mathlib.Core.Option.{some-injective}
use policy_pilot.Prelude.Text.{Text, same, same_iff}
use policy_pilot.Prelude.Exec.{ok}
use policy_pilot.Mongo.{IsLawful}
use policy_pilot.Versioned.Versions.{IsValid}
use policy_pilot.Versioned.Reading.{
  find?-appended, find?-appended_other, find?-free, find?-first, find?-first_other,
}
use policy_pilot.Ledger.Saving.{IsAppended-IsValid, IsCreated-IsValid}
use policy_pilot.Payment.Model.{Subject}
use policy_pilot.Instruction.Model.{
  CreateInstructionRequest, InstructionType, draft, LifecycleAction,
}
use policy_pilot.Instruction.Storage.{
  VersionedInstruction, InstructionDocument, versioned_instruction_to_document,
}
use policy_pilot.Instruction.Repository.{instruction_rows, instruction_rows-IsVersioned}
use policy_pilot.Instruction.Platform.{Caller, Platform, ledger, Store}
use policy_pilot.Instruction.Machine.{
  State, state_of, Change, next, to_type, to_submitted, to_approved, to_rejected, to_suspended,
  to_reactivated, to_cancelled, to_used, to_released,
}
use policy_pilot.Instruction.Saving.{document_key, event_key}
use policy_pilot.Instruction.Served.{is_current_of, IsServed}
use policy_pilot.Instruction.Served.Operations.{
  submit_instruction-IsServed, approve_instruction-IsServed, reject_instruction-IsServed,
  suspend_instruction-IsServed, reactivate_instruction-IsServed, cancel_instruction-IsServed,
  use_instruction-IsServed, release_instruction-IsServed,
}
use policy_pilot.Instruction.Served.Drafted.{
  IsDrafted, create_instruction-IsDrafted, update_instruction-IsServed,
}
use policy_pilot.Instruction.Calls.{
  Call, create_call, update_call, cancel_call, submit_call, approve_call, suspend_call,
  reactivate_call, reject_call, use_call, release_call, serve,
}

-- What a client knows of the instructions: the state of each.
abbrev pub View : Type 0
View = Text → Option State

abbrev state_at : Option InstructionDocument → Option State
state_at none = none
state_at (some d) = some (state_of d.payload)

-- A call that returned has created an instruction, or changed one.
pub data Effect : Type 0 where
  creates : Text → InstructionType → Effect
  changes : Text → Change → Effect

abbrev pub created_state : InstructionType → State
created_state t = record { status = draft; instruction_type = t; usage_count = 0; used_by = none }

abbrev pub put : Text → State → View → View
put id y v j = if same j id then some y else v j

-- An instruction is created under a new identifier, and changed as the machine allows it.
abbrev pub after_creation : Text → InstructionType → View → Option State → Option View
after_creation id t v none = some (put id (created_state t) v)
after_creation id t v (some x) = none

abbrev pub after_change : Text → View → Option State → Option View
after_change id v none = none
after_change id v (some y) = some (put id y v)

abbrev pub changed_from : Change → Option State → Option State
changed_from c none = none
changed_from c (some x) = next c x

abbrev pub apply : Effect → View → Option View
apply (creates id t) v = after_creation id t v (v id)
apply (changes id c) v = after_change id v (changed_from c (v id))

abbrev pub effect_of : Call → VersionedInstruction → Effect
effect_of (create_call request subject caller) saved =
    creates saved.instruction.instruction_id request.instruction_type
effect_of (update_call id request subject caller) saved =
    changes id (to_type request.instruction_type)
effect_of (cancel_call id subject reason caller) saved = changes id to_cancelled
effect_of (submit_call id subject caller) saved = changes id to_submitted
effect_of (approve_call id subject caller) saved = changes id to_approved
effect_of (suspend_call id subject caller) saved = changes id to_suspended
effect_of (reactivate_call id subject caller) saved = changes id to_reactivated
effect_of (reject_call id subject reason caller) saved = changes id to_rejected
effect_of (use_call id subject payment end_to_end caller) saved = changes id (to_used payment)
effect_of (release_call id subject payment caller) saved = changes id (to_released payment)

module _ (P : Platform) where
  abbrev pub view : Store P → View
  view s id = state_at (find? (is_current_of id) (P.Instructions.docs s.items))

  abbrev pub IsSound : Store P → Type 0
  IsSound s = IsValid instruction_rows (P.Instructions.docs s.items)

  -- What a call does to the view, and that the version chains stay valid.
  pub record Refines (e : Effect) (s t : Store P) : Type 0 where
    pub after : View
    pub applied : apply e (view s) ≡ some after
    pub seen : (j : Text) → view t j ≡ after j
    pub sound : IsSound t

  served-Refines :
      {change : Change} {action : LifecycleAction} {subject : Subject} {caller : Caller} {id : Text}
      {s : Store P} {saved : VersionedInstruction} {t : Store P}
      → IsServed P change action subject caller id s saved t
      → IsSound s
      → Refines (changes id change) s t
  unfolding versioned_instruction_to_document
  served-Refines {change} {id = id} {s} {t = t} k valid =
      let docs = P.Instructions.docs s.items in
      let a = k.appended in
      let item = record k.written { updated_at = a.at } in
      let row_is : k.current ≡ a.row =
        some-injective _ _
          (sym k.found ∙ ap (λ i. find? (is_current_of i) docs) (sym k.instruction_id) ∙ a.found) in
      record {
        after = put id (state_of k.written) (view s);
        applied = ground (arith, k.found, k.changed);
        seen = λ j. elim (Bool-cases (same j id)) [
          | inl own ↦
              rw (own, (same_iff j id).0 own, sym k.instruction_id, a.stored)
                (ap state_at (
                  find?-appended instruction_rows instruction_rows-IsVersioned item a.row a.at docs
                    a.found (valid k.written.instruction_id)))
          | inr other ↦
              rw (other, a.stored)
                (ap state_at (
                  find?-appended_other instruction_rows instruction_rows-IsVersioned item a.row a.at
                    docs a.found (valid k.written.instruction_id) j
                    (ground (arith, same_iff j id, k.instruction_id))))
        ];
        sound = IsAppended-IsValid (ledger P) instruction_rows-IsVersioned a valid;
      }

  module _ (L : IsLawful document_key P.Instructions) (M : IsLawful event_key P.Events) where
    drafted-Refines :
        {request : CreateInstructionRequest} {subject : Subject} {caller : Caller} {s : Store P}
        {saved : VersionedInstruction} {t : Store P}
        → IsDrafted P L M request subject caller s saved t
        → IsSound s
        → Refines (creates saved.instruction.instruction_id request.instruction_type) s t
    unfolding versioned_instruction_to_document
    drafted-Refines {request} {s = s} {saved} {t} k valid =
        let docs = P.Instructions.docs s.items in
        let a = k.created in
        let id = k.written.instruction_id in
        let saved_id : saved.instruction.instruction_id ≡ id =
          ap (λ x. x.instruction.instruction_id) a.saved_is in
        let unknown : find? (is_current_of id) docs ≡ none =
          find?-free instruction_rows instruction_rows-IsVersioned k.written a.at docs (valid id)
            a.free in
        rw saved_id (record {
          after = put id (created_state request.instruction_type) (view s);
          applied = rw unknown refl;
          seen = λ j. elim (Bool-cases (same j id)) [
            | inl own ↦
                rw (own, (same_iff j id).0 own, a.stored, sym k.state)
                  (ap state_at (
                    find?-first instruction_rows instruction_rows-IsVersioned k.written a.at docs
                      (valid id) a.free))
            | inr other ↦
                rw (other, a.stored)
                  (ap state_at (
                    find?-first_other instruction_rows instruction_rows-IsVersioned k.written a.at
                      docs (valid id) a.free j (ground (arith, same_iff j id))))
          ];
          sound = IsCreated-IsValid (ledger P) instruction_rows-IsVersioned a valid;
        })

    -- A call that returns has done its effect, and nothing else, to the states that clients see.
    pub serve-Refines :
        (call : Call) (s : Store P) {saved : VersionedInstruction} {t : Store P}
        → serve P call s ≡ (ok saved, t)
        → IsSound s
        → Refines (effect_of call saved) s t
    unfolding serve
    serve-Refines (create_call request subject caller) s h valid =
        drafted-Refines (create_instruction-IsDrafted P L M request subject caller s h) valid
    serve-Refines (update_call id request subject caller) s h valid =
        served-Refines (update_instruction-IsServed P L M id request subject caller s h) valid
    serve-Refines (cancel_call id subject reason caller) s h valid =
        served-Refines (cancel_instruction-IsServed P L M id subject reason caller s h) valid
    serve-Refines (submit_call id subject caller) s h valid =
        served-Refines (submit_instruction-IsServed P L M id subject caller s h) valid
    serve-Refines (approve_call id subject caller) s h valid =
        served-Refines (approve_instruction-IsServed P L M id subject caller s h) valid
    serve-Refines (suspend_call id subject caller) s h valid =
        served-Refines (suspend_instruction-IsServed P L M id subject caller s h) valid
    serve-Refines (reactivate_call id subject caller) s h valid =
        served-Refines (reactivate_instruction-IsServed P L M id subject caller s h) valid
    serve-Refines (reject_call id subject reason caller) s h valid =
        served-Refines (reject_instruction-IsServed P L M id subject reason caller s h) valid
    serve-Refines (use_call id subject payment end_to_end caller) s h valid =
        served-Refines (use_instruction-IsServed P L M id subject payment end_to_end caller s h)
          valid
    serve-Refines (release_call id subject payment caller) s h valid =
        served-Refines (release_instruction-IsServed P L M id subject payment caller s h) valid
