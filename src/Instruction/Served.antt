-- ===== src/Instruction/Served.antt =====
-- What an operation on an instruction has done when it returns, as a change of the machine.
pub mod Operations
pub mod Drafted
use policy_pilot.Prelude.{
  ◌≡◌, refl, sym, ap, ◌∙◌, Bool, true, false, Option, none, some, arith, find?, find?-some, ◌&&◌,
}
use policy_pilot.Prelude.Text.{Text}
use policy_pilot.Prelude.Exec.{Result, ok, err, ◌>>=◌, bind-ok}
use policy_pilot.Mongo.{IsLawful}
use policy_pilot.Versioned
use policy_pilot.Versioned.Versions.{get_current_ok}
use policy_pilot.Ledger.Keeping.{SameData, on_items_ok}
use policy_pilot.Ledger.Saving.{IsAppended, IsRecorded}
use policy_pilot.Payment.Model.{Subject}
use policy_pilot.Payment.Storage.Keys.{payment_id_from_document_key_filtered}
use policy_pilot.Instruction.Model.{
  LifecycleAction, Details, LifecycleEvent, CashSettlementInstruction,
}
use policy_pilot.Instruction.Route.{validate_route_rules}
use policy_pilot.Instruction.Storage.{
  VersionedInstruction, InstructionDocument, document_to_versioned_instruction,
}
use policy_pilot.Instruction.Repository.{
  Error, instruction_rows, instruction_rows-IsVersioned, get_current,
}
use policy_pilot.Instruction.Platform.{Caller, Platform, ledger, Store, Svc, on_instructions}
use policy_pilot.Instruction.Machine.{State, state_of, Change, next}
use policy_pilot.Instruction.Saving.{
  document_key, event_key, IsAllowed, with_event, persist-IsAppended,
}
use policy_pilot.Instruction.Service.{persist}

abbrev pub is_current_of : Text → InstructionDocument → Bool
is_current_of = Versioned.is_current_of instruction_rows

-- The route obeys the rules.
abbrev pub IsRouted : CashSettlementInstruction → Type 0
IsRouted i = validate_route_rules i.owning_lob i.route ≡ none

module _ (P : Platform) where
  -- The instruction `id` was changed: its open version was closed, the next version was added, whose
  -- state is the next one of the machine, with a valid route if the old one was valid; the action was
  -- allowed on this instruction, and the security event stands beside the version.
  pub record IsServed (change : Change) (action : LifecycleAction) (subject : Subject)
      (caller : Caller) (id : Text) (s : Store P) (saved : VersionedInstruction) (t : Store P)
      : Type 0 where
    pub current : InstructionDocument
    pub found : find? (is_current_of id) (P.Instructions.docs s.items) ≡ some current
    pub written : CashSettlementInstruction
    pub instruction_id : written.instruction_id ≡ id
    pub changed : next change (state_of current.payload) ≡ some (state_of written)
    pub routed : IsRouted current.payload → IsRouted written
    pub appended : IsAppended (ledger P) written s.items saved t.items
    pub judged : CashSettlementInstruction
    pub judged_id : judged.instruction_id ≡ id
    pub allowed : IsAllowed P action subject judged caller
    pub details : Details
    pub recorded : IsRecorded (ledger P) action subject details saved s.events t.events

  -- The identifier of a current version.
  current_id :
      (id : Text) (d : InstructionDocument) (s : Store P)
      → find? (is_current_of id) (P.Instructions.docs s.items) ≡ some d
      → (document_to_versioned_instruction d).instruction.instruction_id ≡ id
  unfolding document_to_versioned_instruction
  current_id id d s found =
      payment_id_from_document_key_filtered id d.document_id
        (ground (arith, find?-some (is_current_of id) (P.Instructions.docs s.items) found))

  module _ (L : IsLawful document_key P.Instructions) (M : IsLawful event_key P.Events) where
    -- From the pieces that every operation ends with.
    pub served :
        (change : Change) (action : LifecycleAction) (subject : Subject) (caller : Caller)
        (id : Text) (d : InstructionDocument) (i judged : CashSettlementInstruction)
        (details : Details) (s u : Store P) {saved : VersionedInstruction} {t : Store P}
        → find? (is_current_of id) (P.Instructions.docs s.items) ≡ some d
        → SameData (ledger P) s u
        → i.instruction_id ≡ (document_to_versioned_instruction d).instruction.instruction_id
        → judged.instruction_id ≡ (document_to_versioned_instruction d).instruction.instruction_id
        → next change (state_of d.payload) ≡ some (state_of i)
        → (IsRouted d.payload → IsRouted i)
        → IsAllowed P action subject judged caller
        → persist P false i action subject details u ≡ (ok saved, t)
        → IsServed change action subject caller id s saved t
    served change action subject caller id d i judged details s u found (k1, k2) same_id judged_id
          changed routed allowed h =
        let (event, appended_, recorded_) = persist-IsAppended P L M i action subject details u h in
        record {
          current = d;
          found = found;
          written = with_event P i event;
          instruction_id = same_id ∙ current_id id d s found;
          changed = changed;
          routed = routed;
          appended = rw (sym k1) appended_;
          judged = judged;
          judged_id = judged_id ∙ current_id id d s found;
          allowed = allowed;
          details = details;
          recorded = rw (sym k2) recorded_;
        }

    -- An operation reads the open version first.
    pub on_current :
        {Q : Type 0} (id : Text) (body : VersionedInstruction → Svc P VersionedInstruction)
        (s : Store P) {saved : VersionedInstruction} {t : Store P}
        → ((d : InstructionDocument) (u : Store P)
            → find? (is_current_of id) (P.Instructions.docs s.items) ≡ some d
            → SameData (ledger P) s u
            → body (document_to_versioned_instruction d) u ≡ (ok saved, t)
            → Q)
        → (on_instructions P (get_current P.Instructions id) >>= body) s ≡ (ok saved, t)
        → Q
    on_current id body s {saved} {t} k h = bind-ok _ _ s h λ current u read h1.
        let (got, kept) = on_items_ok (ledger P) (get_current P.Instructions id) s read in
        let (d, found, is, same) =
          get_current_ok instruction_rows instruction_rows-IsVersioned P.Instructions L id s.items
            got in
        k d u found (same, kept) (rw is at h1)
