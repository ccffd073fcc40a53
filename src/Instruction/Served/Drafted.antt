-- ===== src/Instruction/Served/Drafted.antt =====
-- `InstructionService.create` and `update`: the instruction that a request makes, and what is written.
use policy_pilot.Prelude.{◌≡◌, refl, sym, ap, ◌∙◌, true, Option, none, some, arith}
use policy_pilot.Prelude.Text.{Text}
use policy_pilot.Prelude.Exec.{Result, ok, or_raise, raise_if_ok, bind-ok, then-ok}
use policy_pilot.Mongo.{IsLawful}
use policy_pilot.Ledger.Keeping.{SameData, ask_ok}
use policy_pilot.Ledger.Saving.{IsCreated, IsRecorded}
use policy_pilot.Payment.Model.{Subject, UserReference}
use policy_pilot.Instruction.Route.{is_valid_owning_lob}
use policy_pilot.Instruction.Model.{
  InstructionStatus, draft, create, update, Details, CashSettlementInstruction,
  CreateInstructionRequest, instruction_of_request,
}
use policy_pilot.Instruction.Evidence.{details_with_authorization}
use policy_pilot.Instruction.Storage.{VersionedInstruction, document_to_versioned_instruction}
use policy_pilot.Instruction.Repository.{Error, runtime_error}
use policy_pilot.Instruction.Platform.{Caller, Platform, ledger, Store}
use policy_pilot.Instruction.Machine.{state_of, to_type}
use policy_pilot.Instruction.Saving.{
  document_key, event_key, IsAllowed, with_event, authorize_ok, persist-IsCreated,
}
use policy_pilot.Instruction.Service.Drafting.{
  validate_instruction, keep_history, check, instruction_from_request, create_instruction,
  update_current, update_instruction,
}
use policy_pilot.Instruction.Served.{IsRouted, IsServed, served, on_current}
use policy_pilot.Instruction.Served.Operations.{status_is}

-- An instruction that passes the validators is the one that was given, on a valid route.
pub validate_instruction_ok :
    (i : CashSettlementInstruction) {j : CashSettlementInstruction}
    → validate_instruction i ≡ ok j
    → (j ≡ i) × IsRouted i × (is_valid_owning_lob i.owning_lob ≡ true)
unfolding validate_instruction
validate_instruction_ok i h = (ground arith, ground arith, ground arith)

module _ (P : Platform) where
  check_ok :
      {A : Type 0} (r : Result Error A) (s : Store P) {a : A} {t : Store P}
      → check P r s ≡ (ok a, t)
      → (r ≡ ok a) × (t ≡ s)
  check_ok r s h = (cc, cc)

  -- What a request makes.
  pub instruction_from_request_ok :
      (request : CreateInstructionRequest) (id : Text) (status : InstructionStatus)
      (created_by : UserReference) (s : Store P) {i : CashSettlementInstruction} {t : Store P}
      → instruction_from_request P request id status created_by s ≡ (ok i, t)
      → SameData (ledger P) s t
        × IsRouted i
        × (i.instruction_id ≡ id)
        × (state_of i ≡ record {
          status = status;
          instruction_type = request.instruction_type;
          usage_count = 0;
          used_by = none;
        })
  unfolding instruction_from_request instruction_of_request
  instruction_from_request_ok request id status created_by s h =
      bind-ok _ _ s h λ effective_date s1 parsed h1. bind-ok _ _ s1 h1 λ end_date s2 parsed2 h2.
        bind-ok _ _ s2 h2 λ created_at s3 read h3. bind-ok _ _ s3 h3 λ updated_at s4 read2 h4.
          let (_, k1) = check_ok _ s parsed in
          let (_, k2) = check_ok _ s1 parsed2 in
          let k3 = ask_ok (ledger P) P.now s2 read in
          let k4 = ask_ok (ledger P) P.now s3 read2 in
          let (valid, k5) = check_ok _ s4 h4 in
          let (is, routed, _) = validate_instruction_ok _ valid in
          (
            (ground arith, ground arith),
            rw is routed,
            ap (λ x. x.instruction_id) is,
            ap state_of is,
          )

module _ (P : Platform) (L : IsLawful document_key P.Instructions)
    (M : IsLawful event_key P.Events) where
  pub update_instruction-IsServed :
      (id : Text) (request : CreateInstructionRequest) (subject : Subject) (caller : Caller)
      (s : Store P) {saved : VersionedInstruction} {t : Store P}
      → update_instruction P id request subject caller s ≡ (ok saved, t)
      → IsServed P (to_type request.instruction_type) update subject caller id s saved t
  unfolding update_instruction update_current document_to_versioned_instruction keep_history
  update_instruction-IsServed id request subject caller s =
      on_current P L M id _ s λ d u found k0 h. then-ok _ _ u h λ _ s1 guarded h1.
        bind-ok _ _ s1 h1 λ rebuilt s2 made h2. bind-ok _ _ s2 h2 λ block s3 authorized h3.
          let (was, k1) = raise_if_ok _ _ u guarded in
          let (k2, routed, same_id, state) =
            instruction_from_request_ok P request _ d.payload.status d.payload.created_by s1 made in
          let (allowed, k3) = authorize_ok P _ subject _ caller true _ s2 authorized in
          let kept : SameData (ledger P) s s3 = (ground arith, ground arith) in
          let is : d.payload.status ≡ draft = status_is _ _ was in
          let status_kept : rebuilt.status ≡ draft = ap (λ x. x.status) state ∙ is in
          let type_set : rebuilt.instruction_type ≡ request.instruction_type =
            ap (λ x. x.instruction_type) state in
          served P L M (to_type request.instruction_type) update subject caller id d
            (keep_history rebuilt (document_to_versioned_instruction d).instruction) _ _ s s3 found
            kept same_id same_id (rw (is, status_kept, type_set) refl) (λ _. routed) allowed h3

  -- An instruction that was created: what is stored, and that it was allowed and recorded.
  pub record IsDrafted (request : CreateInstructionRequest) (subject : Subject) (caller : Caller)
      (s : Store P) (saved : VersionedInstruction) (t : Store P) : Type 0 where
    pub written : CashSettlementInstruction
    pub state : state_of written ≡ record {
      status = draft;
      instruction_type = request.instruction_type;
      usage_count = 0;
      used_by = none;
    }
    pub routed : IsRouted written
    pub created : IsCreated (ledger P) written s.items saved t.items
    pub judged : CashSettlementInstruction
    pub judged_id : judged.instruction_id ≡ written.instruction_id
    pub allowed : IsAllowed P create subject judged caller
    pub details : Details
    pub recorded : IsRecorded (ledger P) create subject details saved s.events t.events

  or_raise_ok :
      (o : Option Text) (e : Error) (s : Store P) {a : Text} {t : Store P}
      → or_raise o e s ≡ (ok a, t)
      → t ≡ s
  or_raise_ok none e s h = cc
  or_raise_ok (some b) e s h = cc

  pub create_instruction-IsDrafted :
      (request : CreateInstructionRequest) (subject : Subject) (caller : Caller) (s : Store P)
      {saved : VersionedInstruction} {t : Store P}
      → create_instruction P request subject caller s ≡ (ok saved, t)
      → IsDrafted request subject caller s saved t
  unfolding create_instruction
  create_instruction-IsDrafted request subject caller s h = bind-ok _ _ s h λ date s1 dated h1.
      bind-ok _ _ s1 h1 λ allocated s2 asked h2. bind-ok _ _ s2 h2 λ id s3 given h3.
        bind-ok _ _ s3 h3 λ i s4 made h4. bind-ok _ _ s4 h4 λ block s5 authorized h5.
          let k1 = ask_ok (ledger P) P.now s dated in
          let k2 = ask_ok (ledger P) (P.next_instruction_id date request.owning_lob) s1 asked in
          let k3 = or_raise_ok allocated (runtime_error "sequence allocation failed") s2 given in
          let (k4, routed, _, state) = instruction_from_request_ok P request id draft _ s3 made in
          let (allowed, k5) = authorize_ok P _ subject _ caller true _ s4 authorized in
          let (event, created, recorded) = persist-IsCreated P L M i create subject _ s5 h5 in
          let kept : SameData (ledger P) s s5 = (ground arith, ground arith) in
          record {
            written = with_event P i event;
            state = state;
            routed = routed;
            created = rw (sym kept.0) created;
            judged = i;
            judged_id = refl;
            allowed = allowed;
            details = details_with_authorization none block;
            recorded = rw (sym kept.1) recorded;
          }
