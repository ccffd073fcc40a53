-- ===== src/Instruction/Saving.antt =====
-- What the helpers of `InstructionService` have done when they return.
use policy_pilot.Prelude.{◌≡◌, sym, String, Bool, true, false, not, Option, [], ◌∷◌, ◌++◌, arith}
use policy_pilot.Prelude.Text.{Text}
use policy_pilot.Prelude.Exec.{ok, raise_if_ok, bind-ok, then-ok}
use policy_pilot.Mongo.{IsLawful}
use policy_pilot.Ledger.Keeping.{SameData, ask_ok, call_out_ok, pure_ok}
use policy_pilot.Ledger.Saving.{IsCreated, IsAppended, IsRecorded}
use policy_pilot.Ledger.Atomic.{save-IsAppended_with_event, save-IsCreated_with_event}
use policy_pilot.Payment.Model.{Subject, PolicyDecision}
use policy_pilot.Instruction.Model.{
  LifecycleAction, AuthorizationBlock, Details, LifecycleEvent, CashSettlementInstruction,
}
use policy_pilot.Instruction.Evidence.{SecurityEventDocument}
use policy_pilot.Instruction.Storage.{VersionedInstruction, InstructionDocument}
use policy_pilot.Instruction.Repository.{policy_denied, instruction_rows-IsVersioned}
use policy_pilot.Instruction.Platform.{Caller, Platform, ledger, Store, raising, has_text}
use policy_pilot.Instruction.Service.{
  evaluate_request, ensure_logged_in, evaluate_policy, enforce, authorize, record_event,
  save_instruction_with_security_event, persist,
}

abbrev pub document_key : InstructionDocument → Text
document_key d = d.document_id

abbrev pub event_key : SecurityEventDocument → Text
event_key d = d.document_id

module _ (P : Platform) where
  -- The authorization-service, asked about this action on this instruction with a user's token,
  -- answered that it is allowed.
  pub record IsAllowed (action : LifecycleAction) (subject : Subject)
      (i : CashSettlementInstruction) (caller : Caller) : Type 0 where
    pub token : Option String
    pub session_id : Option String
    pub before : P.World
    pub after : P.World
    pub decision : PolicyDecision
    pub answered :
        P.evaluate (evaluate_request action subject i caller token session_id) before
        ≡ (ok decision, after)
    pub allowed : decision.allowed ≡ true
    pub has_user_token :
        has_text (evaluate_request action subject i caller token session_id).user_token ≡ true

  enforce_ok :
      (action : LifecycleAction) (subject : Subject) (i : CashSettlementInstruction) (b : Bool)
      (details : Option Details) (decision : PolicyDecision) (block : AuthorizationBlock)
      (s : Store P) {r : AuthorizationBlock} {t : Store P}
      → enforce P action subject i b details decision block s ≡ (ok r, t)
      → (decision.allowed ≡ true) × (t ≡ s)
  unfolding enforce
  enforce_ok action subject i b details decision block s h = then-ok _ _ s h λ _ s1 denied h1.
      then-ok _ _ s1 h1 λ _ s2 raised_ h2.
        let (allowed, same1) =
          raise_if_ok (not decision.allowed) (policy_denied block.summary) s1 raised_ in
        ground arith

  -- If an authorization returns, it was allowed by the authorization-service, and nothing was written.
  pub authorize_ok :
      (action : LifecycleAction) (subject : Subject) (i : CashSettlementInstruction)
      (caller : Caller) (b : Bool) (details : Option Details) (s : Store P)
      {block : AuthorizationBlock} {t : Store P}
      → authorize P action subject i caller b details s ≡ (ok block, t)
      → IsAllowed action subject i caller × SameData (ledger P) s t
  unfolding authorize evaluate_policy evaluate_request ensure_logged_in
  authorize_ok action subject i caller b details s h = bind-ok _ _ s h λ decision s1 evaluated h1.
      then-ok _ _ s evaluated λ _ s2 has_user h2. then-ok _ _ s2 h2 λ _ s3 logged h3.
        bind-ok _ _ s3 h3 λ token s4 read h4. bind-ok _ _ s4 h4 λ session_id s5 read2 h5.
          then-ok _ _ s5 h5 λ _ s6 checked h6.
            let (has_user_token, k2) = raise_if_ok _ _ s has_user in
            let (_, k3) =
              call_out_ok (ledger P) (λ w. let (e, w') = P.ensure_logged_in w in (raising e, w')) s2
                logged in
            let k4 = ask_ok (ledger P) (λ w. (P.token w, w)) s3 read in
            let k5 = ask_ok (ledger P) (λ w. (P.session_id w, w)) s4 read2 in
            let (_, k6) = raise_if_ok _ _ s5 checked in
            let (answered, k7) =
              call_out_ok (ledger P)
                (P.evaluate (evaluate_request action subject i caller token session_id)) s6 h6 in
            let (allowed, k8) = enforce_ok action subject i b details decision _ s1 h1 in
            (
              record {
                token = token;
                session_id = session_id;
                before = s6.world;
                after = s1.world;
                decision = decision;
                answered = answered;
                allowed = allowed;
                has_user_token = ground arith;
              },
              (ground arith, ground arith),
            )

  -- The instruction with one more event in its history.
  abbrev pub with_event : CashSettlementInstruction → LifecycleEvent → CashSettlementInstruction
  with_event i event = record i { lifecycle_events = i.lifecycle_events ++ event ∷ [] }

  record_event_ok :
      (i : CashSettlementInstruction) (action : LifecycleAction) (subject : Subject)
      (details : Details) (s : Store P) {q : CashSettlementInstruction} {t : Store P}
      → record_event P i action subject details s ≡ (ok q, t)
      → SameData (ledger P) s t × (event : LifecycleEvent) × (q ≡ with_event i event)
  unfolding record_event
  record_event_ok i action subject details s h = bind-ok _ _ s h λ event_id s1 made h1.
      bind-ok _ _ s1 h1 λ now s2 read h2.
        let k1 = ask_ok (ledger P) P.uuid4 s made in
        let k2 = ask_ok (ledger P) P.now s1 read in
        let (is, k3) = pure_ok (ledger P) _ s2 h2 in ((ground arith, ground arith), _, is)

  module _ (L : IsLawful document_key P.Instructions) (M : IsLawful event_key P.Events) where
    -- A later version has been written, with its event and its security event.
    pub persist-IsAppended :
        (i : CashSettlementInstruction) (action : LifecycleAction) (subject : Subject)
        (details : Details) (s : Store P) {saved : VersionedInstruction} {t : Store P}
        → persist P false i action subject details s ≡ (ok saved, t)
        → (event : LifecycleEvent) × IsAppended
            (ledger P)
            (with_event i event)
            s.items
            saved
            t.items
          × IsRecorded (ledger P) action subject details saved s.events t.events
    unfolding persist save_instruction_with_security_event
    persist-IsAppended i action subject details s h = bind-ok _ _ s h λ q s1 noted h1.
        bind-ok _ _ s1 h1 λ written s2 stored h2.
          let ((k1, e1), event, is) = record_event_ok i action subject details s noted in
          let (appended_, recorded) =
            save-IsAppended_with_event (ledger P) instruction_rows-IsVersioned L M q action subject
              details s1 stored in
          let (same_saved, k2) = pure_ok (ledger P) _ s2 h2 in
          (
            event,
            rw (sym is, sym k1, same_saved, k2) appended_,
            rw (sym e1, same_saved, k2) recorded,
          )

    pub persist-IsCreated :
        (i : CashSettlementInstruction) (action : LifecycleAction) (subject : Subject)
        (details : Details) (s : Store P) {saved : VersionedInstruction} {t : Store P}
        → persist P true i action subject details s ≡ (ok saved, t)
        → (event : LifecycleEvent) × IsCreated (ledger P) (with_event i event) s.items saved t.items
          × IsRecorded (ledger P) action subject details saved s.events t.events
    unfolding persist save_instruction_with_security_event
    persist-IsCreated i action subject details s h = bind-ok _ _ s h λ q s1 noted h1.
        bind-ok _ _ s1 h1 λ written s2 stored h2.
          let ((k1, e1), event, is) = record_event_ok i action subject details s noted in
          let (created, recorded) =
            save-IsCreated_with_event (ledger P) instruction_rows-IsVersioned L M q action subject
              details s1 stored in
          let (same_saved, k2) = pure_ok (ledger P) _ s2 h2 in
          (event, rw (sym is, sym k1, same_saved, k2) created, rw (sym e1, same_saved, k2) recorded)
