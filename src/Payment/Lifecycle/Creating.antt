-- ===== src/Payment/Lifecycle/Creating.antt =====
-- `PaymentService.create`: the first version of a draft, with its security event.
use policy_pilot.Prelude.{◌≡◌, refl, sym, ap, ◌∙◌, String, Option, none, some, [], ◌∷◌, ◌++◌, arith}
use policy_pilot.Prelude.Text.{Text}
use policy_pilot.Prelude.Exec.{ok, or_raise, bind-ok, then-ok}
use policy_pilot.Mongo.{IsLawful}
use policy_pilot.Ledger.Atomic
use policy_pilot.Payment.Repository.{payment_rows-IsVersioned}
use policy_pilot.Payment.Model.{
  PaymentAction, create, draft, Amount, Subject, Details, LifecycleEvent, Payment, create_payment,
}
use policy_pilot.Payment.Authorization.{details_with_authorization}
use policy_pilot.Payment.Errors.{Error, runtime_error}
use policy_pilot.Payment.Storage.{VersionedPayment}
use policy_pilot.Payment.Instruction.{InstructionJson}
use policy_pilot.Payment.Guards.{end_date_of, status_of}
use policy_pilot.Payment.Repository.Versions.{document_key}
use policy_pilot.Ledger.Keeping.{ask_ok, check_ok, pure_ok}
use policy_pilot.Payment.Platform.{ledger, Credentials, Platform, Store}
use policy_pilot.Payment.Service.{record_event}
use policy_pilot.Payment.Service.Create.{draft_payment, create_saved, create_op}
use policy_pilot.Payment.Service.Saving.{event_key, IsCreated, IsRecorded}
use policy_pilot.Payment.Service.Authorizing.{IsAllowed, authorize_ok}
use policy_pilot.Payment.Service.Steps.{SameData, Keeps-get_instruction, link_ok}

module _ (P : Platform) where
  or_raise_ok :
      {A : Type 0} (o : Option A) (e : Error) (s : Store P) {a : A} {t : Store P}
      → or_raise o e s ≡ (ok a, t)
      → (o ≡ some a) × (t ≡ s)
  or_raise_ok none e s h = cc
  or_raise_ok (some b) e s h = (cc, cc)

  draft_payment_ok :
      (i : Text) (v : String) (a : Amount) (subject : Subject) (instruction : InstructionJson)
      (s : Store P) {p : Payment} {t : Store P}
      → draft_payment P i v a subject instruction s ≡ (ok p, t)
      → SameData P s t × (p.status ≡ draft) × (p.instruction_id ≡ i)
  unfolding draft_payment create_payment
  draft_payment_ok i v a subject instruction s {p} {t} h = then-ok _ _ s h λ _ s1 has_status h1.
      bind-ok _ _ s1 h1 λ instruction_type s2 typed h2. bind-ok _ _ s2 h2 λ event_id s3 made h3.
        bind-ok _ _ s3 h3 λ business_date s4 dated h4. bind-ok _ _ s4 h4 λ owning_lob s5 owned h5.
          bind-ok _ _ s5 h5 λ allocated s6 asked h6. bind-ok _ _ s6 h6 λ payment_id s7 given h7.
            bind-ok _ _ s7 h7 λ currency s8 paid h8. bind-ok _ _ s8 h8 λ now s9 read h9.
              let (_, k1) = check_ok (ledger P) _ s has_status in
              let (_, k2) = check_ok (ledger P) _ s1 typed in
              let k3 = ask_ok (ledger P) P.uuid4 s2 made in
              let k4 = ask_ok (ledger P) P.now s3 dated in
              let (_, k5) = check_ok (ledger P) _ s4 owned in
              let k6 = ask_ok (ledger P) (P.next_payment_id business_date owning_lob) s5 asked in
              let (_, k7) =
                or_raise_ok allocated (runtime_error "sequence allocation failed") s6 given in
              let (_, k8) = check_ok (ledger P) _ s7 paid in
              let k9 = ask_ok (ledger P) P.now s8 read in
              let (is, k10) = pure_ok (ledger P) _ s9 h9 in
              (ground arith, ap (λ x. x.status) is, ap (λ x. x.instruction_id) is)

module _ (P : Platform) (L : IsLawful document_key P.Payments)
    (M : IsLawful event_key P.Events) where
  -- A draft that was created: what is stored, what was asked of the policy engine, what is recorded.
  pub record IsDrafted (instruction_id : Text) (subject : Subject) (creds : Credentials)
      (s : Store P) (saved : VersionedPayment) (t : Store P) : Type 0 where
    pub draft_ : Payment
    pub is_draft : draft_.status ≡ draft
    pub instruction : draft_.instruction_id ≡ instruction_id
    pub end_date : String
    pub status : String
    pub allowed : IsAllowed P create subject draft_ end_date status creds
    pub event : LifecycleEvent
    pub created :
        IsCreated P
          (record draft_ { lifecycle_events = draft_.lifecycle_events ++ event ∷ [] })
          s.items
          saved
          t.items
    pub details : Details
    pub recorded : IsRecorded P create subject details saved s.events t.events

  record_event_ok :
      (p : Payment) (action : PaymentAction) (subject : Subject) (details : Details) (s : Store P)
      {q : Payment} {t : Store P}
      → record_event P p action subject details s ≡ (ok q, t)
      → SameData P s t
        × (event : LifecycleEvent) × (q
            ≡ record p { lifecycle_events = p.lifecycle_events ++ event ∷ [] })
  unfolding record_event
  record_event_ok p action subject details s h = bind-ok _ _ s h λ event_id s1 made h1.
      bind-ok _ _ s1 h1 λ now s2 read h2.
        let k1 = ask_ok (ledger P) P.uuid4 s made in
        let k2 = ask_ok (ledger P) P.now s1 read in
        let (is, k3) = pure_ok (ledger P) _ s2 h2 in
        (
          ground arith,
          record {
            event_id = event_id;
            action = action;
            actor_user_id = subject.user_id;
            timestamp = now;
            details = details;
          },
          is,
        )

  create_saved_ok :
      (p : Payment) (instruction : InstructionJson) (subject : Subject) (creds : Credentials)
      (audit : Option String) (s : Store P) {saved : VersionedPayment × Option Text} {t : Store P}
      → create_saved P p instruction subject creds audit s ≡ (ok saved, t)
      → p.status ≡ draft
      → IsDrafted p.instruction_id subject creds s saved.0 t
  unfolding create_saved
  create_saved_ok p instruction subject creds audit s {saved} {t} h was =
      bind-ok _ _ s h λ block s1 authorized h1. bind-ok _ _ s1 h1 λ recorded s2 noted h2.
        bind-ok _ _ s2 h2 λ written s3 stored h3. then-ok _ _ s3 h3 λ _ s4 linked h4.
          let (allowed, p1, e1) = authorize_ok P create subject p _ _ creds s authorized in
          let (k2, event, is_recorded) = record_event_ok p create subject _ s1 noted in
          let (created, evidence) =
            Atomic.save-IsCreated_with_event (ledger P) payment_rows-IsVersioned L M recorded create
              subject _ s2 stored in
          let k4 = link_ok P audit _ _ subject s3 linked in
          let (is, k5) = pure_ok (ledger P) written s4 h4 in
          let before : SameData P s s2 = ground arith in
          let behind : SameData P s3 t = ground arith in
          let same_saved : saved.0 ≡ written.0 = ap (λ x. x.0) is in
          record {
            draft_ = p;
            is_draft = was;
            instruction = refl;
            end_date = end_date_of instruction;
            status = status_of instruction;
            allowed = allowed;
            event = event;
            created = rw (sym (before.0), sym is_recorded, same_saved, behind.0) created;
            details = details_with_authorization none block;
            recorded = rw (sym (before.1), same_saved, behind.1) evidence;
          }

  -- A creation that returns was permitted, and has inserted version 1 of a draft on the instruction,
  -- with its security event, unless the subject is excluded from those.
  pub create_op-IsDrafted :
      (i : Text) (v : String) (a : Amount) (subject : Subject) (creds : Credentials)
      (audit : Option String) (s : Store P) {saved : VersionedPayment × Option Text} {t : Store P}
      → create_op P i v a subject creds audit s ≡ (ok saved, t)
      → IsDrafted i subject creds s saved.0 t
  unfolding create_op
  create_op-IsDrafted i v a subject creds audit s {saved} {t} h =
      bind-ok _ _ s h λ instruction s1 fetched h1. bind-ok _ _ s1 h1 λ now s2 read h2.
        then-ok _ _ s2 h2 λ _ s3 valid h3. bind-ok _ _ s3 h3 λ p s4 made h4.
          let k1 = (Keeps-get_instruction P i creds).at s in
          let k2 = ask_ok (ledger P) P.now s1 read in
          let (_, k3) = check_ok (ledger P) _ s2 valid in
          let (k4, was, on) = draft_payment_ok P i v a subject instruction s3 made in
          let d = create_saved_ok p instruction subject creds audit s4 h4 was in
          let kept : SameData P s s4 = ground (arith, ap (λ x. x.1) fetched) in
          record {
            draft_ = d.draft_;
            is_draft = d.is_draft;
            instruction = d.instruction ∙ on;
            end_date = d.end_date;
            status = d.status;
            allowed = d.allowed;
            event = d.event;
            created = rw (sym (kept.0)) d.created;
            details = d.details;
            recorded = rw (sym (kept.1)) d.recorded;
          }
