-- ===== src/Payment/Lifecycle/Approving.antt =====
-- `PaymentService.approve` and its two ways to return, an approval and a cancellation.
use policy_pilot.Prelude.{
  ◌≡◌, refl, String, Bool, true, false, Option, some, arith, find?, Bool-cases, Bool-cases,
}
use policy_pilot.Prelude.Text.{Text}
use policy_pilot.Payment.Errors.{Error}
use policy_pilot.Prelude.Exec.{Result, ok, err, bind-ok, then-ok}
use policy_pilot.Mongo.{IsLawful}
use policy_pilot.Payment.Model.{Time, submitted, approve, cancel, Subject, Payment}
use policy_pilot.Payment.Storage.{VersionedPayment, PaymentDocument, document_to_versioned_payment}
use policy_pilot.Payment.Repository.{is_current_of}
use policy_pilot.Payment.Repository.Versions.{document_key}
use policy_pilot.Ledger.Keeping.{ask_ok, pure_ok}
use policy_pilot.Payment.Platform.{ledger, Credentials, Platform, Store}
use policy_pilot.Payment.Service.Saving.{event_key}
use policy_pilot.Payment.Service.Steps.{SameData, link_ok, try_release_ok}
use policy_pilot.Payment.Service.Cancel.{cancel_invalid, no_credentials}
use policy_pilot.Payment.Instruction.{InstructionJson}
use policy_pilot.Payment.Errors.{instruction_not_found}
use policy_pilot.Payment.Client.{get_instruction}
use policy_pilot.Payment.Guards.Approval.{Invalid, check_instruction_validity_for_approval}
use policy_pilot.Payment.Guards.Approval.Payable.{IsPayable}
use policy_pilot.Prelude.Exec.{Exec}
use policy_pilot.Payment.Lifecycle.{cancels_submitted, IsMoved, IsPermitted}
use policy_pilot.Payment.Lifecycle.Moves.{IsMoved-around, persist_authorized-IsMoved}

module _ (P : Platform) where
  -- What an approval of `p` that starts at `s` finds out about its instruction: it reads the
  -- instruction, then the clock, and checks whether the payment may be made at that time.
  abbrev pub answer : Payment → Credentials → Store P → Result Error InstructionJson
  answer p creds s = (get_instruction P p.instruction_id creds s).0

  abbrev pub checked_at : Payment → Credentials → Store P → Time
  checked_at p creds s = (P.now (get_instruction P p.instruction_id creds s).1.world).0

  pub data Verdict (p : Payment) (creds : Credentials) (s : Store P) : Bool → Type 0 where
    missing :
        {i : Text} → answer p creds s ≡ err (instruction_not_found i) → Verdict p creds s false
    invalid :
        {instruction : InstructionJson} {reason : Invalid}
        → answer p creds s ≡ ok instruction
        → check_instruction_validity_for_approval P.fromisoformat
            (checked_at p creds s)
            p
            instruction
          ≡ some reason
        → Verdict p creds s false
    valid :
        {instruction : InstructionJson}
        → answer p creds s ≡ ok instruction
        → IsPayable P.fromisoformat (checked_at p creds s) p instruction
        → Verdict p creds s true

module _ (P : Platform) (L : IsLawful document_key P.Payments)
    (M : IsLawful event_key P.Events) where
  -- The transition by which an approval that finds its instruction invalid ends: nobody is asked.
  pub cancel_invalid_ok :
      (d : PaymentDocument) (subject : Subject) (reason : String) (audit : Option String)
      (id : Text) (s : Store P) {saved : VersionedPayment} {t : Store P}
      → find? (is_current_of id) (P.Payments.docs s.items) ≡ some d
      → d.payload.status ≡ submitted
      → cancel_invalid P (document_to_versioned_payment d).payment subject reason audit s
        ≡ (ok saved, t)
      → IsMoved P L cancel subject id s saved t
  unfolding cancel_invalid document_to_versioned_payment
  cancel_invalid_ok d subject reason audit id s found was h = bind-ok _ _ s h λ now s1 read h1.
      bind-ok _ _ s1 h1 λ written s2 persisted h2. then-ok _ _ s2 h2 λ _ s3 linked h3.
        then-ok _ _ s3 h3 λ _ s4 released h4.
          let k1 : SameData P s s1 = ask_ok (ledger P) P.now s read in
          let m =
            persist_authorized-IsMoved P L M _ cancel subject _ id s1 d (rw k1.0 found) refl
              (rw was cancels_submitted) persisted in
          let k3 = link_ok P _ _ _ subject s2 linked in
          let k4 = try_release_ok P _ (no_credentials P) s3 released in
          let (is, k5) = pure_ok (ledger P) _ s4 h4 in IsMoved-around P L k1 m (ground arith) is

  -- The two ways in which an approval returns. It reads its instruction at `v`.
  abbrev pub Approved :
      Text
      → Subject
      → Credentials
      → Store P
      → Store P
      → Payment
      → VersionedPayment
      → Store P
      → Type 0
  Approved id subject creds v s p saved t =
      IsMoved P L approve subject id s saved t
      × IsPermitted P L approve subject id creds
      × Verdict P p creds v true

  abbrev pub CalledOff :
      Text
      → Subject
      → Credentials
      → Store P
      → Store P
      → Payment
      → VersionedPayment
      → Store P
      → Type 0
  CalledOff id subject creds v s p saved t =
      IsMoved P L cancel subject id s saved t × Verdict P p creds v false
