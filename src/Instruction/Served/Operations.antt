-- ===== src/Instruction/Served/Operations.antt =====
-- The operations of `InstructionService` that change an instruction: what each has done.
use policy_pilot.Prelude.{
  ◌≡◌, refl, String, true, false, not, Option, some, arith, ◌||◌, Bool-cases, inl, inr,
}
use policy_pilot.Prelude.Text.{Text}
use policy_pilot.Prelude.Exec.{ok, raise_if_ok, bind-ok, then-ok}
use policy_pilot.Mongo.{IsLawful}
use policy_pilot.Ledger.Keeping.{SameData, ask_ok}
use policy_pilot.Payment.Model.{Time, Subject}
use policy_pilot.Instruction.Model.{
  InstructionStatus, draft, submitted, approved, suspended, used, status_eq, InstructionType,
  single_use, type_eq, submit, approve, reject, suspend, reactivate, cancel, use_action,
  release_use, CashSettlementInstruction,
}
use policy_pilot.Instruction.Storage.{VersionedInstruction, document_to_versioned_instruction}
use policy_pilot.Instruction.Platform.{Caller, Platform, ledger, Store}
use policy_pilot.Instruction.Machine.{
  state_of, next, to_submitted, to_approved, to_rejected, to_suspended, to_reactivated,
  to_cancelled, to_used, to_released,
}
use policy_pilot.Instruction.Saving.{document_key, event_key, authorize_ok}
use policy_pilot.Instruction.Service.Drafting.{as_cancelled, cancel_current, cancel_instruction}
use policy_pilot.Instruction.Service.Review.{
  as_submitted, as_approved, as_rejected, submit_current, submit_instruction, approve_current,
  approve_instruction, reject_current, reject_instruction,
}
use policy_pilot.Instruction.Service.Suspension.{
  as_suspended, as_reactivated, suspend_current, suspend_instruction, reactivate_current,
  reactivate_instruction,
}
use policy_pilot.Instruction.Service.Use.{
  counted, as_used, as_released, is_used_by, use_current, use_instruction, release_current,
  release_instruction,
}
use policy_pilot.Instruction.Served.{IsRouted, IsServed, served, on_current}

pub status_is : (x y : InstructionStatus) → not (status_eq x y) ≡ false → x ≡ y
status_is x y h = ground arith

type_is : (x y : InstructionType) → not (type_eq x y) ≡ false → x ≡ y
type_is x y h = ground arith

cancel_changed :
    (i : CashSettlementInstruction) (now : Time)
    → not (status_eq i.status draft || status_eq i.status submitted) ≡ false
    → next to_cancelled (state_of i) ≡ some (state_of (as_cancelled i now))
cancel_changed i now h = ground arith

use_changed :
    (i : CashSettlementInstruction) (now : Time) (payment : Text)
    → not (status_eq i.status approved) ≡ false
    → next (to_used payment) (state_of i) ≡ some (state_of (as_used (counted i now) payment))
use_changed i now payment h = ground arith

use_keeps_route :
    (i : CashSettlementInstruction) (now : Time) (payment : Text)
    → IsRouted i
    → IsRouted (as_used (counted i now) payment)
use_keeps_route i now payment h = elim (Bool-cases (type_eq i.instruction_type single_use)) [
  | inl single ↦ rw single h
  | inr standing_ ↦ rw standing_ h
]

use_id :
    (i : CashSettlementInstruction) (now : Time) (payment : Text)
    → (as_used (counted i now) payment).instruction_id ≡ i.instruction_id
use_id i now payment = ground arith

release_changed :
    (i : CashSettlementInstruction) (payment : Text)
    → not (type_eq i.instruction_type single_use) ≡ false
    → not (status_eq i.status used) ≡ false
    → not (is_used_by i.used_by payment) ≡ false
    → next (to_released payment) (state_of i) ≡ some (state_of (as_released i))
release_changed i payment single taken by = ground arith

module _ (P : Platform) (L : IsLawful document_key P.Instructions)
    (M : IsLawful event_key P.Events) where
  pub submit_instruction-IsServed :
      (id : Text) (subject : Subject) (caller : Caller) (s : Store P) {saved : VersionedInstruction}
      {t : Store P}
      → submit_instruction P id subject caller s ≡ (ok saved, t)
      → IsServed P to_submitted submit subject caller id s saved t
  unfolding submit_instruction submit_current document_to_versioned_instruction
  submit_instruction-IsServed id subject caller s = on_current P L M id _ s λ d u found k0 h.
      then-ok _ _ u h λ _ s1 guarded h1. bind-ok _ _ s1 h1 λ block s2 authorized h2.
        bind-ok _ _ s2 h2 λ now s3 read h3.
          let (was, k1) = raise_if_ok _ _ u guarded in
          let (allowed, k2) = authorize_ok P _ subject _ caller true _ s1 authorized in
          let k3 = ask_ok (ledger P) P.now s2 read in
          let kept : SameData (ledger P) s s3 = (ground arith, ground arith) in
          let is : d.payload.status ≡ draft = status_is _ _ was in
          served P L M to_submitted submit subject caller id d
            (as_submitted (document_to_versioned_instruction d).instruction now) _ _ s s3 found kept
            refl refl (rw is refl) (λ r. r) allowed h3

  pub approve_instruction-IsServed :
      (id : Text) (subject : Subject) (caller : Caller) (s : Store P) {saved : VersionedInstruction}
      {t : Store P}
      → approve_instruction P id subject caller s ≡ (ok saved, t)
      → IsServed P to_approved approve subject caller id s saved t
  unfolding approve_instruction approve_current document_to_versioned_instruction
  approve_instruction-IsServed id subject caller s = on_current P L M id _ s λ d u found k0 h.
      then-ok _ _ u h λ _ s1 guarded h1. bind-ok _ _ s1 h1 λ block s2 authorized h2.
        bind-ok _ _ s2 h2 λ now s3 read h3.
          let (was, k1) = raise_if_ok _ _ u guarded in
          let (allowed, k2) = authorize_ok P _ subject _ caller true _ s1 authorized in
          let k3 = ask_ok (ledger P) P.now s2 read in
          let kept : SameData (ledger P) s s3 = (ground arith, ground arith) in
          let is : d.payload.status ≡ submitted = status_is _ _ was in
          served P L M to_approved approve subject caller id d
            (as_approved (document_to_versioned_instruction d).instruction subject now) _ _ s s3
            found kept refl refl (rw is refl) (λ r. r) allowed h3

  pub reject_instruction-IsServed :
      (id : Text) (subject : Subject) (reason : String) (caller : Caller) (s : Store P)
      {saved : VersionedInstruction} {t : Store P}
      → reject_instruction P id subject reason caller s ≡ (ok saved, t)
      → IsServed P to_rejected reject subject caller id s saved t
  unfolding reject_instruction reject_current document_to_versioned_instruction
  reject_instruction-IsServed id subject reason caller s = on_current P L M id _ s λ d u found k0 h.
      then-ok _ _ u h λ _ s1 guarded h1. bind-ok _ _ s1 h1 λ block s2 authorized h2.
        bind-ok _ _ s2 h2 λ now s3 read h3.
          let (was, k1) = raise_if_ok _ _ u guarded in
          let (allowed, k2) = authorize_ok P _ subject _ caller true _ s1 authorized in
          let k3 = ask_ok (ledger P) P.now s2 read in
          let kept : SameData (ledger P) s s3 = (ground arith, ground arith) in
          let is : d.payload.status ≡ submitted = status_is _ _ was in
          served P L M to_rejected reject subject caller id d
            (as_rejected (document_to_versioned_instruction d).instruction subject reason now) _ _ s
            s3 found kept refl refl (rw is refl) (λ r. r) allowed h3

  pub suspend_instruction-IsServed :
      (id : Text) (subject : Subject) (caller : Caller) (s : Store P) {saved : VersionedInstruction}
      {t : Store P}
      → suspend_instruction P id subject caller s ≡ (ok saved, t)
      → IsServed P to_suspended suspend subject caller id s saved t
  unfolding suspend_instruction suspend_current document_to_versioned_instruction
  suspend_instruction-IsServed id subject caller s = on_current P L M id _ s λ d u found k0 h.
      then-ok _ _ u h λ _ s1 guarded h1. bind-ok _ _ s1 h1 λ block s2 authorized h2.
        bind-ok _ _ s2 h2 λ now s3 read h3.
          let (was, k1) = raise_if_ok _ _ u guarded in
          let (allowed, k2) = authorize_ok P _ subject _ caller true _ s1 authorized in
          let k3 = ask_ok (ledger P) P.now s2 read in
          let kept : SameData (ledger P) s s3 = (ground arith, ground arith) in
          let is : d.payload.status ≡ approved = status_is _ _ was in
          served P L M to_suspended suspend subject caller id d
            (as_suspended (document_to_versioned_instruction d).instruction subject now) _ _ s s3
            found kept refl refl (rw is refl) (λ r. r) allowed h3

  pub reactivate_instruction-IsServed :
      (id : Text) (subject : Subject) (caller : Caller) (s : Store P) {saved : VersionedInstruction}
      {t : Store P}
      → reactivate_instruction P id subject caller s ≡ (ok saved, t)
      → IsServed P to_reactivated reactivate subject caller id s saved t
  unfolding reactivate_instruction reactivate_current document_to_versioned_instruction
  reactivate_instruction-IsServed id subject caller s = on_current P L M id _ s λ d u found k0 h.
      then-ok _ _ u h λ _ s1 guarded h1. bind-ok _ _ s1 h1 λ block s2 authorized h2.
        let (was, k1) = raise_if_ok _ _ u guarded in
        let (allowed, k2) = authorize_ok P _ subject _ caller true _ s1 authorized in
        let kept : SameData (ledger P) s s2 = (ground arith, ground arith) in
        let is : d.payload.status ≡ suspended = status_is _ _ was in
        served P L M to_reactivated reactivate subject caller id d
          (as_reactivated (document_to_versioned_instruction d).instruction) _ _ s s2 found kept
          refl refl (rw is refl) (λ r. r) allowed h2

  pub cancel_instruction-IsServed :
      (id : Text) (subject : Subject) (reason : Option String) (caller : Caller) (s : Store P)
      {saved : VersionedInstruction} {t : Store P}
      → cancel_instruction P id subject reason caller s ≡ (ok saved, t)
      → IsServed P to_cancelled cancel subject caller id s saved t
  unfolding cancel_instruction cancel_current document_to_versioned_instruction
  cancel_instruction-IsServed id subject reason caller s = on_current P L M id _ s λ d u found k0 h.
      then-ok _ _ u h λ _ s1 not_yet h1. then-ok _ _ s1 h1 λ _ s2 guarded h2.
        then-ok _ _ s2 h2 λ block s3 authorized h3. bind-ok _ _ s3 h3 λ now s4 read h4.
          let (_, k1) = raise_if_ok _ _ u not_yet in
          let (was, k2) = raise_if_ok _ _ s1 guarded in
          let (allowed, k3) = authorize_ok P _ subject _ caller true _ s2 authorized in
          let k4 = ask_ok (ledger P) P.now s3 read in
          let kept : SameData (ledger P) s s4 = (ground arith, ground arith) in
          served P L M to_cancelled cancel subject caller id d
            (as_cancelled (document_to_versioned_instruction d).instruction now) _ _ s s4 found kept
            refl refl (cancel_changed d.payload now was) (λ r. r) allowed h4

  pub use_instruction-IsServed :
      (id : Text) (subject : Subject) (payment : Text) (end_to_end : Option String)
      (caller : Caller) (s : Store P) {saved : VersionedInstruction} {t : Store P}
      → use_instruction P id subject payment end_to_end caller s ≡ (ok saved, t)
      → IsServed P (to_used payment) use_action subject caller id s saved t
  unfolding use_instruction use_current document_to_versioned_instruction
  use_instruction-IsServed id subject payment end_to_end caller s =
      on_current P L M id _ s λ d u found k0 h. then-ok _ _ u h λ _ s1 guarded h1.
        bind-ok _ _ s1 h1 λ now s2 read h2. bind-ok _ _ s2 h2 λ block s3 authorized h3.
          let (was, k1) = raise_if_ok _ _ u guarded in
          let k2 = ask_ok (ledger P) P.now s1 read in
          let (allowed, k3) = authorize_ok P _ subject _ caller true _ s2 authorized in
          let kept : SameData (ledger P) s s3 = (ground arith, ground arith) in
          let i = (document_to_versioned_instruction d).instruction in
          served P L M (to_used payment) use_action subject caller id d
            (as_used (counted i now) payment) _ _ s s3 found kept (use_id i now payment) refl
            (use_changed i now payment was) (use_keeps_route i now payment) allowed h3

  pub release_instruction-IsServed :
      (id : Text) (subject : Subject) (payment : Text) (caller : Caller) (s : Store P)
      {saved : VersionedInstruction} {t : Store P}
      → release_instruction P id subject payment caller s ≡ (ok saved, t)
      → IsServed P (to_released payment) release_use subject caller id s saved t
  unfolding release_instruction release_current document_to_versioned_instruction
  release_instruction-IsServed id subject payment caller s =
      on_current P L M id _ s λ d u found k0 h. then-ok _ _ u h λ _ s1 single h1.
        then-ok _ _ s1 h1 λ _ s2 taken h2. then-ok _ _ s2 h2 λ _ s3 held h3.
          bind-ok _ _ s3 h3 λ block s4 authorized h4.
            let (is_single, k1) = raise_if_ok _ _ u single in
            let (is_taken, k2) = raise_if_ok _ _ s1 taken in
            let (is_held, k3) = raise_if_ok _ _ s2 held in
            let (allowed, k4) = authorize_ok P _ subject _ caller true _ s3 authorized in
            let kept : SameData (ledger P) s s4 = (ground arith, ground arith) in
            let i = (document_to_versioned_instruction d).instruction in
            served P L M (to_released payment) release_use subject caller id d (as_released i) _ _ s
              s4 found kept refl refl (release_changed i payment is_single is_taken is_held)
              (λ r. r) allowed h4
