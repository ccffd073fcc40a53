-- ===== src/Payment/Lifecycle/Operations.antt =====
-- The operations of `PaymentService` that change a payment: what each has done when it returns.
use policy_pilot.Prelude.{◌≡◌, refl, String, false, not, Option, some, arith, find?, ◌||◌}
use policy_pilot.Prelude.Text.{Text}
use policy_pilot.Prelude.Exec.{ok, raise_if_ok, bind-ok, then-ok}
use policy_pilot.Mongo.{IsLawful}
use policy_pilot.Payment.Model.{
  PaymentStatus, draft, submitted, approved, rejected, cancelled, reject, cancel, Amount, Subject,
  Payment, status_eq,
}
use policy_pilot.Payment.Storage.{VersionedPayment, PaymentDocument, document_to_versioned_payment}
use policy_pilot.Payment.Repository.{is_current_of}
use policy_pilot.Payment.Repository.Versions.{document_key}
use policy_pilot.Ledger.Keeping.{ask_ok, pure_ok}
use policy_pilot.Payment.Platform.{ledger, Credentials, Platform, Store}
use policy_pilot.Payment.Service.Saving.{event_key}
use policy_pilot.Payment.Service.Authorizing.{authorize_ok}
use policy_pilot.Payment.Service.Steps.{SameData, get_backing_ok, link_ok, try_release_ok}
use policy_pilot.Payment.Service.Cancel.{cancel_body, cancel_op}
use policy_pilot.Payment.Service.Reject.{reject_body, reject_op}
use policy_pilot.Payment.Lifecycle.{
  Step, rejects, cancels_draft, cancels_submitted, IsMoved, IsPermitted,
}
use policy_pilot.Payment.Lifecycle.Moves.{
  status_is, IsMoved-around, permitted, on_current, persist_authorized-IsMoved,
  persist_new_version-IsMoved,
}

module _ (P : Platform) (L : IsLawful document_key P.Payments)
    (M : IsLawful event_key P.Events) where
  -- The payment is on the given instruction, with the given date and amount.
  abbrev pub HasTerms : Text → String → Amount → Payment → Type 0
  HasTerms instruction_id value_date amount p =
      (p.instruction_id ≡ instruction_id) × (p.value_date ≡ value_date) × (p.amount ≡ amount)

  reject_body_ok :
      (d : PaymentDocument) (subject : Subject) (reason : String) (creds : Credentials)
      (audit : Option String) (id : Text) (s : Store P) {saved : VersionedPayment} {t : Store P}
      → find? (is_current_of id) (P.Payments.docs s.items) ≡ some d
      → reject_body P (document_to_versioned_payment d) subject reason creds audit s ≡ (ok saved, t)
      → IsMoved P L reject subject id s saved t × IsPermitted P L reject subject id creds
  unfolding reject_body document_to_versioned_payment
  reject_body_ok d subject reason creds audit id s found h = then-ok _ _ s h λ _ s1 is_submitted h1.
      bind-ok _ _ s1 h1 λ instruction s2 fetched h2. bind-ok _ _ s2 h2 λ now s3 read h3.
        bind-ok _ _ s3 h3 λ written s4 persisted h4. then-ok _ _ s4 h4 λ _ s5 linked h5.
          then-ok _ _ s5 h5 λ _ s6 released h6.
            let (was_submitted, k1) = raise_if_ok _ _ s is_submitted in
            let k2 = get_backing_ok P _ creds s1 fetched in
            let k3 = ask_ok (ledger P) P.now s2 read in
            let kept : SameData P s s3 = ground arith in
            let was : d.payload.status ≡ submitted = status_is _ _ was_submitted in
            let (m, allowed) =
              persist_new_version-IsMoved P L M _ reject subject _ _ _ creds id s3 d
                (rw kept.0 found) refl (rw was rejects) persisted in
            let k5 = link_ok P _ _ _ subject s4 linked in
            let k6 = try_release_ok P _ creds s5 released in
            let (is, k7) = pure_ok (ledger P) _ s6 h6 in
            (IsMoved-around P L kept m (ground arith) is, permitted P L s _ _ _ found refl allowed)

  cancel-Step :
      (x : PaymentStatus)
      → not (status_eq x draft || status_eq x submitted) ≡ false
      → Step cancel x cancelled
  cancel-Step draft h = cancels_draft
  cancel-Step submitted h = cancels_submitted
  cancel-Step approved h = ground arith
  cancel-Step rejected h = ground arith
  cancel-Step cancelled h = ground arith

  cancel_body_ok :
      (d : PaymentDocument) (subject : Subject) (reason : Option String) (creds : Credentials)
      (audit : Option String) (id : Text) (s : Store P) {saved : VersionedPayment} {t : Store P}
      → find? (is_current_of id) (P.Payments.docs s.items) ≡ some d
      → cancel_body P (document_to_versioned_payment d) subject reason creds audit s ≡ (ok saved, t)
      → IsMoved P L cancel subject id s saved t × IsPermitted P L cancel subject id creds
  unfolding cancel_body document_to_versioned_payment
  cancel_body_ok d subject reason creds audit id s found h =
      then-ok _ _ s h λ _ s0 not_cancelled h0. then-ok _ _ s0 h0 λ _ s1 is_open h1.
        bind-ok _ _ s1 h1 λ instruction s2 fetched h2. bind-ok _ _ s2 h2 λ block s3 authorized h3.
          bind-ok _ _ s3 h3 λ now s4 read h4. bind-ok _ _ s4 h4 λ written s5 persisted h5.
            then-ok _ _ s5 h5 λ _ s6 linked h6. then-ok _ _ s6 h6 λ _ s7 released h7.
              let (_, k0) = raise_if_ok _ _ s not_cancelled in
              let (was_open, k1) = raise_if_ok _ _ s0 is_open in
              let k2 = get_backing_ok P _ creds s1 fetched in
              let (allowed, p3, e3) = authorize_ok P cancel subject _ _ _ creds s2 authorized in
              let k4 = ask_ok (ledger P) P.now s3 read in
              let kept : SameData P s s4 = ground arith in
              let m =
                persist_authorized-IsMoved P L M _ cancel subject _ id s4 d (rw kept.0 found) refl
                  (cancel-Step _ was_open) persisted in
              let k6 = link_ok P _ _ _ subject s5 linked in
              let k7 = try_release_ok P _ creds s6 released in
              let (is, k8) = pure_ok (ledger P) _ s7 h7 in
              (
                IsMoved-around P L kept m (ground arith) is,
                permitted P L s _ _ _ found refl allowed,
              )

  -- A rejection that returns was permitted and has moved the submitted payment to REJECTED, with its
  -- security event, unless the subject is excluded from those.
  pub reject_op-IsMoved :
      (id : Text) (subject : Subject) (reason : String) (creds : Credentials)
      (audit : Option String) (s : Store P) {saved : VersionedPayment} {t : Store P}
      → reject_op P id subject reason creds audit s ≡ (ok saved, t)
      → IsMoved P L reject subject id s saved t × IsPermitted P L reject subject id creds
  unfolding reject_op
  reject_op-IsMoved id subject reason creds audit s h =
      on_current P L _ s (λ d u. reject_body_ok d subject reason creds audit id u) h

  -- A cancellation that returns was permitted and has moved the draft or submitted payment to CANCELLED,
  -- with its security event, unless the subject is excluded from those.
  pub cancel_op-IsMoved :
      (id : Text) (subject : Subject) (reason : Option String) (creds : Credentials)
      (audit : Option String) (s : Store P) {saved : VersionedPayment} {t : Store P}
      → cancel_op P id subject reason creds audit s ≡ (ok saved, t)
      → IsMoved P L cancel subject id s saved t × IsPermitted P L cancel subject id creds
  unfolding cancel_op
  cancel_op-IsMoved id subject reason creds audit s h =
      on_current P L _ s (λ d u. cancel_body_ok d subject reason creds audit id u) h
