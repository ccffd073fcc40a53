-- ===== src/Payment/Lifecycle/Moves.antt =====
-- The last steps that the operations of `PaymentService` share: a version written by
-- `_persist_new_version` moves its payment.
use policy_pilot.Prelude.{
  ◌≡◌, refl, sym, ap, ◌∙◌, String, false, not, Option, some, arith, find?, find?-some,
}
use policy_pilot.Prelude.Text.{Text}
use policy_pilot.Prelude.Exec.{Result, ok, ◌>>=◌, bind-ok}
use policy_pilot.Mongo.{IsLawful}
use policy_pilot.Payment.Model.{PaymentStatus, PaymentAction, Subject, Details, Payment, status_eq}
use policy_pilot.Payment.Errors.{Error}
use policy_pilot.Payment.Storage.{VersionedPayment, PaymentDocument, document_to_versioned_payment}
use policy_pilot.Payment.Repository.{is_current_of}
use policy_pilot.Payment.Storage.Keys.{payment_id_from_document_key_filtered}
use policy_pilot.Payment.Repository.Versions.{document_key}
use policy_pilot.Payment.Platform.{Credentials, Platform, Store}
use policy_pilot.Payment.Service.{persist_authorized, persist_new_version, get_current_or_404}
use policy_pilot.Payment.Service.Saving.{event_key}
use policy_pilot.Payment.Service.Saving.Atomic.{persist_authorized_ok}
use policy_pilot.Payment.Service.Authorizing.{IsAllowed}
use policy_pilot.Payment.Service.Steps.{SameData, persist_new_version_ok, get_current_or_404_ok}
use policy_pilot.Payment.Lifecycle.{Step, IsMoved, IsPermitted, moved}

pub status_is : (x y : PaymentStatus) → not (status_eq x y) ≡ false → x ≡ y
status_is x y h = ground arith

module _ (P : Platform) where
  module _ (L : IsLawful document_key P.Payments) where
    -- What happens after the write does not touch the stored data.
    pub IsMoved-SameData :
        {action : PaymentAction} {subject : Subject} {id : Text} {s t u : Store P}
        {saved : VersionedPayment}
        → IsMoved P L action subject id s saved t
        → SameData P t u
        → IsMoved P L action subject id s saved u
    IsMoved-SameData m (p, e) = record {
      current = m.current;
      found = m.found;
      step = m.step;
      number = m.number;
      payment_id = m.payment_id;
      at = m.at;
      stored = rw p m.stored;
      details = m.details;
      recorded = rw e m.recorded;
    }

    -- What happens before it neither.
    pub SameData-IsMoved :
        {action : PaymentAction} {subject : Subject} {id : Text} {s t u : Store P}
        {saved : VersionedPayment}
        → SameData P s t
        → IsMoved P L action subject id t saved u
        → IsMoved P L action subject id s saved u
    SameData-IsMoved (p, e) m = record {
      current = m.current;
      found = rw (sym p) m.found;
      step = m.step;
      number = m.number;
      payment_id = m.payment_id;
      at = m.at;
      stored = rw (sym p) m.stored;
      details = m.details;
      recorded = rw (sym e) m.recorded;
    }

    -- An operation around its write: nothing else touches the stored data.
    pub IsMoved-around :
        {action : PaymentAction} {subject : Subject} {id : Text} {s t u v : Store P}
        {written saved : VersionedPayment}
        → SameData P s t
        → IsMoved P L action subject id t written u
        → SameData P u v
        → saved ≡ written
        → IsMoved P L action subject id s saved v
    IsMoved-around before m after is = rw is (SameData-IsMoved before (IsMoved-SameData m after))

    -- Permission is for the payment that was moved.
    pub permitted :
        {action : PaymentAction} {subject : Subject} {id : Text} {creds : Credentials} (s : Store P)
        {d : PaymentDocument} (q : Payment) (end_date status : String)
        → find? (is_current_of id) (P.Payments.docs s.items) ≡ some d
        → q.payment_id ≡ (document_to_versioned_payment d).payment.payment_id
        → IsAllowed P action subject q end_date status creds
        → IsPermitted P L action subject id creds
    unfolding document_to_versioned_payment
    permitted {id = id} s {d = d} q end_date status found same_id allowed = record {
      judged = q;
      payment_id =
          same_id
          ∙ payment_id_from_document_key_filtered id d.document_id
              (ground (arith, find?-some (is_current_of id) (P.Payments.docs s.items) found));
      end_date = end_date;
      status = status;
      allowed = allowed;
    }

    -- A body that is run on the open version, wherever `_get_current_or_404` finds it.
    pub on_current :
        {action : PaymentAction} {subject : Subject} {id : Text} {saved : VersionedPayment}
        {Q : Type 0} (body : VersionedPayment → Store P → Result Error VersionedPayment × Store P)
        (s : Store P) {t : Store P}
        → ((d : PaymentDocument) (u : Store P)
            → find? (is_current_of id) (P.Payments.docs u.items) ≡ some d
            → body (document_to_versioned_payment d) u ≡ (ok saved, t)
            → IsMoved P L action subject id u saved t × Q)
        → (get_current_or_404 P id >>= body) s ≡ (ok saved, t)
        → IsMoved P L action subject id s saved t × Q
    on_current {id = id} {saved = saved} body s {t} done h = bind-ok _ _ s h λ current u read h1.
        let (d, found, is, kept) = get_current_or_404_ok P L id s read in
        let (m, q) = done d u (rw kept.0 found) (rw is at h1) in
        (IsMoved-around kept m (refl, refl) refl, q)

    module _ (M : IsLawful event_key P.Events) where
      pub persist_authorized-IsMoved :
          (q : Payment) (action : PaymentAction) (subject : Subject) (details : Details) (id : Text)
          (s : Store P) (d : PaymentDocument) {saved : VersionedPayment × Option Text} {t : Store P}
          → find? (is_current_of id) (P.Payments.docs s.items) ≡ some d
          → q.payment_id ≡ (document_to_versioned_payment d).payment.payment_id
          → Step action d.payload.status q.status
          → persist_authorized P q action subject details s ≡ (ok saved, t)
          → IsMoved P L action subject id s saved.0 t
      persist_authorized-IsMoved q action subject details id s d {saved} {t} found same_id step h =
          let (event, is, by, appended_, recorded_) =
            persist_authorized_ok P L M q action subject details s h in
          moved P L action subject id s t d _ details saved.0 found same_id step appended_ recorded_

      pub persist_new_version-IsMoved :
          (q : Payment) (action : PaymentAction) (subject : Subject) (details : Option Details)
          (end_date status : String) (creds : Credentials) (id : Text) (s : Store P)
          (d : PaymentDocument) {saved : VersionedPayment × Option Text} {t : Store P}
          → find? (is_current_of id) (P.Payments.docs s.items) ≡ some d
          → q.payment_id ≡ (document_to_versioned_payment d).payment.payment_id
          → Step action d.payload.status q.status
          → persist_new_version P q action subject details end_date status creds s ≡ (ok saved, t)
          → IsMoved P L action subject id s saved.0 t
            × IsAllowed P action subject q end_date status creds
      persist_new_version-IsMoved q action subject details end_date status creds id s d {saved} {t}
            found same_id step h =
          let (allowed, event, block, is, by, appended_, recorded_) =
            persist_new_version_ok P L M q action subject details end_date status creds s h in
          (
            moved P L action subject id s t d _ _ saved.0 found same_id step appended_ recorded_,
            allowed,
          )

      -- What is written is the given payment, on the same instruction, with the same amount and date.
      pub persist_new_version-amount :
          (q : Payment) (action : PaymentAction) (subject : Subject) (details : Option Details)
          (end_date status : String) (creds : Credentials) (s : Store P)
          {saved : VersionedPayment × Option Text} {t : Store P}
          → persist_new_version P q action subject details end_date status creds s ≡ (ok saved, t)
          → (saved.0.payment.amount ≡ q.amount)
            × (saved.0.payment.value_date ≡ q.value_date)
            × (saved.0.payment.instruction_id ≡ q.instruction_id)
      persist_new_version-amount q action subject details end_date status creds s h =
          let (allowed, event, block, is, by, appended_, recorded_) =
            persist_new_version_ok P L M q action subject details end_date status creds s h in
          (
            ap (λ v. v.payment.amount) appended_.saved_is,
            ap (λ v. v.payment.value_date) appended_.saved_is,
            ap (λ v. v.payment.instruction_id) appended_.saved_is,
          )
