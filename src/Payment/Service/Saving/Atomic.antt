-- ===== src/Payment/Service/Saving/Atomic.antt =====
-- `_save_payment_with_security_event` and `_persist_new_version`: a version and its security event in
-- one transaction.
use policy_pilot.Prelude.{◌≡◌, refl, sym, String, false, Option, [], ◌∷◌, ◌++◌}
use policy_pilot.Prelude.Text.{Text}
use policy_pilot.Prelude.Exec.{Result, ok, bind-ok, Ends}
use policy_pilot.Mongo.{IsLawful}
use policy_pilot.Ledger.Keeping.{ask_ok}
use policy_pilot.Ledger.Atomic
use policy_pilot.Payment.Model.{Time, PaymentAction, Subject, Details, LifecycleEvent, Payment}
use policy_pilot.Payment.Errors.{Error}
use policy_pilot.Payment.Storage.{VersionedPayment}
use policy_pilot.Payment.Repository.{payment_rows-IsVersioned}
use policy_pilot.Payment.Repository.Versions.{document_key}
use policy_pilot.Payment.Platform.{ledger, Platform, Store}
use policy_pilot.Payment.Service.{
  record_event, save_payment_with_security_event, persist_authorized,
}
use policy_pilot.Payment.Service.Saving.{event_key, IsAppended, IsRecorded}

module _ (P : Platform) (L : IsLawful document_key P.Payments)
    (M : IsLawful event_key P.Events) where
  -- If a transaction whose commit fails is rolled back, the save of a later version returns with the
  -- version written, and its security event unless the subject is excluded from those, or raises with the
  -- stored payments and events as they were.
  pub save_all_or_nothing :
      (p : Payment) (action : PaymentAction) (subject : Subject) (details : Details) (s : Store P)
      → Ends
          (λ saved t.
            IsAppended P p s.items saved.0 t.items
            × IsRecorded P action subject details saved.0 s.events t.events)
          (λ _ t. (t.items ≡ s.items) × (t.events ≡ s.events))
          (save_payment_with_security_event P false p action subject details s)
  save_all_or_nothing p action subject details s =
      Atomic.save_all_or_nothing (ledger P) payment_rows-IsVersioned L M p action subject details s

  -- `_persist_new_version` from the authorization on.
  pub persist_authorized_ok :
      (p : Payment) (action : PaymentAction) (subject : Subject) (details : Details) (s : Store P)
      {saved : VersionedPayment × Option Text} {t : Store P}
      → persist_authorized P p action subject details s ≡ (ok saved, t)
      → (event : LifecycleEvent) × (event.action ≡ action)
        × (event.actor_user_id ≡ subject.user_id)
        × IsAppended P
            (record p { lifecycle_events = p.lifecycle_events ++ event ∷ [] })
            s.items
            saved.0
            t.items
        × IsRecorded P action subject details saved.0 s.events t.events
  unfolding persist_authorized record_event
  persist_authorized_ok p action subject details s h = bind-ok _ _ s h λ recorded s1 noted h1.
      bind-ok _ _ s noted λ event_id s2 read_id h2. bind-ok _ _ s2 h2 λ now s3 read_now h3.
        let (p1, e1) = ask_ok (ledger P) P.uuid4 s read_id in
        let (p2, e2) = ask_ok (ledger P) P.now s2 read_now in
        let (appended_, recorded_) =
          Atomic.save-IsAppended_with_event (ledger P) payment_rows-IsVersioned L M recorded action
            subject details s1 h1 in
        let (recorded_is, p3, e3) = last recorded s3 s1 _ h3 in
        (
          event event_id now,
          refl,
          refl,
          rw (sym p1, sym p2, sym p3, sym recorded_is) appended_,
          rw (sym e1, sym e2, sym e3) recorded_,
        )
    where
      event : String → Time → LifecycleEvent
      event event_id now = record {
        event_id = event_id;
        action = action;
        actor_user_id = subject.user_id;
        timestamp = now;
        details = details;
      }

      last :
          (recorded : Payment) (s3 s1 : Store P) (q : Payment)
          → ◌≡◌ {A = Result Error Payment × Store P} (ok q, s3) (ok recorded, s1)
          → (recorded ≡ q) × (s1.items ≡ s3.items) × (s1.events ≡ s3.events)
      last recorded s3 s1 q h3 = (cc, cc, cc)
