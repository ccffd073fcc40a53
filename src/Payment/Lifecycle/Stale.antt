-- ===== src/Payment/Lifecycle/Stale.antt =====
-- An operation of ps/service.py whose checked version is no longer the open one: `append_version` of
-- ps/repository.py reads the open version again.
use policy_pilot.Prelude.{◌+◌, ◌≡◌, sym, ap, ◌∙◌, String, Option, some, arith, find?}
use mathlib.Core.Option.{some-injective}
use policy_pilot.Prelude.Exec.{ok, raise_if_ok, bind-ok, then-ok}
use policy_pilot.Mongo.{IsLawful}
use policy_pilot.Payment.Model.{cancelled, cancel, Subject}
use policy_pilot.Payment.Storage.{VersionedPayment, PaymentDocument}
use policy_pilot.Payment.Repository.{is_current_of}
use policy_pilot.Payment.Repository.Versions.{document_key}
use policy_pilot.Ledger.Keeping.{ask_ok, pure_ok}
use policy_pilot.Payment.Platform.{ledger, Credentials, Platform, Store}
use policy_pilot.Payment.Service.Saving.{event_key}
use policy_pilot.Payment.Service.Saving.Atomic.{persist_authorized_ok}
use policy_pilot.Payment.Service.Authorizing.{authorize_ok}
use policy_pilot.Payment.Service.Steps.{SameData, get_backing_ok}
use policy_pilot.Payment.Service.Cancel.{cancel_body}

module _ (P : Platform) (L : IsLawful document_key P.Payments)
    (M : IsLawful event_key P.Events) where
  -- A cancellation that checked `current` writes its version after the open version `d`, whatever the
  -- number and the status of `d` are by then.
  pub cancel_body_stale :
      (current : VersionedPayment) (subject : Subject) (reason : Option String)
      (creds : Credentials) (audit : Option String) (s : Store P) (d : PaymentDocument)
      {saved : VersionedPayment} {t : Store P}
      → find? (is_current_of current.payment.payment_id) (P.Payments.docs s.items) ≡ some d
      → cancel_body P current subject reason creds audit s ≡ (ok saved, t)
      → (saved.payment.status ≡ cancelled) × (saved.version_number ≡ d.version_number + 1)
  unfolding cancel_body
  cancel_body_stale current subject reason creds audit s d {saved} {t} found h =
      then-ok _ _ s h λ _ s0 not_cancelled h0. then-ok _ _ s0 h0 λ _ s1 is_open h1.
        bind-ok _ _ s1 h1 λ instruction s2 fetched h2. bind-ok _ _ s2 h2 λ block s3 authorized h3.
          bind-ok _ _ s3 h3 λ now s4 read h4. bind-ok _ _ s4 h4 λ written s5 persisted h5.
            then-ok _ _ s5 h5 λ _ s6 linked h6. then-ok _ _ s6 h6 λ _ s7 released h7.
              let (_, k0) = raise_if_ok _ _ s not_cancelled in
              let (_, k1) = raise_if_ok _ _ s0 is_open in
              let k2 = get_backing_ok P _ creds s1 fetched in
              let (allowed, p3, e3) = authorize_ok P cancel subject _ _ _ creds s2 authorized in
              let k4 = ask_ok (ledger P) P.now s3 read in
              let kept : SameData P s s4 = ground arith in
              let (event, _, _, a, _) =
                persist_authorized_ok P L M _ cancel subject _ s4 persisted in
              let (is, _) = pure_ok (ledger P) _ s7 h7 in
              let row_is : a.row ≡ d = some-injective _ _ (
                sym a.found
                ∙ ap (λ c. find? (is_current_of current.payment.payment_id) (P.Payments.docs c))
                    kept.0
                ∙ found) in
              (
                ap (λ x. x.payment.status) (is ∙ a.saved_is),
                ap (λ x. x.version_number) (is ∙ a.saved_is)
                    ∙ ap (λ x. x.version_number + 1) row_is,
              )
