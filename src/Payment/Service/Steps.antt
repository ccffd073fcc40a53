-- ===== src/Payment/Service/Steps.antt =====
-- Inversions of the helpers that every operation of `PaymentService` is built from.
use policy_pilot.Prelude.{
  ◌∙◌, ◌≡◌, refl, sym, ap, String, Option, none, some, arith, [], ◌∷◌, ◌++◌, find?,
}
use policy_pilot.Prelude.Text.{Text}
use policy_pilot.Prelude.Exec.{ok, ◌>>=◌, ◌>>◌, bind-ok}
use policy_pilot.Mongo.{IsLawful}
use policy_pilot.Ledger.{attempt}
use policy_pilot.Payment.Model.{
  PaymentAction, Subject, Details, LifecycleEvent, AuthorizationBlock, Payment,
}
use policy_pilot.Payment.Authorization.{details_with_authorization}
use policy_pilot.Payment.Storage.{VersionedPayment, PaymentDocument, document_to_versioned_payment}
use policy_pilot.Payment.Repository.{is_current_of, get_current}
use policy_pilot.Payment.Repository.Versions.{document_key, get_current_ok}
use policy_pilot.Payment.Instruction.{InstructionJson}
use policy_pilot.Ledger.Keeping
use policy_pilot.Payment.Platform.{ledger, Credentials, Platform, Store, Svc}
use policy_pilot.Payment.Client.{
  log_in_if, auth_headers, exchange, get_instruction, mark_used, release_use,
}
use policy_pilot.Payment.Service.{
  persist_new_version, link_audit_execution, try_release_single_use_instruction, get_current_or_404,
}
use policy_pilot.Payment.Service.Saving.{event_key, IsAppended, IsRecorded}
use policy_pilot.Payment.Service.Saving.Atomic.{persist_authorized_ok}
use policy_pilot.Payment.Service.Authorizing.{IsAllowed, authorize_ok}
use policy_pilot.Payment.Service.Update.{get_backing}

module _ (P : Platform) where
  abbrev pub SameData : Store P → Store P → Type 0
  SameData = Keeping.SameData (ledger P)

  abbrev pub Keeps : {A : Type 0} → Svc P A → Type 0
  Keeps = Keeping.Keeps (ledger P)

  auth_headers_keeps : (creds : Credentials) (s : Store P) → SameData s (auth_headers P creds s).1
  unfolding auth_headers ◌>>=◌ ◌>>◌ log_in_if
  auth_headers_keeps creds s = ground arith

  exchange_keeps : (r : _) (creds : Credentials) (s : Store P) → SameData s (exchange P r creds s).1
  unfolding exchange
  exchange_keeps r creds s = ground arith

  Keeps-auth_headers : (creds : Credentials) → Keeps (auth_headers P creds)
  Keeps-auth_headers creds = record { at = auth_headers_keeps creds }

  Keeps-exchange : (r : _) (creds : Credentials) → Keeps (exchange P r creds)
  Keeps-exchange r creds = record { at = exchange_keeps r creds }

  ruleset keeps_rules = (Keeps-auth_headers, Keeps-exchange, Keeping.keeping)

  pub Keeps-get_instruction : (id : Text) (creds : Credentials) → Keeps (get_instruction P id creds)
  unfolding get_instruction
  Keeps-get_instruction id creds = search keeps_rules

  pub Keeps-mark_used : (id pid : Text) (creds : Credentials) → Keeps (mark_used P id pid creds)
  unfolding mark_used
  Keeps-mark_used id pid creds = search keeps_rules depth 8

  pub Keeps-release_use : (id pid : Text) (creds : Credentials) → Keeps (release_use P id pid creds)
  unfolding release_use
  Keeps-release_use id pid creds = search keeps_rules depth 8

  pub get_backing_ok :
      (id : Text) (creds : Credentials) (s : Store P) {i : InstructionJson} {t : Store P}
      → get_backing P id creds s ≡ (ok i, t)
      → SameData s t
  unfolding get_backing
  get_backing_ok id creds s h =
      ground (arith, ap (λ x. x.1) h, (Keeps-get_instruction id creds).at s)

  -- Releasing an instruction writes nothing here and never raises.
  pub try_release_keeps :
      (p : Payment) (creds : Credentials) (s : Store P)
      → ((try_release_single_use_instruction P p creds s).0 ≡ ok tt)
        × SameData s (try_release_single_use_instruction P p creds s).1
  unfolding try_release_single_use_instruction attempt ◌>>◌ ◌>>=◌
  try_release_keeps p creds s =
      ground (arith, (Keeps-release_use p.instruction_id p.payment_id creds).at s)

  pub try_release_ok :
      (p : Payment) (creds : Credentials) (s : Store P) {u : Unit {0}} {t : Store P}
      → try_release_single_use_instruction P p creds s ≡ (ok u, t)
      → SameData s t
  try_release_ok p creds s h = ground (arith, ap (λ x. x.1) h, try_release_keeps p creds s)

  pub link_ok :
      (audit : Option String) (event : Option Text) (id : Text) (subject : Subject) (s : Store P)
      {u : Unit {0}} {t : Store P}
      → link_audit_execution P audit event id subject s ≡ (ok u, t)
      → SameData s t
  unfolding link_audit_execution
  link_ok audit event id subject s h = ground (arith, ap (λ x. x.1) h)

  -- Without an audit execution there is nothing that can fail.
  pub link_none :
      (event : Option Text) (id : Text) (subject : Subject) (s : Store P)
      → link_audit_execution P none event id subject s ≡ (ok tt, s)
  unfolding link_audit_execution
  link_none event id subject s = refl

  module _ (L : IsLawful document_key P.Payments) where
    -- `_get_current_or_404` returns the open version of the payment, and writes nothing.
    pub get_current_or_404_ok :
        (id : Text) (s : Store P) {current : VersionedPayment} {t : Store P}
        → get_current_or_404 P id s ≡ (ok current, t)
        → (d : PaymentDocument) × (find? (is_current_of id) (P.Payments.docs s.items) ≡ some d)
          × (current ≡ document_to_versioned_payment d)
          × SameData s t
    unfolding get_current_or_404
    get_current_or_404_ok id s {current} {t} h =
        let inner : get_current P.Payments id s.items ≡ (ok current, t.items) = ground arith in
        let (d, found, is, same_payments) = get_current_ok P.Payments L id s.items inner in
        (d, found, is, (same_payments, ground arith))

    -- It changes nothing at all.
    pub get_current_or_404_same :
        (id : Text) (s : Store P) {current : VersionedPayment} {t : Store P}
        → get_current_or_404 P id s ≡ (ok current, t)
        → t ≡ s
    unfolding get_current_or_404
    get_current_or_404_same id s {current} {t} h =
        let inner : get_current P.Payments id s.items ≡ (ok current, t.items) = ground arith in
        let (d, found, is, same_payments) = get_current_ok P.Payments L id s.items inner in
        let stored : t ≡ record s { items = (get_current P.Payments id s.items).1 } =
          ground arith in
        stored ∙ ap (λ c. record s { items = c }) (ap (λ r. r.1) inner ∙ same_payments)

    module _ (M : IsLawful event_key P.Events) where
      pub persist_new_version_ok :
          (p : Payment) (action : PaymentAction) (subject : Subject) (details : Option Details)
          (end_date status : String) (creds : Credentials) (s : Store P)
          {saved : VersionedPayment × Option Text} {t : Store P}
          → persist_new_version P p action subject details end_date status creds s ≡ (ok saved, t)
          → IsAllowed P action subject p end_date status creds
            × (event : LifecycleEvent) × (block : AuthorizationBlock) × (event.action ≡ action)
            × (event.actor_user_id ≡ subject.user_id)
            × IsAppended P
                (record p { lifecycle_events = p.lifecycle_events ++ event ∷ [] })
                s.items
                saved.0
                t.items
            × IsRecorded P action subject
                (details_with_authorization details block)
                saved.0
                s.events
                t.events
      unfolding persist_new_version
      persist_new_version_ok p action subject details end_date status creds s h =
          bind-ok _ _ s h λ block s1 authorized h1.
            let (allowed, p1, e1) =
              authorize_ok P action subject p end_date status creds s authorized in
            let (event, is, by, appended_, recorded_) =
              persist_authorized_ok P L M p action subject _ s1 h1 in
            (allowed, event, block, is, by, rw (sym p1) appended_, rw (sym e1) recorded_)
