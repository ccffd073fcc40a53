-- ===== src/Payment/Lifecycle.antt =====
-- The life of a payment as a relation, and what it means that an operation moved a payment.
pub mod Moves
pub mod Operations
pub mod Submitting
pub mod Approving
pub mod Creating
pub mod Terminal
pub mod Stale
use policy_pilot.Prelude.{
  ℕ, ◌+◌, ◌≡◌, refl, sym, ap, ◌∙◌, String, Bool, true, false, Option, none, some, List, find?,
  find?-some, arith, ◌&&◌, ◌⊎◌, ◌++◌, ◌∷◌, [],
}
use mathlib.Core.Option.{some-injective}
use policy_pilot.Prelude.Text.{Text}
use policy_pilot.Mongo.{IsLawful}
use policy_pilot.Payment.Model.{
  Time, PaymentStatus, draft, submitted, approved, rejected, cancelled, PaymentAction, create,
  update, submit, approve, reject, cancel, Subject, Details, Payment,
}
use policy_pilot.Payment.Storage.{
  VersionedPayment, PaymentDocument, versioned_payment_to_document, document_to_versioned_payment,
}
use policy_pilot.Payment.Storage.Keys.{
  payment_id_from_document_key, payment_id_from_document_key_filtered,
}
use policy_pilot.Payment.Repository.{open_version, is_current_of}
use policy_pilot.Payment.Repository.Versions.{appended, document_key}
use policy_pilot.Payment.Platform.{Credentials, Platform, Store}
use policy_pilot.Payment.Service.Saving.{IsAppended, IsRecorded}
use policy_pilot.Payment.Service.Authorizing.{IsAllowed}

-- The changes of status that an action may make.
pub data Step : PaymentAction → PaymentStatus → PaymentStatus → Type 0 where
  updates : Step update draft draft
  submits : Step submit draft submitted
  approves : Step approve submitted approved
  rejects : Step reject submitted rejected
  cancels_draft : Step cancel draft cancelled
  cancels_submitted : Step cancel submitted cancelled

-- The statuses that no action leaves.
pub data IsTerminal : PaymentStatus → Type 0 where
  approved_terminal : IsTerminal approved
  rejected_terminal : IsTerminal rejected
  cancelled_terminal : IsTerminal cancelled

pub Step-IsTerminal : {a : PaymentAction} {x y : PaymentStatus} → Step a x y → ¬ (IsTerminal x)
Step-IsTerminal updates t = elim t [ ]
Step-IsTerminal submits t = elim t [ ]
Step-IsTerminal approves t = elim t [ ]
Step-IsTerminal rejects t = elim t [ ]
Step-IsTerminal cancels_draft t = elim t [ ]
Step-IsTerminal cancels_submitted t = elim t [ ]

module _ (P : Platform) (L : IsLawful document_key P.Payments) where
  -- The payment `id` was moved by `action`: its open version was closed, the next version was
  -- added, with a status that the action may reach, and the security event stands beside it.
  pub record IsMoved (action : PaymentAction) (subject : Subject) (id : Text) (s : Store P)
      (saved : VersionedPayment) (t : Store P) : Type 0 where
    pub current : PaymentDocument
    pub found : find? (is_current_of id) (P.Payments.docs s.items) ≡ some current
    pub step : Step action current.payload.status saved.payment.status
    pub number : saved.version_number ≡ current.version_number + 1
    pub payment_id : saved.payment.payment_id ≡ id
    pub at : Time
    pub stored :
        P.Payments.docs t.items
        ≡ appended current
            (versioned_payment_to_document saved.payment saved.version_number at)
            at
            (P.Payments.docs s.items)
    pub details : Details
    pub recorded : IsRecorded P action subject details saved s.events t.events

  -- The policy engine allowed the action, on a payment with the identifier `id`.
  pub record IsPermitted (action : PaymentAction) (subject : Subject) (id : Text)
      (creds : Credentials) : Type 0 where
    pub judged : Payment
    pub payment_id : judged.payment_id ≡ id
    pub end_date : String
    pub status : String
    pub allowed : IsAllowed P action subject judged end_date status creds

  -- From the pieces that every operation ends with.
  pub moved :
      (action : PaymentAction) (subject : Subject) (id : Text) (s t : Store P) (d : PaymentDocument)
      (q : Payment) (details : Details) (saved : VersionedPayment)
      → find? (is_current_of id) (P.Payments.docs s.items) ≡ some d
      → q.payment_id ≡ (document_to_versioned_payment d).payment.payment_id
      → Step action d.payload.status q.status
      → IsAppended P q s.items saved t.items
      → IsRecorded P action subject details saved s.events t.events
      → IsMoved action subject id s saved t
  unfolding document_to_versioned_payment
  moved action subject id s t d q details saved found same_id step a recorded =
      let key_id : q.payment_id ≡ id =
        same_id
        ∙ payment_id_from_document_key_filtered id d.document_id
            (ground (arith, find?-some (is_current_of id) (P.Payments.docs s.items) found)) in
      let row_is : a.row ≡ d = some-injective _ _ (
        sym a.found ∙ ap (λ i. find? (is_current_of i) (P.Payments.docs s.items)) key_id ∙ found) in
      record {
        current = d;
        found = found;
        step = rw a.saved_is step;
        number = rw a.saved_is (ap (λ x. x.version_number + 1) row_is);
        payment_id = rw a.saved_is key_id;
        at = a.at;
        stored = rw a.saved_is (rw (sym row_is) a.stored);
        details = details;
        recorded = recorded;
      }
