-- ===== src/Payment/Lifecycle/Terminal.antt =====
-- Calls on a payment that is approved, rejected or cancelled.
use policy_pilot.Prelude.{
  ◌≡◌, refl, sym, ap, ◌∙◌, Bool, true, false, not, Option, none, some, arith, find?, ◌||◌,
}
use mathlib.Core.Option.{some-injective}
use policy_pilot.Prelude.Text.{Text}
use policy_pilot.Prelude.Exec.{Result, ok, err, raise_if, continue, ◌>>=◌, ◌>>◌}
use policy_pilot.Mongo.{IsLawful}
use policy_pilot.Payment.Model.{PaymentStatus, draft, submitted, status_eq}
use policy_pilot.Payment.Errors.{Error}
use policy_pilot.Payment.Storage.{VersionedPayment, PaymentDocument, document_to_versioned_payment}
use policy_pilot.Versioned.{reading, get_current}
use policy_pilot.Payment.Repository.{is_current_of}
use policy_pilot.Payment.Repository.Versions.{document_key}
use policy_pilot.Payment.Platform.{Platform, Store, Svc}
use policy_pilot.Payment.Service.{get_current_or_404}
use policy_pilot.Payment.Service.Update.{update_body, update_op}
use policy_pilot.Payment.Service.Submit.{submit_body, submit_op}
use policy_pilot.Payment.Service.Approve.{approve_body, approve_op}
use policy_pilot.Payment.Service.Reject.{reject_body, reject_op}
use policy_pilot.Payment.Service.Cancel.{cancel_body, cancel_op}
use policy_pilot.Payment.Service.Steps.{get_current_or_404_ok}
use policy_pilot.Payment.Lifecycle.{
  IsTerminal, approved_terminal, rejected_terminal, cancelled_terminal,
}
use policy_pilot.Payment.Validity.Calls.{
  Call, create_call, update_call, submit_call, approve_call, reject_call, cancel_call, serve,
}

-- The payment that a call names.
abbrev pub target : Call → Option Text
target (create_call i v a subject creds audit) = none
target (update_call id i v a subject creds) = some id
target (submit_call id subject creds audit) = some id
target (approve_call id subject creds audit) = some id
target (reject_call id subject reason creds audit) = some id
target (cancel_call id subject reason creds audit) = some id

not_draft : (x : PaymentStatus) → IsTerminal x → not (status_eq x draft) ≡ true
not_draft x approved_terminal = refl
not_draft x rejected_terminal = refl
not_draft x cancelled_terminal = refl

not_submitted : (x : PaymentStatus) → IsTerminal x → not (status_eq x submitted) ≡ true
not_submitted x approved_terminal = refl
not_submitted x rejected_terminal = refl
not_submitted x cancelled_terminal = refl

not_open :
    (x : PaymentStatus) → IsTerminal x → not (status_eq x draft || status_eq x submitted) ≡ true
not_open x approved_terminal = refl
not_open x rejected_terminal = refl
not_open x cancelled_terminal = refl

module _ (P : Platform) where
  guarded :
      {A : Type 0} (b : Bool) (e : Error) (rest : Svc P A) (s : Store P)
      → b ≡ true
      → (raise_if b e >> rest) s ≡ (err e, s)
  unfolding ◌>>◌ ◌>>=◌
  guarded true e rest s h = refl
  guarded false e rest s h = cc

  guarded_twice :
      {A : Type 0} (b c : Bool) (e f : Error) (rest : Svc P A) (s : Store P)
      → c ≡ true
      → ((raise_if b e >> (raise_if c f >> rest)) s).1.items ≡ s.items
  unfolding ◌>>◌ ◌>>=◌
  guarded_twice true c e f rest s h = refl
  guarded_twice false true e f rest s h = refl
  guarded_twice false false e f rest s h = cc

  get_current_keeps : (id : Text) (s : Store P) → (get_current_or_404 P id s).1.items ≡ s.items
  unfolding get_current_or_404 get_current reading ◌>>=◌
  get_current_keeps id s = ground arith

  continue-gated :
      {A B : Type 0} (f : A → Svc P B) (c : P.Payments.Data) (p : Result Error A × Store P)
      → p.1.items ≡ c
      → ((a : A) (u : Store P) → p ≡ (ok a, u) → (f a u).1.items ≡ c)
      → (continue p.0 f p.1).1.items ≡ c
  continue-gated f c (ok a, u) k stops = stops a u refl
  continue-gated f c (err e, u) k stops = k

  module _ (L : IsLawful document_key P.Payments) where
    -- A body that raises at the open version at once.
    gated :
        (id : Text) (d : PaymentDocument) (body : VersionedPayment → Svc P VersionedPayment)
        (s : Store P)
        → find? (is_current_of id) (P.Payments.docs s.items) ≡ some d
        → ((u : Store P) → (body (document_to_versioned_payment d) u).1.items ≡ u.items)
        → ((get_current_or_404 P id >>= body) s).1.items ≡ s.items
    unfolding ◌>>=◌
    gated id d body s found stops =
        continue-gated body s.items (get_current_or_404 P id s) (get_current_keeps id s)
          λ current u h.
            let (e, found_e, is, k) = get_current_or_404_ok P L id s h in
            let same_row : e ≡ d = some-injective _ _ (sym found_e ∙ found) in
            rw is (rw same_row (stops u ∙ k.0))

    -- A call on a payment whose open version is terminal leaves the payments as they are.
    pub serve-terminal :
        (c : Call) (id : Text) (d : PaymentDocument) (s : Store P)
        → target c ≡ some id
        → find? (is_current_of id) (P.Payments.docs s.items) ≡ some d
        → IsTerminal d.payload.status
        → (serve P c s).items ≡ s.items
    unfolding serve update_op update_body submit_op submit_body approve_op approve_body reject_op
        reject_body cancel_op cancel_body document_to_versioned_payment
    serve-terminal (create_call i v a subject creds audit) id d s is found terminal = cc
    serve-terminal (update_call j i v a subject creds) id d s is found terminal =
        gated j d _ s (rw (some-injective _ _ is) found)
          λ u. ap (λ x. x.1.items) (guarded _ _ _ u (not_draft _ terminal))
    serve-terminal (submit_call j subject creds audit) id d s is found terminal =
        gated j d _ s (rw (some-injective _ _ is) found)
          λ u. ap (λ x. x.1.items) (guarded _ _ _ u (not_draft _ terminal))
    serve-terminal (approve_call j subject creds audit) id d s is found terminal =
        gated j d _ s (rw (some-injective _ _ is) found)
          λ u. ap (λ x. x.1.items) (guarded _ _ _ u (not_submitted _ terminal))
    serve-terminal (reject_call j subject reason creds audit) id d s is found terminal =
        gated j d _ s (rw (some-injective _ _ is) found)
          λ u. ap (λ x. x.1.items) (guarded _ _ _ u (not_submitted _ terminal))
    serve-terminal (cancel_call j subject reason creds audit) id d s is found terminal =
        gated j d _ s (rw (some-injective _ _ is) found)
          λ u. guarded_twice _ _ _ _ _ u (not_open _ terminal)
