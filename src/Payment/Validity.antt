-- ===== src/Payment/Validity.antt =====
-- The coroutines of `PaymentService` as transformers of the stored payments: one keeps every version
-- chain valid, whether it returns or raises.
pub mod Operations
pub mod Calls
use policy_pilot.Prelude.{◌≡◌, Option, Bool, arith}
use policy_pilot.Prelude.Text.{Text}
use policy_pilot.Prelude.Exec.{Result, pure, raise, raise_if, or_raise, ◌>>=◌, ◌>>◌}
use policy_pilot.Payment.Errors.{Error}
use policy_pilot.Payment.Events.{SecurityEventDocument}
use policy_pilot.Mongo.{IsLawful}
use policy_pilot.Payment.Model.{PaymentAction, Subject, Details, Payment}
use policy_pilot.Payment.Storage.{VersionedPayment}
use policy_pilot.Versioned.{reading, get_current}
use policy_pilot.Ledger.Validity
use policy_pilot.Payment.Repository.{payment_rows-IsVersioned, Query, list_current}
use policy_pilot.Payment.Repository.Versions.{document_key, IsValid}
use policy_pilot.Payment.Platform.{
  ledger, Platform, Store, Svc, ask, call_out, check, attempt, on_payments,
}
use policy_pilot.Payment.Service.{
  when, allocate_event_id, insert_document, save_payment_with_security_event, get_current_or_404,
}

module _ (P : Platform) where
  abbrev pub IsSound : Store P → Type 0
  IsSound s = IsValid (P.Payments.docs s.items)

  -- A coroutine that leaves every version chain valid, however it ends.
  abbrev pub Preserves : {A : Type 0} → Svc P A → Type 0
  Preserves = Validity.Preserves (ledger P)

  pub Preserves-ask : {A : Type 0} (call : P.World → A × P.World) → Preserves (ask P call)
  Preserves-ask call = Validity.Preserves-ask (ledger P) call

  pub Preserves-call_out :
      {A : Type 0} (call : P.World → Result Error A × P.World) → Preserves (call_out P call)
  Preserves-call_out call = Validity.Preserves-call_out (ledger P) call

  pub Preserves-check : {A : Type 0} (r : Result Error A) → Preserves (check P r)
  Preserves-check r = Validity.Preserves-check (ledger P) r

  pub Preserves-pure : {A : Type 0} (a : A) → Preserves {A = A} (pure a)
  Preserves-pure a = Validity.Preserves-pure (ledger P) a

  pub Preserves-raise : {A : Type 0} (e : Error) → Preserves {A = A} (raise e)
  Preserves-raise e = Validity.Preserves-raise (ledger P) e

  pub Preserves-raise_if : (b : Bool) (e : Error) → Preserves (raise_if b e)
  Preserves-raise_if b e = Validity.Preserves-raise_if (ledger P) b e

  pub Preserves-or_raise : {A : Type 0} (o : Option A) (e : Error) → Preserves (or_raise o e)
  Preserves-or_raise o e = Validity.Preserves-or_raise (ledger P) o e

  pub Preserves-when : (b : Bool) (m : Svc P (Unit {0})) → Preserves m → Preserves (when P b m)
  Preserves-when b m k = Validity.Preserves-when (ledger P) b m k

  pub Preserves-attempt : {A : Type 0} (m : Svc P A) → Preserves m → Preserves (attempt P m)
  Preserves-attempt m k = Validity.Preserves-attempt (ledger P) m k

  pub Preserves-bind :
      {A B : Type 0} (m : Svc P A) (f : A → Svc P B)
      → Preserves m
      → ((a : A) → Preserves (f a))
      → Preserves (m >>= f)
  Preserves-bind m f km kf = Validity.Preserves-bind (ledger P) m f km kf

  pub Preserves-then :
      {A B : Type 0} (m : Svc P A) (n : Svc P B) → Preserves m → Preserves n → Preserves (m >> n)
  Preserves-then m n km kn = Validity.Preserves-then (ledger P) m n km kn

  pub Preserves-allocate_event_id : (id : Text) → Preserves (allocate_event_id P id)
  Preserves-allocate_event_id id = Validity.Preserves-allocate_event_id (ledger P) id

  pub Preserves-insert_document : (d : SecurityEventDocument) → Preserves (insert_document P d)
  Preserves-insert_document d = Validity.Preserves-insert_document (ledger P) d

  pub Preserves-list_current : (q : Query) → Preserves (on_payments P (list_current P.Payments q))
  unfolding list_current reading ◌>>=◌
  Preserves-list_current q = Validity.Preserves-same (ledger P) _ λ s. ground arith

  pub Preserves-get_current_or_404 : (id : Text) → Preserves (get_current_or_404 P id)
  unfolding get_current_or_404 get_current reading ◌>>=◌
  Preserves-get_current_or_404 id = Validity.Preserves-same (ledger P) _ λ s. ground arith

  module _ (L : IsLawful document_key P.Payments) where
    pub Preserves-save :
        (initial : Bool) (p : Payment) (action : PaymentAction) (subject : Subject)
        (details : Details)
        → Preserves (save_payment_with_security_event P initial p action subject details)
    Preserves-save initial p action subject details =
        Validity.Preserves-save (ledger P) payment_rows-IsVersioned L initial p action subject
          details
