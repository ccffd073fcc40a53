-- ===== src/Ledger/Failsafe.antt =====
-- Coroutines over a ledger that leave the stored versions as they were: always, or when they raise.
use policy_pilot.Prelude.{◌≡◌, refl, sym, ap, ◌∙◌, Bool, true, false, Option, none, some}
use policy_pilot.Prelude.Text.{Text}
use policy_pilot.Prelude.Exec.{
  Result, ok, err, Exec, pure, raise_if, or_raise, continue, ◌>>=◌, ◌>>◌,
}
use policy_pilot.Ledger.{
  Ledger, Store, Svc, ask, call_out, on_events, check, when, attempt, allocate_event_id,
  insert_document, save_body, save_with_security_event,
}
use policy_pilot.Ledger.Saving.{transaction_err}

module _ (G : Ledger) where
  -- A coroutine that writes no version, whether it returns or raises.
  pub record KeepsItems {A : Type 0} (m : Svc G A) : Type 0 where
    pub at : (s : Store G) → (m s).1.items ≡ s.items

  -- A coroutine that has written no version if it raises.
  pub record Failsafe {A : Type 0} (m : Svc G A) : Type 0 where
    pub at : (s : Store G) {e : G.R.Error} {t : Store G} → m s ≡ (err e, t) → t.items ≡ s.items

  pub KeepsItems-ask : {A : Type 0} (call : G.World → A × G.World) → KeepsItems (ask G call)
  KeepsItems-ask call = record { at = λ s. refl }

  pub KeepsItems-call_out :
      {A : Type 0} (call : G.World → Result G.R.Error A × G.World) → KeepsItems (call_out G call)
  KeepsItems-call_out call = record { at = λ s. refl }

  pub KeepsItems-on_events :
      {A : Type 0} (m : Exec G.R.Error G.Events.Data A) → KeepsItems (on_events G m)
  KeepsItems-on_events m = record { at = λ s. refl }

  pub KeepsItems-check : {A : Type 0} (r : Result G.R.Error A) → KeepsItems (check G r)
  KeepsItems-check r = record { at = λ s. refl }

  pub KeepsItems-pure : {A : Type 0} (a : A) → KeepsItems (pure a)
  KeepsItems-pure a = record { at = λ s. refl }

  pub KeepsItems-raise_if : (b : Bool) (e : G.R.Error) → KeepsItems (raise_if b e)
  KeepsItems-raise_if true e = record { at = λ s. refl }
  KeepsItems-raise_if false e = record { at = λ s. refl }

  pub KeepsItems-or_raise : {A : Type 0} (o : Option A) (e : G.R.Error) → KeepsItems (or_raise o e)
  KeepsItems-or_raise none e = record { at = λ s. refl }
  KeepsItems-or_raise (some a) e = record { at = λ s. refl }

  pub KeepsItems-when : (b : Bool) (m : Svc G (Unit {0})) → KeepsItems m → KeepsItems (when G b m)
  KeepsItems-when true m k = k
  KeepsItems-when false m k = record { at = λ s. refl }

  pub KeepsItems-attempt : {A : Type 0} (m : Svc G A) → KeepsItems m → KeepsItems (attempt G m)
  unfolding attempt
  KeepsItems-attempt m k = record { at = λ s. k.at s }

  continue-items :
      {A B : Type 0} (f : A → Svc G B) (s : Store G) (p : Result G.R.Error A × Store G)
      → p.1.items ≡ s.items
      → ((a : A) → KeepsItems (f a))
      → (continue p.0 f p.1).1.items ≡ s.items
  continue-items f s (ok a, t) k kf = (kf a).at t ∙ k
  continue-items f s (err e, t) k kf = k

  pub KeepsItems-bind :
      {A B : Type 0} (m : Svc G A) (f : A → Svc G B)
      → KeepsItems m
      → ((a : A) → KeepsItems (f a))
      → KeepsItems (m >>= f)
  unfolding ◌>>=◌
  KeepsItems-bind m f km kf = record { at = λ s. continue-items f s (m s) (km.at s) kf }

  pub KeepsItems-then :
      {A B : Type 0} (m : Svc G A) (n : Svc G B) → KeepsItems m → KeepsItems n → KeepsItems (m >> n)
  unfolding ◌>>◌ ◌>>=◌
  KeepsItems-then m n km kn = record {
    at = λ s. continue-items (λ _. n) s (m s) (km.at s) (λ _. kn);
  }

  pub ruleset keeping_items = (
    KeepsItems-ask, KeepsItems-call_out, KeepsItems-on_events, KeepsItems-check, KeepsItems-pure,
    KeepsItems-raise_if, KeepsItems-or_raise, KeepsItems-when, KeepsItems-attempt, KeepsItems-bind,
    KeepsItems-then,
  )

  pub KeepsItems-allocate_event_id : (id : Text) → KeepsItems (allocate_event_id G id)
  unfolding allocate_event_id
  KeepsItems-allocate_event_id id = search keeping_items depth 6

  pub KeepsItems-insert_document : (d : G.Event) → KeepsItems (insert_document G d)
  unfolding insert_document
  KeepsItems-insert_document d = search keeping_items depth 6

  continue-err :
      {A B : Type 0} (f : A → Svc G B) (s : Store G) (p : Result G.R.Error A × Store G)
      {e : G.R.Error} {t : Store G}
      → p.1.items ≡ s.items
      → ((a : A) → Failsafe (f a))
      → continue p.0 f p.1 ≡ (err e, t)
      → t.items ≡ s.items
  continue-err f s (ok a, u) k kf h = (kf a).at u h ∙ k
  continue-err f s (err e, u) k kf h = ap (λ x. x.1.items) (sym h) ∙ k

  pub Failsafe-bind :
      {A B : Type 0} (m : Svc G A) (f : A → Svc G B)
      → KeepsItems m
      → ((a : A) → Failsafe (f a))
      → Failsafe (m >>= f)
  unfolding ◌>>=◌
  Failsafe-bind m f km kf = record { at = λ s h. continue-err f s (m s) (km.at s) kf h }

  pub Failsafe-then :
      {A B : Type 0} (m : Svc G A) (n : Svc G B) → KeepsItems m → Failsafe n → Failsafe (m >> n)
  unfolding ◌>>◌ ◌>>=◌
  Failsafe-then m n km kn = record {
    at = λ s h. continue-err (λ _. n) s (m s) (km.at s) (λ _. kn) h;
  }

  continue-pure :
      {A B : Type 0} (g : A → B) (s : Store G) (p : Result G.R.Error A × Store G) {e : G.R.Error}
      {t : Store G}
      → ((d : G.R.Error) (u : Store G) → p ≡ (err d, u) → u.items ≡ s.items)
      → continue {B = B} p.0 (λ a. pure (g a)) p.1 ≡ (err e, t)
      → t.items ≡ s.items
  continue-pure g s (ok a, u) k h = cc
  continue-pure g s (err d, u) k h = ap (λ x. x.1.items) (sym h) ∙ k d u refl

  -- A result that is only projected.
  pub Failsafe-pure :
      {A B : Type 0} (m : Svc G A) (g : A → B) → Failsafe m → Failsafe (m >>= (λ a. pure (g a)))
  unfolding ◌>>=◌
  Failsafe-pure m g k = record { at = λ s h. continue-pure g s (m s) (λ d u r. k.at s r) h }

  -- A save is a transaction.
  pub Failsafe-save :
      (initial : Bool) (p : G.R.Item) (action : G.Action) (subject : G.Subject)
      (details : G.Details)
      → Failsafe (save_with_security_event G initial p action subject details)
  unfolding save_with_security_event
  Failsafe-save initial p action subject details = record {
    at = λ s h. (transaction_err G (save_body G initial p action subject details) s h).0;
  }
