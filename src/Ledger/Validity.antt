-- ===== src/Ledger/Validity.antt =====
-- Coroutines over a ledger as transformers of the stored versions: rules by which one keeps every
-- version chain valid, whether it returns or raises.
use policy_pilot.Prelude.{ℕ, ◌≡◌, refl, sym, ap, Bool, true, false, not, Option, none, some, arith}
use policy_pilot.Prelude.Text.{Text}
use policy_pilot.Prelude.Exec.{
  Result, ok, err, Exec, pure, raise, raise_if, or_raise, continue, ◌>>=◌, ◌>>◌, bind-ok,
}
use policy_pilot.Mongo.{IsLawful}
use policy_pilot.Versioned.{IsVersioned}
use policy_pilot.Versioned.Versions.{IsValid, append_version-IsValid, insert_initial-IsValid}
use policy_pilot.Ledger.{
  Ledger, Store, Svc, ask, call_out, on_events, transaction, attempt, check, when, record_saved,
  allocate_event_id, insert_document, save_version, record_saved_if, save_body,
  save_with_security_event,
}
use policy_pilot.Ledger.Saving.{transaction_ok, transaction_err}
use policy_pilot.Ledger.Keeping.{Keeps}

module _ (G : Ledger) where
  abbrev pub IsSound : Store G → Type 0
  IsSound s = IsValid G.R (G.Items.docs s.items)

  -- A coroutine that leaves every version chain valid, however it ends.
  pub record Preserves {A : Type 0} (m : Svc G A) : Type 0 where
    pub at : (s : Store G) → IsSound s → IsSound (m s).1

  pub Preserves-Keeps : {A : Type 0} (m : Svc G A) → Keeps G m → Preserves m
  Preserves-Keeps m k = record { at = λ s v. let (p, e) = k.at s in rw p v }

  pub Preserves-same :
      {A : Type 0} (m : Svc G A) → ((s : Store G) → (m s).1.items ≡ s.items) → Preserves m
  Preserves-same m k = record { at = λ s v. rw (k s) v }

  pub Preserves-ask : {A : Type 0} (call : G.World → A × G.World) → Preserves (ask G call)
  Preserves-ask call = record { at = λ s v. v }

  pub Preserves-call_out :
      {A : Type 0} (call : G.World → Result G.R.Error A × G.World) → Preserves (call_out G call)
  Preserves-call_out call = record { at = λ s v. v }

  pub Preserves-on_events :
      {A : Type 0} (m : Exec G.R.Error G.Events.Data A) → Preserves (on_events G m)
  Preserves-on_events m = record { at = λ s v. v }

  pub Preserves-check : {A : Type 0} (r : Result G.R.Error A) → Preserves (check G r)
  Preserves-check r = record { at = λ s v. v }

  pub Preserves-pure : {A : Type 0} (a : A) → Preserves (pure a)
  Preserves-pure a = record { at = λ s v. v }

  pub Preserves-raise : {A : Type 0} (e : G.R.Error) → Preserves {A = A} (raise e)
  Preserves-raise e = record { at = λ s v. v }

  pub Preserves-raise_if : (b : Bool) (e : G.R.Error) → Preserves (raise_if b e)
  Preserves-raise_if true e = record { at = λ s v. v }
  Preserves-raise_if false e = record { at = λ s v. v }

  pub Preserves-or_raise : {A : Type 0} (o : Option A) (e : G.R.Error) → Preserves (or_raise o e)
  Preserves-or_raise none e = record { at = λ s v. v }
  Preserves-or_raise (some a) e = record { at = λ s v. v }

  pub Preserves-when : (b : Bool) (m : Svc G (Unit {0})) → Preserves m → Preserves (when G b m)
  Preserves-when true m k = k
  Preserves-when false m k = record { at = λ s v. v }

  pub Preserves-attempt : {A : Type 0} (m : Svc G A) → Preserves m → Preserves (attempt G m)
  unfolding attempt
  Preserves-attempt m k = record { at = λ s v. k.at s v }

  continue-IsSound :
      {A B : Type 0} (f : A → Svc G B) (p : Result G.R.Error A × Store G)
      → IsSound p.1
      → ((a : A) → Preserves (f a))
      → IsSound (continue p.0 f p.1).1
  continue-IsSound f (ok a, t) v kf = (kf a).at t v
  continue-IsSound f (err e, t) v kf = v

  pub Preserves-bind :
      {A B : Type 0} (m : Svc G A) (f : A → Svc G B)
      → Preserves m
      → ((a : A) → Preserves (f a))
      → Preserves (m >>= f)
  unfolding ◌>>=◌
  Preserves-bind m f km kf = record { at = λ s v. continue-IsSound f (m s) (km.at s v) kf }

  pub Preserves-then :
      {A B : Type 0} (m : Svc G A) (n : Svc G B) → Preserves m → Preserves n → Preserves (m >> n)
  unfolding ◌>>◌ ◌>>=◌
  Preserves-then m n km kn = record {
    at = λ s v. continue-IsSound (λ _. n) (m s) (km.at s v) (λ _. kn);
  }

  ending-IsSound :
      {A : Type 0} (m : Svc G A) (s : Store G) (r : Result G.R.Error A × Store G)
      → transaction G m s ≡ r
      → IsSound s
      → ((a : A) (u : Store G) → m s ≡ (ok a, u) → IsSound u)
      → IsSound r.1
  ending-IsSound m s (ok a, t) h v done =
      let (u, ran, p, e) = transaction_ok G m s h in rw p (done a u ran)
  ending-IsSound m s (err e, t) h v done = let (p, _) = transaction_err G m s h in rw p v

  pub ruleset preserving = (
    Preserves-ask, Preserves-call_out, Preserves-on_events, Preserves-check, Preserves-pure,
    Preserves-raise, Preserves-raise_if, Preserves-or_raise, Preserves-when, Preserves-attempt,
    Preserves-bind, Preserves-then,
  )

  pub Preserves-allocate_event_id : (id : Text) → Preserves (allocate_event_id G id)
  unfolding allocate_event_id
  Preserves-allocate_event_id id = search preserving depth 6

  pub Preserves-insert_document : (d : G.Event) → Preserves (insert_document G d)
  unfolding insert_document
  Preserves-insert_document d = search preserving depth 6

  pub Preserves-record_saved :
      (action : G.Action) (subject : G.Subject) (details : G.Details) (saved : G.R.Version)
      → Preserves (record_saved G action subject details saved)
  unfolding record_saved allocate_event_id insert_document
  Preserves-record_saved action subject details saved = search preserving depth 12

  Preserves-record_saved_if :
      (b : Bool) (action : G.Action) (subject : G.Subject) (details : G.Details)
      (saved : G.R.Version)
      → Preserves (record_saved_if G b action subject details saved)
  Preserves-record_saved_if true action subject details saved =
      Preserves-record_saved action subject details saved
  Preserves-record_saved_if false action subject details saved = Preserves-pure none

  -- The state after a run that returned.
  after :
      {A : Type 0} (m : Svc G A) (s : Store G) {r : Result G.R.Error A} {t : Store G}
      → Preserves m
      → m s ≡ (r, t)
      → IsSound s
      → IsSound t
  after m s k h v = rw (sym (ap (λ x. x.1) h)) (k.at s v)

  module _ (V : IsVersioned G.R) (L : IsLawful G.R.document_id G.Items) where
    save_version-IsSound :
        (initial : Bool) (p : G.R.Item) (now : ℕ) (s : Store G) {saved : G.R.Version} {t : Store G}
        → save_version G initial p now s ≡ (ok saved, t)
        → IsSound s
        → IsSound t
    unfolding save_version
    save_version-IsSound true p now s {saved} {t} h v =
        insert_initial-IsValid G.R V G.Items L p now s.items {saved = saved} {c' = t.items}
          (ground arith) v
    save_version-IsSound false p now s {saved} {t} h v =
        append_version-IsValid G.R V G.Items L p now s.items {saved = saved} {c' = t.items}
          (ground arith) v

    save_body-IsSound :
        (initial : Bool) (p : G.R.Item) (action : G.Action) (subject : G.Subject)
        (details : G.Details) (s : Store G) {saved : G.R.Version × Option Text} {t : Store G}
        → save_body G initial p action subject details s ≡ (ok saved, t)
        → IsSound s
        → IsSound t
    unfolding save_body
    save_body-IsSound initial p action subject details s {t = t} h v =
        bind-ok _ _ s h λ now s1 read h1. bind-ok _ _ s1 h1 λ stored s2 wrote h2.
          bind-ok _ _ s2 h2 λ id s3 recorded h3.
            let v1 = after (ask G G.now) s (Preserves-ask G.now) read v in
            let v2 = save_version-IsSound initial p now s1 wrote v1 in
            let v3 =
              after _ s2
                (Preserves-record_saved_if (not (G.is_excluded subject)) action subject details
                  stored)
                recorded v2 in
            after (pure (stored, id)) s3 (Preserves-pure (stored, id)) h3 v3

    pub Preserves-save :
        (initial : Bool) (p : G.R.Item) (action : G.Action) (subject : G.Subject)
        (details : G.Details)
        → Preserves (save_with_security_event G initial p action subject details)
    unfolding save_with_security_event
    Preserves-save initial p action subject details = record {
      at = λ s v.
          ending-IsSound (save_body G initial p action subject details) s _ refl v
            (λ a u ran. save_body-IsSound initial p action subject details s ran v);
    }
