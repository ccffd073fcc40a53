-- ===== src/Ledger/Keeping.antt =====
-- Coroutines over a ledger that write nothing, and what single steps keep.
use policy_pilot.Prelude.{◌≡◌, refl, sym, ap, ◌∙◌, Bool, true, false, Option, none, some, arith}
use policy_pilot.Prelude.Exec.{
  Result, ok, err, Exec, pure, raise_if, or_raise, continue, ◌>>=◌, ◌>>◌,
}
use policy_pilot.Ledger.{Ledger, Store, Svc, ask, call_out, on_items, check, when, attempt}

module _ (G : Ledger) where
  -- The same stored data; only the world outside may have moved.
  abbrev pub SameData : Store G → Store G → Type 0
  SameData s t = (t.items ≡ s.items) × (t.events ≡ s.events)

  pub ask_ok :
      {A : Type 0} (call : G.World → A × G.World) (s : Store G) {a : A} {t : Store G}
      → ask G call s ≡ (ok a, t)
      → SameData s t
  ask_ok call s h = (ground arith, ground arith)

  pub call_out_ok :
      {A : Type 0} (call : G.World → Result G.R.Error A × G.World) (s : Store G) {a : A}
      {t : Store G}
      → call_out G call s ≡ (ok a, t)
      → (call s.world ≡ (ok a, t.world)) × SameData s t
  call_out_ok call s h = (ground arith, (ground arith, ground arith))

  pub on_items_ok :
      {A : Type 0} (m : Exec G.R.Error G.Items.Data A) (s : Store G) {a : A} {t : Store G}
      → on_items G m s ≡ (ok a, t)
      → (m s.items ≡ (ok a, t.items)) × (t.events ≡ s.events)
  on_items_ok m s h = (ground arith, ground arith)

  pub check_ok :
      {A : Type 0} (r : Result G.R.Error A) (s : Store G) {a : A} {t : Store G}
      → check G r s ≡ (ok a, t)
      → (r ≡ ok a) × (t ≡ s)
  check_ok r s h = (ap (λ x. x.0) h, sym (ap (λ x. x.1) h))

  pub pure_ok :
      {A : Type 0} (a : A) (s : Store G) {b : A} {t : Store G}
      → pure {E = G.R.Error} a s ≡ (ok b, t)
      → (b ≡ a) × (t ≡ s)
  pure_ok a s h = (cc, cc)

  -- A coroutine that writes nothing, whether it returns or raises.
  pub record Keeps {A : Type 0} (m : Svc G A) : Type 0 where
    pub at : (s : Store G) → SameData s (m s).1

  pub Keeps-ask : {A : Type 0} (call : G.World → A × G.World) → Keeps (ask G call)
  Keeps-ask call = record { at = λ s. (refl, refl) }

  pub Keeps-call_out :
      {A : Type 0} (call : G.World → Result G.R.Error A × G.World) → Keeps (call_out G call)
  Keeps-call_out call = record { at = λ s. (refl, refl) }

  pub Keeps-check : {A : Type 0} (r : Result G.R.Error A) → Keeps (check G r)
  Keeps-check r = record { at = λ s. (refl, refl) }

  pub Keeps-pure : {A : Type 0} (a : A) → Keeps (pure a)
  Keeps-pure a = record { at = λ s. (refl, refl) }

  pub Keeps-raise_if : (b : Bool) (e : G.R.Error) → Keeps (raise_if b e)
  Keeps-raise_if true e = record { at = λ s. (refl, refl) }
  Keeps-raise_if false e = record { at = λ s. (refl, refl) }

  pub Keeps-or_raise : {A : Type 0} (o : Option A) (e : G.R.Error) → Keeps (or_raise o e)
  Keeps-or_raise none e = record { at = λ s. (refl, refl) }
  Keeps-or_raise (some a) e = record { at = λ s. (refl, refl) }

  pub Keeps-when : (b : Bool) (m : Svc G (Unit {0})) → Keeps m → Keeps (when G b m)
  Keeps-when true m k = k
  Keeps-when false m k = record { at = λ s. (refl, refl) }

  pub Keeps-attempt : {A : Type 0} (m : Svc G A) → Keeps m → Keeps (attempt G m)
  unfolding attempt
  Keeps-attempt m k = record { at = λ s. k.at s }

  continue-Keeps :
      {A B : Type 0} (f : A → Svc G B) (s : Store G) (p : Result G.R.Error A × Store G)
      → SameData s p.1
      → ((a : A) → Keeps (f a))
      → SameData s (continue p.0 f p.1).1
  continue-Keeps f s (ok a, t) (k1, k2) kf = let (l1, l2) = (kf a).at t in (l1 ∙ k1, l2 ∙ k2)
  continue-Keeps f s (err e, t) k kf = k

  pub Keeps-bind :
      {A B : Type 0} (m : Svc G A) (f : A → Svc G B)
      → Keeps m
      → ((a : A) → Keeps (f a))
      → Keeps (m >>= f)
  unfolding ◌>>=◌
  Keeps-bind m f km kf = record { at = λ s. continue-Keeps f s (m s) (km.at s) kf }

  pub Keeps-then : {A B : Type 0} (m : Svc G A) (n : Svc G B) → Keeps m → Keeps n → Keeps (m >> n)
  unfolding ◌>>◌ ◌>>=◌
  Keeps-then m n km kn = record { at = λ s. continue-Keeps (λ _. n) s (m s) (km.at s) (λ _. kn) }

  -- What a run of such a coroutine leaves.
  pub Keeps-run :
      {A : Type 0} (m : Svc G A) (s : Store G) {r : Result G.R.Error A} {t : Store G}
      → Keeps m
      → m s ≡ (r, t)
      → SameData s t
  Keeps-run m s k h =
      let (p, e) = k.at s in (ap (λ x. x.1.items) (sym h) ∙ p, ap (λ x. x.1.events) (sym h) ∙ e)

  pub ruleset keeping = (
    Keeps-ask, Keeps-call_out, Keeps-check, Keeps-pure, Keeps-raise_if, Keeps-or_raise, Keeps-when,
    Keeps-attempt, Keeps-bind, Keeps-then,
  )
