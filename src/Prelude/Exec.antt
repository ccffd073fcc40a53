-- ===== src/Prelude/Exec.antt =====
-- Coroutines that change a state and may raise. What was written before a raise stays written, so
-- the state comes back beside the error too.
use mathlib.Core.Path.{◌≡◌, refl}
use mathlib.Core.Bool.{Bool, true, false}
use mathlib.Core.Option.{Option, none, some}

pub data Result {ℓ κ} (E : Type ℓ) (A : Type κ) : Type (ℓ ⊔ κ) where
  ok : A → Result E A
  err : E → Result E A

abbrev pub Exec {ℓ} : Type ℓ → Type ℓ → Type ℓ → Type ℓ
Exec E S A = S → Result E A × S

module _ {ℓ} {E S A : Type ℓ} where
  abbrev pub pure : A → Exec E S A
  pure a s = (ok a, s)

  abbrev pub raise : E → Exec E S A
  raise e s = (err e, s)

  abbrev pub lift : Result E A → Exec E S A
  lift r s = (r, s)

  -- `raise` on a missing value
  abbrev pub or_raise : Option A → E → Exec E S A
  or_raise none e s = (err e, s)
  or_raise (some a) e s = (ok a, s)

module _ {ℓ} {E S A B : Type ℓ} where
  abbrev pub continue : Result E A → (A → Exec E S B) → Exec E S B
  continue (ok a) f s = f a s
  continue (err e) f s = (err e, s)

  infixl 10 ◌>>=◌ ◌>>◌
  unfoldable pub ◌>>=◌ : Exec E S A → (A → Exec E S B) → Exec E S B
  ◌>>=◌ m f s = let (r, s') = m s in continue r f s'

  unfoldable pub ◌>>◌ : Exec E S A → Exec E S B → Exec E S B
  unfolding ◌>>=◌
  m >> n = m >>= λ _. n

-- `if test: raise e`
abbrev pub raise_if {ℓ} : {E S : Type ℓ} → Bool → E → Exec E S (Unit {ℓ})
raise_if false e s = (ok tt, s)
raise_if true e s = (err e, s)

-- What holds at the end of a run: `Q` of the value if it returned, `R` of the error if it raised.
pub data Ends {ℓ κ} {E S A : Type ℓ} (Q : A → S → Type κ) (R : E → S → Type κ)
    : Result E A × S → Type (ℓ ⊔ κ) where
  returned : {a : A} {s : S} → Q a s → Ends Q R (ok a, s)
  raised : {e : E} {s : S} → R e s → Ends Q R (err e, s)

module _ {ℓ κ} {E S A B : Type ℓ} {Q : B → S → Type κ} {R : E → S → Type κ} where
  Ends-continue :
      (f : A → Exec E S B) (p : Result E A × S)
      → ((a : A) (t : S) → p ≡ (ok a, t) → Ends Q R (f a t))
      → ((e : E) (t : S) → p ≡ (err e, t) → R e t)
      → Ends Q R (continue p.0 f p.1)
  Ends-continue f (ok a, t) good bad = good a t refl
  Ends-continue f (err e, t) good bad = raised (bad e t refl)

  -- The rule for `;`: each half may use how the first half ended.
  pub Ends-bind :
      (m : Exec E S A) (f : A → Exec E S B) (s : S)
      → ((a : A) (t : S) → m s ≡ (ok a, t) → Ends Q R (f a t))
      → ((e : E) (t : S) → m s ≡ (err e, t) → R e t)
      → Ends Q R ((m >>= f) s)
  unfolding ◌>>=◌
  Ends-bind m f s good bad = Ends-continue f (m s) good bad

  pub Ends-then :
      (m : Exec E S A) (n : Exec E S B) (s : S)
      → ((a : A) (t : S) → m s ≡ (ok a, t) → Ends Q R (n t))
      → ((e : E) (t : S) → m s ≡ (err e, t) → R e t)
      → Ends Q R ((m >> n) s)
  unfolding ◌>>◌
  Ends-then m n s good bad = Ends-continue (λ _. n) (m s) good bad

module _ {ℓ} {E S A B : Type ℓ} where
  continue-ok :
      (f : A → Exec E S B) (p : Result E A × S) {b : B} {t : S}
      → continue p.0 f p.1 ≡ (ok b, t)
      → (a : A) × (u : S) × (p ≡ (ok a, u)) × (f a u ≡ (ok b, t))
  continue-ok f (ok a, u) h = (a, u, refl, h)
  continue-ok f (err e, u) h = cc

  -- A sequence that returned: both halves did.
  pub bind-ok {κ} :
      {P : Type κ} (m : Exec E S A) (f : A → Exec E S B) (s : S) {b : B} {t : S}
      → (m >>= f) s ≡ (ok b, t)
      → ((a : A) (u : S) → m s ≡ (ok a, u) → f a u ≡ (ok b, t) → P)
      → P
  unfolding ◌>>=◌
  bind-ok m f s h k = let (a, u, first, second) = continue-ok f (m s) h in k a u first second

  pub then-ok {κ} :
      {P : Type κ} (m : Exec E S A) (n : Exec E S B) (s : S) {b : B} {t : S}
      → (m >> n) s ≡ (ok b, t)
      → ((a : A) (u : S) → m s ≡ (ok a, u) → n u ≡ (ok b, t) → P)
      → P
  unfolding ◌>>◌
  then-ok m n s h k = let (a, u, first, second) = continue-ok (λ _. n) (m s) h in k a u first second

module _ {ℓ κ} {E S A : Type ℓ} {Q : A → S → Type κ} {R : E → S → Type κ} where
  -- The two ways to use a postcondition.
  pub Ends-ok : {a : A} {t : S} → Ends Q R (ok a, t) → Q a t
  Ends-ok (returned h) = h

  pub Ends-err : {e : E} {t : S} → Ends Q R (err e, t) → R e t
  Ends-err (raised h) = h

module _ {ℓ} {E S : Type ℓ} where
  pub raise_if_ok :
      (b : Bool) (e : E) (s : S) {u : Unit {ℓ}} {t : S}
      → raise_if b e s ≡ (ok u, t)
      → (b ≡ false) × (t ≡ s)
  raise_if_ok true e s h = cc
  raise_if_ok false e s h = (refl, cc)

  pub raise_if_err :
      (b : Bool) (e : E) (s : S) {x : E} {t : S}
      → raise_if b e s ≡ (err x, t)
      → (b ≡ true) × (x ≡ e) × (t ≡ s)
  raise_if_err true e s h = (refl, cc, cc)
  raise_if_err false e s h = cc
