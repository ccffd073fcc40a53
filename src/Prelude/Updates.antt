-- ===== src/Prelude/Updates.antt =====
-- Counting under `update_first`, `select` and `find?`.
use Prim.Native.Nat.{suc, ◌≤◌}
use mathlib.Core.Path.{◌≡◌, refl, subst}
use mathlib.Core.Logic.{inl, inr}
use mathlib.Core.Bool.{Bool, true, false, ◌&&◌}
use mathlib.Core.Option.{none, some, some-injective}
use mathlib.Core.List.{List, [], ◌∷◌, ◌++◌}
use native.Mathlib.Omega.{arith}
use policy_pilot.Prelude.Tests.{Bool-cases}
use policy_pilot.Prelude.Lists.{find?, select, count_if, update_first, All}

module _ {ℓ} {A : Type ℓ} (q r : A → Bool) (f : A → A) where
  -- An update that leaves a test alone leaves its count alone.
  pub count_if-update_first :
      (xs : List A)
      → ((x : A) → r x ≡ true → q (f x) ≡ q x)
      → count_if q (update_first r f xs) ≡ count_if q xs
  count_if-update_first [] keep = refl
  count_if-update_first (x ∷ xs) keep = elim (Bool-cases (r x)) [
    | inl hit ↦ rw (hit, keep x hit)
    | inr miss ↦ rw miss (ground (arith, count_if-update_first xs keep))
  ]

  -- An update of an element that passes a test, so that it no longer does, lowers the count.
  pub count_if-update_first_drop :
      (xs : List A) (d : A)
      → find? q xs ≡ some d
      → r d ≡ true
      → ((x : A) → r x ≡ true → (q x ≡ true) × (q (f x) ≡ false))
      → suc (count_if q (update_first r f xs)) ≡ count_if q xs
  count_if-update_first_drop [] d found hit drop = cc
  count_if-update_first_drop (x ∷ xs) d found hit drop = elim (Bool-cases (r x)) [
    | inl here ↦ rw (here, (drop x here).0, (drop x here).1)
    | inr later ↦ rw later (ground (arith, count_if-update_first_drop xs d, drop d hit))
  ]

module _ {ℓ} {A : Type ℓ} where
  pub count_if-zero : (q : A → Bool) (xs : List A) → count_if q xs ≡ 0 → All (λ x. q x ≡ false) xs
  count_if-zero q [] h = tt
  count_if-zero q (x ∷ xs) h = ground (arith, count_if-zero q xs)

  pub find?-none : (q : A → Bool) (xs : List A) → find? q xs ≡ none → count_if q xs ≡ 0
  find?-none q [] h = refl
  find?-none q (x ∷ xs) h = ground (arith, find?-none q xs)

  pub find?-pos : (q : A → Bool) (xs : List A) {x : A} → find? q xs ≡ some x → 1 ≤ count_if q xs
  find?-pos q [] h = cc
  find?-pos q (y ∷ xs) {x} h = ground (arith, find?-pos q xs {x = x})

  pub All-find? {κ} :
      (P : A → Type κ) (q : A → Bool) (xs : List A) {x : A} → All P xs → find? q xs ≡ some x → P x
  All-find? P q [] h e = cc
  All-find? P q (y ∷ xs) h e = elim (Bool-cases (q y)) [
    | inl here ↦ subst P (some-injective _ _ (rw here at e)) h.0
    | inr later ↦ All-find? P q xs h.1 (rw later at e)
  ]

  pub All-append {κ} : (P : A → Type κ) (xs ys : List A) → All P xs → All P ys → All P (xs ++ ys)
  All-append P [] ys h k = k
  All-append P (x ∷ xs) ys h k = (h.0, All-append P xs ys h.1 k)

  pub All-map {κ μ} :
      (P : A → Type κ) (Q : A → Type μ) (xs : List A) → ((x : A) → P x → Q x) → All P xs → All Q xs
  All-map P Q [] f h = tt
  All-map P Q (x ∷ xs) f h = (f x h.0, All-map P Q xs f h.1)

  pub All-update_first {κ} :
      (P : A → Type κ) (r : A → Bool) (f : A → A) (xs : List A)
      → ((x : A) → r x ≡ true → P x → P (f x))
      → All P xs
      → All P (update_first r f xs)
  All-update_first P r f [] keep h = tt
  All-update_first P r f (x ∷ xs) keep h = elim (Bool-cases (r x)) [
    | inl hit ↦ rw hit (keep x hit h.0, h.1)
    | inr miss ↦ rw miss (h.0, All-update_first P r f xs keep h.1)
  ]

  pub count_if-select :
      (p q : A → Bool) (xs : List A) → count_if p (select q xs) ≡ count_if (λ x. q x && p x) xs
  count_if-select p q [] = refl
  count_if-select p q (x ∷ xs) = ground (arith, count_if-select p q xs)

  -- At most as many pass a stronger test.
  pub count_if_mono :
      (p q : A → Bool) (xs : List A)
      → ((x : A) → p x ≡ true → q x ≡ true)
      → count_if p xs ≤ count_if q xs
  count_if_mono p q [] h = omega arith
  count_if_mono p q (x ∷ xs) h = ground (arith, count_if_mono p q xs h, h x)

  pub count_if_same :
      (p q : A → Bool) (xs : List A) → ((x : A) → p x ≡ q x) → count_if p xs ≡ count_if q xs
  count_if_same p q [] h = refl
  count_if_same p q (x ∷ xs) h = rw (h x) (ground (arith, count_if_same p q xs h))
