-- ===== src/Prelude/Lists.antt =====
-- Lists with Boolean tests and native lengths.
use Prim.Native.Nat.{ℕ, zero, suc, ◌+◌, ◌≤◌}
use Prim.Native.String.{String}
use mathlib.Core.Path.{◌≡◌, refl}
use mathlib.Core.Logic.{inl, inr}
use mathlib.Core.Bool.{Bool, true, false, ◌||◌}
use mathlib.Core.Option.{Option, none, some}
use mathlib.Core.List.{List, [], ◌∷◌, ◌++◌}
use native.Mathlib.Omega.{arith}
use policy_pilot.Prelude.Tests.{str_eq, if◌then◌else◌, Bool-cases}

module _ {ℓ} {A : Type ℓ} where
  abbrev pub length : List A → ℕ
  length [] = 0
  length (x ∷ xs) = suc (length xs)

  abbrev pub take : ℕ → List A → List A
  take zero xs = []
  take (suc n) [] = []
  take (suc n) (x ∷ xs) = x ∷ take n xs

  -- the elements that pass a test, in order
  abbrev pub select : (A → Bool) → List A → List A
  select q [] = []
  select q (x ∷ xs) = let rest = select q xs in if q x then x ∷ rest else rest

  -- the first element that passes a test
  abbrev pub find? : (A → Bool) → List A → Option A
  find? q [] = none
  find? q (x ∷ xs) = let rest = find? q xs in if q x then some x else rest

  -- how many elements pass a test
  abbrev pub count_if : (A → Bool) → List A → ℕ
  count_if q [] = 0
  count_if q (x ∷ xs) = let rest = count_if q xs in if q x then suc rest else rest

  -- rewrite the first element that passes a test
  abbrev pub update_first : (A → Bool) → (A → A) → List A → List A
  update_first q f [] = []
  update_first q f (x ∷ xs) = let rest = update_first q f xs in if q x then f x ∷ xs else x ∷ rest

  -- a property of every element
  abbrev pub All {κ} : (A → Type κ) → List A → Type κ
  All P [] = Unit
  All P (x ∷ xs) = P x × All P xs

  pub length-append : (xs ys : List A) → length (xs ++ ys) ≡ length xs + length ys
  length-append [] ys = omega arith
  length-append (x ∷ xs) ys = omega (arith, length-append xs ys)

  pub count_if-append :
      (q : A → Bool) (xs ys : List A) → count_if q (xs ++ ys) ≡ count_if q xs + count_if q ys
  count_if-append q [] ys = omega arith
  count_if-append q (x ∷ xs) ys = ground (arith, count_if-append q xs ys)

  pub length-select : (q : A → Bool) (xs : List A) → length (select q xs) ≡ count_if q xs
  length-select q [] = refl
  length-select q (x ∷ xs) = ground (arith, length-select q xs)

  pub length-take : (n : ℕ) (xs : List A) → length (take n xs) ≤ n
  length-take zero xs = omega arith
  length-take (suc n) [] = omega arith
  length-take (suc n) (x ∷ xs) = omega (arith, length-take n xs)

  pub take_all : (n : ℕ) (xs : List A) → length xs ≤ n → take n xs ≡ xs
  take_all zero [] h = refl
  take_all zero (x ∷ xs) h = absurd (omega arith)
  take_all (suc n) [] h = refl
  take_all (suc n) (x ∷ xs) h = ground (arith, take_all n xs)

  pub find?-some : (q : A → Bool) (xs : List A) {x : A} → find? q xs ≡ some x → q x ≡ true
  find?-some q [] h = cc
  find?-some q (x ∷ xs) {x = y} h = elim (Bool-cases (q x)) [
    | inl passes ↦ ground arith
    | inr fails ↦ find?-some q xs (rw fails at h)
  ]

-- `value in values`
abbrev pub mem : String → List String → Bool
mem s [] = false
mem s (t ∷ ts) = str_eq s t || mem s ts
