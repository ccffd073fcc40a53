-- ===== src/Sequence/Keys.antt =====
-- The identifiers of seq/formatting.py.
use policy_pilot.Prelude.{ℕ, ◌≡◌, refl, sym, [], ◌∷◌, ◌++◌, arith, All}
use policy_pilot.Prelude.Text.{Text}
use policy_pilot.Prelude.Text.Decimal.{IsDigit, decimal, decimal-IsDigit, decimal_injective}
use policy_pilot.Sequence.{dash, build_sequence_id}

-- A dash is no digit.
no_dash : (xs ys : Text) → ¬ (All IsDigit (xs ++ dash ∷ ys))
no_dash [] ys (h, _) = ground arith
no_dash (x ∷ xs) ys (_, h) = no_dash xs ys h

-- The text before the last dash and the digits behind it are determined.
last_dash :
    (xs ys ds es : Text)
    → All IsDigit ds
    → All IsDigit es
    → xs ++ dash ∷ ds ≡ ys ++ dash ∷ es
    → (xs ≡ ys) × (ds ≡ es)
last_dash [] [] ds es hd he h = (refl, cc)
last_dash [] (y ∷ ys) ds es hd he h =
    let tail : ds ≡ ys ++ dash ∷ es = cc in absurd (no_dash ys es (rw (sym tail) hd))
last_dash (x ∷ xs) [] ds es hd he h =
    let tail : xs ++ dash ∷ ds ≡ es = cc in absurd (no_dash xs ds (rw tail he))
last_dash (x ∷ xs) (y ∷ ys) ds es hd he h =
    let head : x ≡ y = cc in let (rest, digits) = last_dash xs ys ds es hd he cc in (cc, digits)

-- Two identifiers that are equal come from the same counter and have the same number.
pub build_sequence_id_injective :
    (j k : Text) (m n : ℕ) → build_sequence_id j m ≡ build_sequence_id k n → (j ≡ k) × (m ≡ n)
unfolding build_sequence_id
build_sequence_id_injective j k m n h =
    let (same_key, same_digits) =
      last_dash j k (decimal m) (decimal n) (decimal-IsDigit m) (decimal-IsDigit n) h in
    (same_key, decimal_injective m n same_digits)
