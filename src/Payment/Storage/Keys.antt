-- ===== src/Payment/Storage/Keys.antt =====
-- Document keys, `f"{payment_id}|{version_number}"`, and the filter that finds a payment's versions.
use policy_pilot.Prelude.{
  ℕ, ◌≡◌, refl, sym, ap, ◌∙◌, ◌↔◌, Bool, true, false, Option, none, some, [], ◌∷◌, ◌++◌, ◌&&◌,
  arith, ◌==◌, leb, if◌then◌else◌, All,
}
use mathlib.Core.Option.{some-injective}
use mathlib.Core.List.{append_cancel_left}
use policy_pilot.Prelude.Text.{Text}
use policy_pilot.Prelude.Text.Decimal.{
  decimal, IsDigit, decimal-IsDigit, decimal-cons, decimal_injective,
}

abbrev pub bar : ℕ
bar = b'|'

unfoldable pub payment_document_key : Text → ℕ → Text
payment_document_key payment_id version_number = payment_id ++ bar ∷ decimal version_number

-- What stands before the last bar, if there is one.
before_last : Text → Option Text
before_last [] = none
before_last (c ∷ cs) = elim (before_last cs) [
  | some head ↦ some (c ∷ head)
  | none ↦ if c == bar then some [] else none
]

-- `document_key.rsplit("|", 1)[0]`
unfoldable pub payment_id_from_document_key : Text → Text
unfolding before_last
payment_id_from_document_key key = elim (before_last key) [ some head ↦ head | none ↦ key ]

-- `\d+$`
all_digits : Text → Bool
all_digits [] = true
all_digits (c ∷ cs) = (leb b'0' c && leb c b'9') && all_digits cs

some_digits : Text → Bool
unfolding all_digits
some_digits [] = false
some_digits (c ∷ cs) = all_digits (c ∷ cs)

-- The regular expression of `_payment_id_filter`: the identifier, a bar, and digits.
unfoldable pub payment_id_filter : Text → Text → Bool
unfolding some_digits
payment_id_filter [] [] = false
payment_id_filter [] (c ∷ cs) = c == bar && some_digits cs
payment_id_filter (a ∷ id) [] = false
payment_id_filter (a ∷ id) (c ∷ cs) = a == c && payment_id_filter id cs

before_last-digits : (ds : Text) → All IsDigit ds → before_last ds ≡ none
unfolding before_last
before_last-digits [] h = refl
before_last-digits (d ∷ ds) h = ground (arith, before_last-digits ds h.1)

before_last-append : (id ds : Text) → All IsDigit ds → before_last (id ++ bar ∷ ds) ≡ some id
unfolding before_last
before_last-append [] ds h = rw (before_last-digits ds h)
before_last-append (c ∷ id) ds h = rw (before_last-append id ds h)

-- A key gives its payment's identifier back, whatever bars the identifier holds.
pub payment_id_from_document_key-payment_document_key :
    (id : Text) (n : ℕ) → payment_id_from_document_key (payment_document_key id n) ≡ id
unfolding payment_id_from_document_key payment_document_key
payment_id_from_document_key-payment_document_key id n =
    rw (payment_id_from_document_key, before_last-append id (decimal n) (decimal-IsDigit n))

all_digits-IsDigit : (ds : Text) → all_digits ds ≡ true → All IsDigit ds
unfolding all_digits
all_digits-IsDigit [] h = tt
all_digits-IsDigit (d ∷ ds) h = ground (arith, all_digits-IsDigit ds)

IsDigit-all_digits : (ds : Text) → All IsDigit ds → all_digits ds ≡ true
unfolding all_digits
IsDigit-all_digits [] h = refl
IsDigit-all_digits (d ∷ ds) h = ground (arith, IsDigit-all_digits ds)

-- A key that passes the filter of an identifier has that identifier.
payment_id_filter-before_last :
    (id key : Text) → payment_id_filter id key ≡ true → before_last key ≡ some id
unfolding payment_id_filter before_last
payment_id_filter-before_last [] [] h = cc
payment_id_filter-before_last [] (c ∷ []) h = ground arith
payment_id_filter-before_last [] (c ∷ d ∷ ds) h =
    ground (arith, before_last-digits (d ∷ ds), all_digits-IsDigit (d ∷ ds))
payment_id_filter-before_last (a ∷ id) [] h = cc
payment_id_filter-before_last (a ∷ id) (c ∷ cs) h =
    ground (arith, payment_id_filter-before_last id cs)

payment_id_filter_own :
    (id : Text) (n : ℕ) → payment_id_filter id (payment_document_key id n) ≡ true
unfolding payment_id_filter payment_document_key
payment_id_filter_own [] n =
    let (d, ds, e) = decimal-cons n in
    rw (e, some_digits) (IsDigit-all_digits (d ∷ ds) (rw e at (decimal-IsDigit n)))
payment_id_filter_own (a ∷ id) n = ground (arith, payment_id_filter_own id n)

-- The filter of a payment finds the keys of that payment's versions and of no other payment.
pub payment_id_filter-payment_document_key :
    (id j : Text) (n : ℕ) → (payment_id_filter id (payment_document_key j n) ≡ true) ↔ (id ≡ j)
unfolding payment_document_key
payment_id_filter-payment_document_key id j n = (
  λ h. some-injective _ _ (
      sym (payment_id_filter-before_last id (payment_document_key j n) h)
      ∙ before_last-append j (decimal n) (decimal-IsDigit n)),
  λ e. rw e (payment_id_filter_own j n),
)

-- Versions with the same key have the same payment identifier and the same number.
pub payment_document_key_injective :
    (i j : Text) (m n : ℕ) → payment_document_key i m ≡ payment_document_key j n → (i ≡ j) × (m ≡ n)
unfolding payment_document_key
payment_document_key_injective i j m n e =
    let ids : i ≡ j = some-injective _ _ (
      sym (before_last-append i (decimal m) (decimal-IsDigit m))
      ∙ ap before_last e
      ∙ before_last-append j (decimal n) (decimal-IsDigit n)) in
    (ids, decimal_injective m n (tail_eq (append_cancel_left j _ _ (rw ids at e))))
  where
    tail_eq : {ds es : Text} → bar ∷ ds ≡ bar ∷ es → ds ≡ es
    tail_eq h = cc

-- What passes the filter of an identifier is read back with that identifier.
pub payment_id_from_document_key_filtered :
    (id key : Text) → payment_id_filter id key ≡ true → payment_id_from_document_key key ≡ id
unfolding payment_id_from_document_key
payment_id_from_document_key_filtered id key h =
    rw (payment_id_filter-before_last id key h, payment_id_from_document_key)
