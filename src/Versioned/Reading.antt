-- ===== src/Versioned/Reading.antt =====
-- What a read of the current version finds after a write.
use policy_pilot.Prelude.{
  ℕ, ◌+◌, ◌≡◌, ◌≢◌, refl, ◌∙◌, Bool, true, false, none, some, List, [], ◌∷◌, ◌++◌, arith, inl, inr,
  find?, count_if, update_first, Bool-cases,
}
use policy_pilot.Prelude.Text.{Text, same_iff, same_refl}
use policy_pilot.Versioned.{Rows, IsVersioned, is_current_of, is_row}
use policy_pilot.Versioned.Chain.{IsChain, appended, current_of-new, has_key}
use policy_pilot.Versioned.Writes.{closed_count, other_row, row_version}
use policy_pilot.Versioned.Inserts.{none_open}

find?-zero : {A : Type 0} (q : A → Bool) (xs : List A) → count_if q xs ≡ 0 → find? q xs ≡ none
find?-zero q [] h = refl
find?-zero q (x ∷ xs) h = ground (arith, find?-zero q xs)

find?-append_none :
    {A : Type 0} (q : A → Bool) (xs ys : List A)
    → find? q xs ≡ none
    → find? q (xs ++ ys) ≡ find? q ys
find?-append_none q [] ys h = refl
find?-append_none q (x ∷ xs) ys h = ground (arith, find?-append_none q xs ys)

find?-append_false :
    {A : Type 0} (q : A → Bool) (xs : List A) (y : A)
    → q y ≡ false
    → find? q (xs ++ y ∷ []) ≡ find? q xs
find?-append_false q [] y h = ground arith
find?-append_false q (x ∷ xs) y h = ground (arith, find?-append_false q xs y)

find?-update_first :
    {A : Type 0} (q r : A → Bool) (f : A → A) (xs : List A)
    → ((x : A) → r x ≡ true → (q x ≡ false) × (q (f x) ≡ false))
    → find? q (update_first r f xs) ≡ find? q xs
find?-update_first q r f [] h = refl
find?-update_first q r f (x ∷ xs) h = elim (Bool-cases (r x)) [
  | inl hit ↦ ground (arith, h x)
  | inr miss ↦ ground (arith, find?-update_first q r f xs h)
]

module _ (R : Rows) (V : IsVersioned R) where
  find?-new :
      (p : R.Item) (n now : ℕ)
      → find? (is_current_of R (R.id_of p)) (R.to_document p n now ∷ [])
        ≡ some (R.to_document p n now)
  find?-new p n now = ground (arith, current_of-new R V (R.id_of p) p n now, same_refl (R.id_of p))

  module _ (p : R.Item) (d : R.Document) (now : ℕ) (docs : List R.Document)
      (found : find? (is_current_of R (R.id_of p)) docs ≡ some d)
      (chain : IsChain R (R.id_of p) docs) where
    -- The version that was added is the current one.
    pub find?-appended :
        find?
          (is_current_of R (R.id_of p))
          (appended R d (R.to_document p (R.version_number d + 1) now) now docs)
        ≡ some (R.to_document p (R.version_number d + 1) now)
    find?-appended =
        find?-append_none (is_current_of R (R.id_of p))
          (update_first (is_row R d) (R.close_at now) docs) _
          (find?-zero (is_current_of R (R.id_of p))
            (update_first (is_row R d) (R.close_at now) docs)
            (ground (arith, closed_count R V p d now docs found chain, chain.one_open)))
        ∙ find?-new p (R.version_number d + 1) now

    -- Other records are read as before.
    pub find?-appended_other :
        (j : Text)
        → j ≢ R.id_of p
        → find?
            (is_current_of R j)
            (appended R d (R.to_document p (R.version_number d + 1) now) now docs)
          ≡ find? (is_current_of R j) docs
    find?-appended_other j differs =
        find?-append_false (is_current_of R j) (update_first (is_row R d) (R.close_at now) docs)
          (R.to_document p (R.version_number d + 1) now)
          (ground
            (arith, current_of-new R V j p (R.version_number d + 1) now, same_iff j (R.id_of p)))
        ∙ find?-update_first (is_current_of R j) (is_row R d) (R.close_at now) docs (λ x h. (
          ground (arith, row_version R V d x j h, other_row R V p d now docs found chain j differs),
          ground (arith, V.close_shut now x),
        ))

  module _ (p : R.Item) (now : ℕ) (docs : List R.Document) (own : IsChain R (R.id_of p) docs)
      (free : count_if (has_key R (R.document_id (R.to_document p 1 now))) docs ≡ 0) where
    -- Under a free key there is no current version.
    pub find?-free : find? (is_current_of R (R.id_of p)) docs ≡ none
    find?-free = find?-zero (is_current_of R (R.id_of p)) docs (none_open R V p now docs own free)

    -- A first version is the current one.
    pub find?-first :
        find? (is_current_of R (R.id_of p)) (docs ++ R.to_document p 1 now ∷ [])
        ≡ some (R.to_document p 1 now)
    find?-first =
        find?-append_none (is_current_of R (R.id_of p)) docs _
          (find?-zero (is_current_of R (R.id_of p)) docs (none_open R V p now docs own free))
        ∙ find?-new p 1 now

    pub find?-first_other :
        (j : Text)
        → j ≢ R.id_of p
        → find? (is_current_of R j) (docs ++ R.to_document p 1 now ∷ [])
          ≡ find? (is_current_of R j) docs
    find?-first_other j differs =
        find?-append_false (is_current_of R j) docs (R.to_document p 1 now)
          (ground (arith, current_of-new R V j p 1 now, same_iff j (R.id_of p)))
