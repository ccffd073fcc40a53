-- ===== src/Versioned/Progress.antt =====
-- `append_version` over a collection that is up.
use policy_pilot.Prelude.{
  ℕ, ◌+◌, ◌≡◌, refl, ap, Bool, true, some, List, [], ◌∷◌, inl, inr, arith, find?, find?-some,
  is_some, count_if, update_first, Bool-cases, Option-cases, ◌∙◌,
}
use policy_pilot.Prelude.Updates.{count_if-update_first}
use policy_pilot.Prelude.Exec.{ok, ◌>>=◌, ◌>>◌}
use policy_pilot.Mongo.{Collection, IsLawful, IsUp}
use policy_pilot.Versioned.{
  Rows, IsVersioned, is_current_of, is_row, reading, writing, inserting, append_after,
  append_version,
}
use policy_pilot.Versioned.Chain.{has_key, IsChain, has_key-close}
use policy_pilot.Versioned.Writes.{current_row, current_version}
use policy_pilot.Versioned.Versions.{IsValid}

found_other :
    {A : Type 0} (q r : A → Bool) (xs : List A) {x : A}
    → find? q xs ≡ some x
    → r x ≡ true
    → is_some (find? r xs) ≡ true
found_other q r [] h k = cc
found_other q r (y ∷ ys) {x} h k = elim (Bool-cases (r y)) [
  | inl here ↦ rw here refl
  | inr there ↦ elim (Bool-cases (q y)) [
    | inl is ↦ ground arith
    | inr other ↦ rw there (found_other q r ys (rw other at h) k)
  ]
]

module _ (R : Rows) (V : IsVersioned R) (p : R.Item) (now : ℕ) (docs : List R.Document)
    (d : R.Document) (found : find? (is_current_of R (R.id_of p)) docs ≡ some d) where
  abbrev next : R.Document
  next = R.to_document (R.touch now p) (R.version_number d + 1) now

  -- No version has the key of the next one.
  key_is_free :
      IsChain R (R.id_of p) docs
      → count_if (has_key R (R.document_id next)) (update_first (is_row R d) (R.close_at now) docs)
        ≡ 0
  key_is_free chain = ground (
    arith,
    count_if-update_first (has_key R (R.document_id next)) (is_row R d) (R.close_at now) docs
        (λ x _. has_key-close R V (R.document_id next) now x),
    ap (λ k. count_if (has_key R k) docs) (V.new_id (R.touch now p) (R.version_number d + 1) now),
    ap (λ i. count_if (has_key R (R.key i (R.version_number d + 1))) docs) (V.touch_id now p),
    current_version R V p d now docs found chain,
    chain.numbered (R.version_number d + 1),
  )

  found_row : (x : R.Document) × (find? (is_row R d) docs ≡ some x)
  found_row =
      let row =
        found_other (is_current_of R (R.id_of p)) (is_row R d) docs found
          (current_row R V d (R.id_of p) (find?-some (is_current_of R (R.id_of p)) docs found)) in
      elim (Option-cases (find? (is_row R d) docs)) [
        | inl missing ↦ ground arith
        | inr there ↦ there
      ]

  -- Closing an open row changes it.
  row_changes : (x : R.Document) → find? (is_row R d) docs ≡ some x → ¬ (R.close_at now x ≡ x)
  row_changes x there same_ =
      ground (arith, find?-some (is_row R d) docs there, V.close_shut now x, ap R.is_open same_)

module _ (R : Rows) (V : IsVersioned R) (C : Collection R.Document) (L : IsLawful R.document_id C)
    (U : IsUp R.document_id C) where
  -- Over a collection that is up, with valid chains and an open version of the record, a version is
  -- appended: the call returns one.
  pub append_version_returns :
      (p : R.Item) (now : ℕ) (c : C.Data) (d : R.Document)
      → find? (is_current_of R (R.id_of p)) (C.docs c) ≡ some d
      → IsValid R (C.docs c)
      → (saved : R.Version) × (c' : C.Data) × (append_version R C p now c ≡ (ok saved, c'))
  unfolding append_version append_after reading writing inserting ◌>>=◌ ◌>>◌
  append_version_returns p now c d found valid =
      let docs = C.docs c in
      let (r, read) = U.find_one_up (is_current_of R (R.id_of p)) c in
      let is : r ≡ some d = L.find_one_lem (is_current_of R (R.id_of p)) c read ∙ found in
      let (x, there) = found_row R V p now docs d found in
      let (c1, updated) =
        U.update_one_up (is_row R d) (R.close_at now) c there
          (row_changes R V p now docs d found x there) in
      let stored = L.update_one_lem (is_row R d) (R.close_at now) c updated in
      let next_ = next R V p now docs d found in
      let (c2, inserted) = U.insert_one_up next_ c1 (
        ap (count_if (has_key R (R.document_id next_))) stored
        ∙ key_is_free R V p now docs d found (valid (R.id_of p))) in
      (R.to_version next_, c2, ground (arith, read, is, updated, inserted))
