-- ===== src/Versioned/Versions.antt =====
-- The common code of the two repositories over a lawful collection: what its operations return, and
-- the version chains.
use policy_pilot.Prelude.{
  ℕ, ◌+◌, ◌≡◌, ap, ◌∙◌, Bool, Option, none, some, List, [], ◌∷◌, ◌++◌, inl, inr, arith, ◌==◌, find?,
  count_if, Bool-cases, not,
}
use policy_pilot.Prelude.Text.{Text, same, same_iff}
use policy_pilot.Prelude.Exec.{ok, raise_if_ok, or_raise, bind-ok, then-ok}
use policy_pilot.Mongo.{MongoError, Collection, IsLawful}
use policy_pilot.Versioned.{
  Rows, IsVersioned, is_current_of, is_row, reading, writing, inserting, conflict, append_after,
  append_version, insert_initial, get_current,
}
use policy_pilot.Versioned.Chain.{IsChain, appended, has_key}
use policy_pilot.Versioned.Writes.{own-IsChain, other-IsChain}
use policy_pilot.Versioned.Inserts.{first-IsChain}

-- Every record's versions form a chain.
abbrev pub IsValid : (R : Rows) → List R.Document → Type 0
IsValid R docs = (id : Text) → IsChain R id docs

module _ (R : Rows) (V : IsVersioned R) where
  -- Closing the open version and adding the next keep every record's versions a chain.
  pub appended-IsValid :
      (p : R.Item) (d : R.Document) (now : ℕ) (docs : List R.Document)
      → find? (is_current_of R (R.id_of p)) docs ≡ some d
      → IsValid R docs
      → IsValid R
          (appended R d (R.to_document (R.touch now p) (R.version_number d + 1) now) now docs)
  appended-IsValid p d now docs found valid id =
      let q = R.touch now p in
      let found' : find? (is_current_of R (R.id_of q)) docs ≡ some d =
        ap (λ i. find? (is_current_of R i) docs) (V.touch_id now p) ∙ found in
      elim (Bool-cases (same id (R.id_of q))) [
        | inl own ↦
            rw ((same_iff id (R.id_of q)).0 own)
              (own-IsChain R V q d now docs found' (valid (R.id_of q)))
        | inr other ↦
            other-IsChain R V q d now docs found' (valid (R.id_of q)) id
              (ground (arith, same_iff id (R.id_of q))) (valid id)
      ]

  -- So does a first version under a free key.
  pub first-IsValid :
      (p : R.Item) (now : ℕ) (docs : List R.Document)
      → count_if (has_key R (R.document_id (R.to_document p 1 now))) docs ≡ 0
      → IsValid R docs
      → IsValid R (docs ++ R.to_document p 1 now ∷ [])
  first-IsValid p now docs free valid id =
      first-IsChain R V p now docs (valid (R.id_of p)) free id (valid id)

module _ (R : Rows) (V : IsVersioned R) (C : Collection R.Document)
    (L : IsLawful R.document_id C) where
  pub reading_find_one :
      (q : R.Document → Bool) (c : C.Data) {r : Option R.Document} {c' : C.Data}
      → reading R C (C.find_one q) c ≡ (ok r, c')
      → (r ≡ find? q (C.docs c)) × (c' ≡ c)
  unfolding reading
  reading_find_one q c {r} h = ground (arith, L.find_one_lem q c {r = r})

  writing_update :
      (handler : MongoError → R.Error) (q : R.Document → Bool) (f : R.Document → R.Document)
      (c : C.Data) {n : ℕ} {c' : C.Data}
      → writing R C handler (C.update_one q f) c ≡ (ok n, c')
      → C.update_one q f c ≡ ok (c', n)
  unfolding writing
  writing_update handler q f c h = ground arith

  inserting_lem :
      (handler : MongoError → R.Error) (d : R.Document) (c : C.Data) {u : Unit} {c' : C.Data}
      → inserting R C handler d c ≡ (ok u, c')
      → C.insert_one d c ≡ ok c'
  unfolding inserting
  inserting_lem handler d c h = ground arith

  pub or_raise_ok :
      {A : Type 0} (o : Option A) (e : R.Error) (c : C.Data) {a : A} {c' : C.Data}
      → or_raise o e c ≡ (ok a, c')
      → (o ≡ some a) × (c' ≡ c)
  or_raise_ok none e c h = cc
  or_raise_ok (some b) e c h = (cc, cc)

  pub append_after_ok :
      (d : R.Document) (p : R.Item) (now : ℕ) (c : C.Data) {saved : R.Version} {c' : C.Data}
      → append_after R C d p now c ≡ (ok saved, c')
      → (saved ≡ R.open_version (R.touch now p) (R.version_number d + 1) now)
        × (C.docs c'
            ≡ appended R d
                (R.to_document (R.touch now p) (R.version_number d + 1) now)
                now
                (C.docs c))
  unfolding append_after
  append_after_ok d p now c h = bind-ok _ _ c h λ n c1 updated h1.
      then-ok _ _ c1 h1 λ _ c2 counted h2. then-ok _ _ c2 h2 λ _ c3 inserted h3. ground (
        arith,
        raise_if_ok (not (n == 1)) (R.concurrent_modification (R.id_of p) (R.version_number d)) c1
            counted,
        writing_update (conflict R (R.id_of p) (R.version_number d)) (is_row R d) (R.close_at now) c
            updated,
        inserting_lem (conflict R (R.id_of p) (R.version_number d))
            (R.to_document (R.touch now p) (R.version_number d + 1) now) c2 inserted,
        L.insert_one_lem (R.to_document (R.touch now p) (R.version_number d + 1) now) c2 {c' = c3},
        L.update_one_lem (is_row R d) (R.close_at now) c {c' = c1} {n = n},
        V.new_version (R.touch now p) (R.version_number d + 1) now,
      )

  -- What a successful `append_version` did.
  pub append_version_ok :
      (p : R.Item) (now : ℕ) (c : C.Data) {saved : R.Version} {c' : C.Data}
      → append_version R C p now c ≡ (ok saved, c')
      → (d : R.Document) × (find? (is_current_of R (R.id_of p)) (C.docs c) ≡ some d)
        × (saved ≡ R.open_version (R.touch now p) (R.version_number d + 1) now)
        × (C.docs c'
            ≡ appended R d
                (R.to_document (R.touch now p) (R.version_number d + 1) now)
                now
                (C.docs c))
  unfolding append_version
  append_version_ok p now c h = bind-ok _ _ c h λ r c1 read h1. bind-ok _ _ c1 h1 λ d c2 chosen h2.
      let (read_is, same1) = reading_find_one (is_current_of R (R.id_of p)) c read in
      let (chosen_is, same2) = or_raise_ok r (R.not_found (R.id_of p)) c1 chosen in
      (
        d,
        cc,
        (append_after_ok d p now c (rw (same2 ∙ same1) at h2)).0,
        (append_after_ok d p now c (rw (same2 ∙ same1) at h2)).1,
      )

  -- A read of the current version returns the open document and changes nothing.
  pub get_current_ok :
      (id : Text) (c : C.Data) {current : R.Version} {c' : C.Data}
      → get_current R C id c ≡ (ok current, c')
      → (d : R.Document) × (find? (is_current_of R id) (C.docs c) ≡ some d)
        × (current ≡ R.to_version d)
        × (c' ≡ c)
  unfolding get_current
  get_current_ok id c h = bind-ok _ _ c h λ r c1 read h1. bind-ok _ _ c1 h1 λ d c2 chosen h2.
      let (read_is, same1) = reading_find_one (is_current_of R id) c read in
      let (chosen_is, same2) = or_raise_ok r (R.not_found id) c1 chosen in (d, cc, cc, cc)

  -- The first version is inserted as version 1, under a key that was free.
  pub insert_initial_ok :
      (p : R.Item) (now : ℕ) (c : C.Data) {saved : R.Version} {c' : C.Data}
      → insert_initial R C p now c ≡ (ok saved, c')
      → (saved ≡ R.open_version p 1 now)
        × (C.docs c' ≡ C.docs c ++ R.to_document p 1 now ∷ [])
        × (count_if (has_key R (R.document_id (R.to_document p 1 now))) (C.docs c) ≡ 0)
  unfolding insert_initial
  insert_initial_ok p now c h = then-ok _ _ c h λ _ c1 inserted h1. ground (
    arith,
    inserting_lem R.mongo_error (R.to_document p 1 now) c inserted,
    L.insert_one_lem (R.to_document p 1 now) c {c' = c1},
    V.new_version p 1 now,
  )

  -- If every record's versions R form a chain and `append_version` returns, they still do: closing the
  -- open version and adding the next leave no gap, no duplicate, and exactly one open version.
  pub append_version-IsValid :
      (p : R.Item) (now : ℕ) (c : C.Data) {saved : R.Version} {c' : C.Data}
      → append_version R C p now c ≡ (ok saved, c')
      → IsValid R (C.docs c)
      → IsValid R (C.docs c')
  append_version-IsValid p now c h valid =
      let (d, found, _, docs') = append_version_ok p now c h in
      rw docs' (appended-IsValid R V p d now (C.docs c) found valid)

  -- A first version that is inserted keeps every record's versions R a chain.
  pub insert_initial-IsValid :
      (p : R.Item) (now : ℕ) (c : C.Data) {saved : R.Version} {c' : C.Data}
      → insert_initial R C p now c ≡ (ok saved, c')
      → IsValid R (C.docs c)
      → IsValid R (C.docs c')
  insert_initial-IsValid p now c h valid =
      let (_, docs', free) = insert_initial_ok p now c h in
      rw docs' (first-IsValid R V p now (C.docs c) free valid)
