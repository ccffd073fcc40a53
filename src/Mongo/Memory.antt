-- ===== src/Mongo/Memory.antt =====
-- A collection kept in a list, where only a duplicate key fails: it shows that the assumed behaviour of a
-- collection can be met, and it runs the tests.
use policy_pilot.Prelude.{
  ℕ, ◌≡◌, refl, Bool, List, [], ◌∷◌, ◌++◌, arith, ◌==◌, leb, if◌then◌else◌, find?, select, count_if,
  take, update_first, is_some,
}
use policy_pilot.Prelude.Text.{Text, same}
use policy_pilot.Prelude.Exec.{Result, ok, err}
use policy_pilot.Mongo.{MongoError, duplicate_key, Collection, IsLawful, IsUp, SameItems}

module _ {Doc : Type 0} (order : Doc → ℕ) where
  -- Stable insertion; the first document with the largest order stands first.
  put_desc : Doc → List Doc → List Doc
  put_desc d [] = d ∷ []
  put_desc d (x ∷ xs) =
      let rest = put_desc d xs in if leb (order x) (order d) then d ∷ x ∷ xs else x ∷ rest

  unfoldable pub descending : List Doc → List Doc
  unfolding put_desc
  descending [] = []
  descending (x ∷ xs) = put_desc x (descending xs)

  put_asc : Doc → List Doc → List Doc
  put_asc d [] = d ∷ []
  put_asc d (x ∷ xs) =
      let rest = put_asc d xs in if leb (order d) (order x) then d ∷ x ∷ xs else x ∷ rest

  unfoldable pub ascending : List Doc → List Doc
  unfolding put_asc
  ascending [] = []
  ascending (x ∷ xs) = put_asc x (ascending xs)

  count_if-put_desc :
      (q : Doc → Bool) (d : Doc) (xs : List Doc) → count_if q (put_desc d xs) ≡ count_if q (d ∷ xs)
  unfolding put_desc
  count_if-put_desc q d [] = refl
  count_if-put_desc q d (x ∷ xs) = ground (arith, count_if-put_desc q d xs)

  count_if-put_asc :
      (q : Doc → Bool) (d : Doc) (xs : List Doc) → count_if q (put_asc d xs) ≡ count_if q (d ∷ xs)
  unfolding put_asc
  count_if-put_asc q d [] = refl
  count_if-put_asc q d (x ∷ xs) = ground (arith, count_if-put_asc q d xs)

  pub descending-SameItems : (xs : List Doc) → SameItems (descending xs) xs
  unfolding descending
  descending-SameItems [] q = refl
  descending-SameItems (x ∷ xs) q =
      ground (arith, count_if-put_desc q x (descending xs), descending-SameItems xs q)

  pub ascending-SameItems : (xs : List Doc) → SameItems (ascending xs) xs
  unfolding ascending
  ascending-SameItems [] q = refl
  ascending-SameItems (x ∷ xs) q =
      ground (arith, count_if-put_asc q x (ascending xs), ascending-SameItems xs q)

ok_injective : {A : Type 0} {a b : A} → ◌≡◌ {A = Result MongoError A} (ok a) (ok b) → a ≡ b
ok_injective h = cc

module _ {Doc : Type 0} (key : Doc → Text) where
  abbrev pub memory : Collection Doc
  memory = record {
    Data = List Doc;
    docs = λ c. c;
    insert_one = λ d c.
        if count_if (λ x. same (key x) (key d)) c == 0 then ok (c ++ d ∷ []) else err duplicate_key;
    find_one = λ q c. ok (find? q c);
    update_one = λ q f c. ok (update_first q f c, if is_some (find? q c) then 1 else 0);
    find_newest = λ q order limit c.
        let all = descending order (select q c) in ok (if limit == 0 then all else take limit all);
    find_ordered = λ q order c. ok (ascending order (select q c));
  }

  insert_one-memory :
      (d : Doc) (c : List Doc) {c' : List Doc}
      → memory.insert_one d c ≡ ok c'
      → (c' ≡ c ++ d ∷ []) × (count_if (λ x. same (key x) (key d)) c ≡ 0)
  insert_one-memory d c h = ground arith

  -- The list meets the assumptions.
  pub memory-IsLawful : IsLawful key memory
  memory-IsLawful = record {
    insert_one_lem = insert_one-memory;
    find_one_lem = λ q c h. ground arith;
    update_one_lem = λ q f c h. ground arith;
    find_newest_lem = λ q order limit c h.
        (descending order (select q c), descending-SameItems order (select q c), ground arith);
    find_ordered_lem =
        λ q order c {r} h p. rw (← ok_injective h) (ascending-SameItems order (select q c) p);
  }

  -- It is up.
  pub memory-IsUp : IsUp key memory
  memory-IsUp = record {
    insert_one_up = λ d c free. (c ++ d ∷ [], ground arith);
    find_one_up = λ q c. (find? q c, refl);
    update_one_up = λ q f c found changes. (update_first q f c, ground arith);
  }
