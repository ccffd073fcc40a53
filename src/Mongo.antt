-- ===== src/Mongo.antt =====
-- The document database, which the services call through Motor and do not implement: an interface
-- to one collection, and the documented behaviour of the calls that the repositories make.
pub mod Memory
use policy_pilot.Prelude.{
  ℕ, suc, ◌≡◌, ◌≢◌, Bool, true, false, Option, none, some, List, [], ◌∷◌, ◌++◌, ◌==◌, if◌then◌else◌,
  find?, select, count_if, take, update_first,
}
use policy_pilot.Prelude.Text.{Text, same}
use policy_pilot.Prelude.Exec.{Result, ok}

-- The two exceptions of pymongo that the repositories name: `OperationFailure` has a code, and
-- may carry the label "TransientTransactionError".
pub data MongoError : Type 0 where
  duplicate_key : MongoError
  operation_failure : ℕ → Bool → MongoError

-- Equal up to order.
abbrev pub SameItems : {Doc : Type 0} → List Doc → List Doc → Type 0
SameItems {Doc} xs ys = (q : Doc → Bool) → count_if q xs ≡ count_if q ys

-- A collection as a client sees it. A call may fail, by the network or a write conflict.
pub record Collection (Doc : Type 0) : Type 1 where
  pub Data : Type 0
  -- the documents in natural order
  pub docs : Data → List Doc
  pub insert_one : Doc → Data → Result MongoError Data
  pub find_one : (Doc → Bool) → Data → Result MongoError (Option Doc)
  -- the new contents and `modified_count`
  pub update_one : (Doc → Bool) → (Doc → Doc) → Data → Result MongoError (Data × ℕ)
  -- `find(query).sort(key, -1).limit(n)`
  pub find_newest : (Doc → Bool) → (Doc → ℕ) → ℕ → Data → Result MongoError (List Doc)
  -- `find(query).sort(key, 1)`
  pub find_ordered : (Doc → Bool) → (Doc → ℕ) → Data → Result MongoError (List Doc)

-- What the calls do when they succeed.
pub record IsLawful {Doc : Type 0} (key : Doc → Text) (C : Collection Doc) : Type 0 where
  pub insert_one_lem :
      (d : Doc) (c : C.Data) {c' : C.Data}
      → C.insert_one d c ≡ ok c'
      → (C.docs c' ≡ C.docs c ++ d ∷ []) × (count_if (λ x. same (key x) (key d)) (C.docs c) ≡ 0)
  pub find_one_lem :
      (q : Doc → Bool) (c : C.Data) {r : Option Doc}
      → C.find_one q c ≡ ok r
      → r ≡ find? q (C.docs c)
  pub update_one_lem :
      (q : Doc → Bool) (f : Doc → Doc) (c : C.Data) {c' : C.Data} {n : ℕ}
      → C.update_one q f c ≡ ok (c', n)
      → C.docs c' ≡ update_first q f (C.docs c)
  pub find_newest_lem :
      (q : Doc → Bool) (order : Doc → ℕ) (limit : ℕ) (c : C.Data) {r : List Doc}
      → C.find_newest q order limit c ≡ ok r
      → (all : List Doc) × SameItems all (select q (C.docs c))
        × (r ≡ (if limit == 0 then all else take limit all))
  pub find_ordered_lem :
      (q : Doc → Bool) (order : Doc → ℕ) (c : C.Data) {r : List Doc}
      → C.find_ordered q order c ≡ ok r
      → SameItems r (select q (C.docs c))

-- A collection that is up: a call fails only for what it is asked. An insertion needs a free key, and an
-- update counts a document that it finds and changes.
pub record IsUp {Doc : Type 0} (key : Doc → Text) (C : Collection Doc) : Type 0 where
  pub insert_one_up :
      (d : Doc) (c : C.Data)
      → count_if (λ x. same (key x) (key d)) (C.docs c) ≡ 0
      → (c' : C.Data) × (C.insert_one d c ≡ ok c')
  pub find_one_up : (q : Doc → Bool) (c : C.Data) → (r : Option Doc) × (C.find_one q c ≡ ok r)
  pub update_one_up :
      (q : Doc → Bool) (f : Doc → Doc) (c : C.Data) {x : Doc}
      → find? q (C.docs c) ≡ some x
      → ¬ (f x ≡ x)
      → (c' : C.Data) × (C.update_one q f c ≡ ok (c', 1))
