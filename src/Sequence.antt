-- ===== src/Sequence.antt =====
-- sequence-service (seq/formatting.py, seq/repository.py, seq/service.py): identifiers from counters.
pub mod Keys
pub mod Unique
mod Tests
use policy_pilot.Prelude.{ℕ, ◌≡◌, ◌≤◌, ◌+◌, Option, none, some, List, [], ◌∷◌, ◌++◌}
use policy_pilot.Prelude.Text.{Text, codes}
use policy_pilot.Prelude.Text.Decimal.{decimal}
use policy_pilot.Prelude.Exec.{Result, ok, err, Exec, pure, ◌>>=◌}

pub data EntityType : Type 0 where
  instruction payment : EntityType

-- The character '-'.
abbrev pub dash : ℕ
dash = 45

abbrev pub entity_type_code : EntityType → Text
entity_type_code instruction = codes "I"
entity_type_code payment = codes "P"

unfoldable pub build_sequence_id : Text → ℕ → Text
build_sequence_id counter_key sequence_number = counter_key ++ dash ∷ decimal sequence_number

unfoldable pub build_security_event_counter_key : Text → Text
build_security_event_counter_key resource_id = resource_id ++ codes "-SE"

unfoldable pub build_security_event_sequence_id : Text → ℕ → Text
build_security_event_sequence_id resource_id sequence_number =
    build_sequence_id (build_security_event_counter_key resource_id) sequence_number

-- A counter document as it comes back: without one, or without its "seq" field, there is no number.
pub record CounterDocument : Type 0 where
  pub seq : Option ℕ

-- Any exception of pymongo.
pub data MongoFailure : Type 0 where
  failure : MongoFailure

pub data SequenceRepositoryError : Type 0 where
  allocation_failed returned_no_counter : SequenceRepositoryError

-- What is called: `strftime("%Y%m%d")`, and `find_one_and_update` with `$inc` by 1, an upsert, and the
-- document after the update. A call that fails may have been applied.
pub record Counters : Type 1 where
  pub Date : Type 0
  pub compact_business_date : Date → Text
  pub Data : Type 0
  pub find_one_and_update : Text → Data → Result MongoFailure (Option CounterDocument) × Data

-- The number of a counter, as the collection holds it; a missing counter is 0.
pub record IsLawful (C : Counters) : Type 0 where
  pub seq_of : C.Data → Text → ℕ
  pub allocated_lem :
      (key : Text) (c : C.Data) {d : CounterDocument} {n : ℕ} {c' : C.Data}
      → C.find_one_and_update key c ≡ (ok (some d), c')
      → d.seq ≡ some n
      → (n ≡ seq_of c key + 1) × (seq_of c' key ≡ n)
  pub monotone_lem :
      (key : Text) (c : C.Data) (k : Text) → seq_of c k ≤ seq_of (C.find_one_and_update key c).1 k

pub record SequenceResponse : Type 0 where
  pub sequence_id : Text
  pub sequence_number : ℕ
  pub counter_key : Text

module _ (C : Counters) where
  unfoldable pub build_counter_key : C.Date → Text → EntityType → Text
  build_counter_key business_date owning_lob entity_type =
      C.compact_business_date business_date
      ++ dash ∷ owning_lob
      ++ dash ∷ entity_type_code entity_type

  -- The number in what `find_one_and_update` returned, or the exception raised.
  abbrev pub number :
      Result MongoFailure (Option CounterDocument) → Result SequenceRepositoryError ℕ
  number (err e) = err allocation_failed
  number (ok none) = err returned_no_counter
  number (ok (some d)) = elim d.seq [ some n ↦ ok n | none ↦ err returned_no_counter ]

  unfoldable pub allocate_next : Text → Exec SequenceRepositoryError C.Data ℕ
  allocate_next counter_key c = let (r, c') = C.find_one_and_update counter_key c in (number r, c')

  unfoldable pub next_sequence :
      C.Date → Text → EntityType → Exec SequenceRepositoryError C.Data SequenceResponse
  next_sequence business_date owning_lob entity_type = do
    let counter_key = build_counter_key business_date owning_lob entity_type
    sequence_number ← allocate_next counter_key
    pure (record {
      sequence_id = build_sequence_id counter_key sequence_number;
      sequence_number = sequence_number;
      counter_key = counter_key;
    })

  unfoldable pub next_security_event_sequence :
      Text → Exec SequenceRepositoryError C.Data SequenceResponse
  next_security_event_sequence resource_id = do
    let counter_key = build_security_event_counter_key resource_id
    sequence_number ← allocate_next counter_key
    pure (record {
      sequence_id = build_security_event_sequence_id resource_id sequence_number;
      sequence_number = sequence_number;
      counter_key = counter_key;
    })
