-- ===== src/Sequence/Tests.antt =====
-- Counters kept in a function, and the theorems about sequence-service on them.
use policy_pilot.Prelude.{
  ℕ, ◌+◌, ◌≡◌, refl, sym, ap, ◌∙◌, none, Option, some, List, [], ◌∷◌, arith, if◌then◌else◌,
}
use mathlib.Core.Option.{some-injective}
use policy_pilot.Prelude.Text.{Text, codes, same, same_refl}
use policy_pilot.Prelude.Exec.{Result, ok}
use policy_pilot.Sequence.{MongoFailure, payment, Counters, CounterDocument, IsLawful}
use policy_pilot.Sequence.Keys.{build_sequence_id_injective}
use policy_pilot.Sequence.Unique.{
  SequenceRequest, sequence_request, security_event_request, issued, AllDistinct,
  issued-AllDistinct,
}

abbrev counters : Counters
counters = record {
  Date = Unit {0};
  compact_business_date = λ _. codes "20260102";
  Data = Text → ℕ;
  find_one_and_update = λ key c.
      (ok (some (record { seq = some (c key + 1) })), λ k. if same k key then c k + 1 else c k);
}

abbrev seq_in : Result MongoFailure (Option CounterDocument) → Option ℕ
seq_in (ok (some d)) = d.seq
seq_in _ = none

allocates :
    (key : Text) (c : Text → ℕ) {d : CounterDocument} {n : ℕ} {c' : Text → ℕ}
    → counters.find_one_and_update key c ≡ (ok (some d), c')
    → d.seq ≡ some n
    → (n ≡ c key + 1) × (c' key ≡ n)
allocates key c {d} {n} {c'} h is =
    let read : some (c key + 1) ≡ d.seq = ap (λ x. seq_in x.0) h in
    let counted : n ≡ c key + 1 = some-injective _ _ (sym (read ∙ is)) in
    let stored : (if same key key then c key + 1 else c key) ≡ c' key = ap (λ x. x.1 key) h in
    (counted, ground (arith, same_refl key))

counters-IsLawful : IsLawful counters
counters-IsLawful = record {
  seq_of = λ c k. c k;
  allocated_lem = allocates;
  monotone_lem = λ key c k. ground arith;
}

abbrev requests : List (SequenceRequest counters)
requests =
    sequence_request tt (codes "FX") payment
    ∷ sequence_request tt (codes "FX") payment
    ∷ security_event_request (codes "20260102-FX-P-1")
    ∷ []

issued-AllDistinct_example : AllDistinct (issued counters requests (λ _. 0))
issued-AllDistinct_example = issued-AllDistinct counters counters-IsLawful requests (λ _. 0)

build_sequence_id_injective_example : (codes "A-1" ≡ codes "A-1") × ◌≡◌ {A = ℕ} 2 2
build_sequence_id_injective_example =
    build_sequence_id_injective (codes "A-1") (codes "A-1") 2 2 refl
