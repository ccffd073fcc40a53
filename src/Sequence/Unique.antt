-- ===== src/Sequence/Unique.antt =====
-- Sequences of requests to sequence-service, and the identifiers given out.
use policy_pilot.Prelude.{
  ℕ, ◌+◌, ◌≡◌, ◌≢◌, ◌≤◌, ◌<◌, refl, sym, ap, ◌∙◌, Option, none, some, List, [], ◌∷◌, arith, All,
}
use policy_pilot.Prelude.Text.{Text}
use policy_pilot.Prelude.Exec.{Result, ok, err, ◌>>=◌, bind-ok}
use policy_pilot.Sequence.{
  EntityType, Counters, IsLawful, MongoFailure, CounterDocument, SequenceRepositoryError,
  SequenceResponse, number, allocate_next, next_sequence, next_security_event_sequence,
  build_counter_key, build_sequence_id, build_security_event_counter_key,
  build_security_event_sequence_id,
}
use policy_pilot.Sequence.Keys.{build_sequence_id_injective}

-- No two of a list are equal.
abbrev pub AllDistinct : List Text → Type 0
AllDistinct [] = Unit
AllDistinct (x ∷ xs) = All (λ y. x ≢ y) xs × AllDistinct xs

module _ (C : Counters) where
  -- A request of either endpoint.
  pub data SequenceRequest : Type 0 where
    sequence_request : C.Date → Text → EntityType → SequenceRequest
    security_event_request : Text → SequenceRequest

  abbrev pub key_of : SequenceRequest → Text
  key_of (sequence_request business_date owning_lob entity_type) =
      build_counter_key C business_date owning_lob entity_type
  key_of (security_event_request resource_id) = build_security_event_counter_key resource_id

  abbrev pub respond :
      SequenceRequest → C.Data → Result SequenceRepositoryError SequenceResponse × C.Data
  respond (sequence_request business_date owning_lob entity_type) =
      next_sequence C business_date owning_lob entity_type
  respond (security_event_request resource_id) = next_security_event_sequence C resource_id

  abbrev with_id : Result SequenceRepositoryError SequenceResponse → List Text → List Text
  with_id (ok r) ids = r.sequence_id ∷ ids
  with_id (err e) ids = ids

  -- The identifiers that a sequence of requests is given, in order.
  unfoldable pub issued : List SequenceRequest → C.Data → List Text
  issued [] c = []
  issued (r ∷ rs) c = let (a, c') = respond r c in with_id a (issued rs c')

  -- Every response carries the identifier of its counter and number; the counter has moved on.
  respond_runs :
      (r : SequenceRequest) (c : C.Data) → (respond r c).1 ≡ (C.find_one_and_update (key_of r) c).1
  unfolding next_sequence next_security_event_sequence allocate_next ◌>>=◌
  respond_runs (sequence_request d l e) c = ground arith
  respond_runs (security_event_request i) c = ground arith

  module _ (L : IsLawful C) where
    number_ok :
        (key : Text) (c c' : C.Data) (r : Result MongoFailure (Option CounterDocument)) (n : ℕ)
        → C.find_one_and_update key c ≡ (r, c')
        → number C r ≡ ok n
        → (n ≡ L.seq_of c key + 1) × (L.seq_of c' key ≡ n)
    number_ok key c c' (err e) n h is = cc
    number_ok key c c' (ok none) n h is = cc
    number_ok key c c' (ok (some d)) n h is = L.allocated_lem key c h (has_seq d is)
      where
        has_seq : (d : CounterDocument) → number C (ok (some d)) ≡ ok n → d.seq ≡ some n
        has_seq d is = ground arith

    allocate_next_ok :
        (key : Text) (c : C.Data) {n : ℕ} {c' : C.Data}
        → allocate_next C key c ≡ (ok n, c')
        → (n ≡ L.seq_of c key + 1) × (L.seq_of c' key ≡ n)
    unfolding allocate_next
    allocate_next_ok key c {n} {c'} h =
        let moved : (C.find_one_and_update key c).1 ≡ c' = ap (λ x. x.1) h in
        number_ok key c c' (C.find_one_and_update key c).0 n
          (ap (λ x. ((C.find_one_and_update key c).0, x)) moved) (ap (λ x. x.0) h)

    -- The two endpoints, as one statement.
    respond_ok :
        (r : SequenceRequest) (c : C.Data) {a : SequenceResponse} {c' : C.Data}
        → respond r c ≡ (ok a, c')
        → (n : ℕ) × (a.sequence_id ≡ build_sequence_id (key_of r) n)
          × (n ≡ L.seq_of c (key_of r) + 1)
          × (L.seq_of c' (key_of r) ≡ n)
    unfolding next_sequence next_security_event_sequence build_security_event_sequence_id
    respond_ok (sequence_request d l e) c {a} {c'} h = bind-ok _ _ c h λ n c1 allocated h1.
        let (is, moved) = allocate_next_ok (build_counter_key C d l e) c allocated in
        let same : c1 ≡ c' = ap (λ x. x.1) h1 in (n, cc, is, rw (sym same) moved)
    respond_ok (security_event_request i) c {a} {c'} h = bind-ok _ _ c h λ n c1 allocated h1.
        let (is, moved) = allocate_next_ok (build_security_event_counter_key i) c allocated in
        let same : c1 ≡ c' = ap (λ x. x.1) h1 in (n, cc, is, rw (sym same) moved)

    -- An identifier whose number its counter has not reached.
    abbrev IsFresh : C.Data → Text → Type 0
    IsFresh c id = (key : Text) × (n : ℕ) × (id ≡ build_sequence_id key n) × (L.seq_of c key < n)

    IsFresh-earlier :
        (r : SequenceRequest) (c : C.Data) (ids : List Text)
        → All (IsFresh (respond r c).1) ids
        → All (IsFresh c) ids
    IsFresh-earlier r c [] h = tt
    IsFresh-earlier r c (id ∷ ids) ((key, n, is, above), rest) =
        let grown : L.seq_of c key ≤ L.seq_of (respond r c).1 key =
          rw (respond_runs r c) (L.monotone_lem (key_of r) c key) in
        ((key, n, is, omega arith), IsFresh-earlier r c ids rest)

    differs :
        (id : Text) (c : C.Data) (key : Text) (n : ℕ) (ids : List Text)
        → id ≡ build_sequence_id key n
        → L.seq_of c key ≡ n
        → All (IsFresh c) ids
        → All (λ y. id ≢ y) ids
    differs id c key n [] is reached h = tt
    differs id c key n (y ∷ ys) is reached ((k, m, y_is, above), rest) = (
      λ same.
          let (same_key, same_number) =
            build_sequence_id_injective key k n m (sym is ∙ same ∙ y_is) in
          absurd (omega (arith, ap (L.seq_of c) same_key)),
      differs id c key n ys is reached rest,
    )

    issued-IsFresh : (rs : List SequenceRequest) (c : C.Data) → All (IsFresh c) (issued rs c)
    unfolding issued
    issued-IsFresh [] c = tt
    issued-IsFresh (r ∷ rs) c =
        let later =
          IsFresh-earlier r c (issued rs (respond r c).1) (issued-IsFresh rs (respond r c).1) in
        go (respond r c) refl later
      where
        go :
            (p : Result SequenceRepositoryError SequenceResponse × C.Data)
            → respond r c ≡ p
            → All (IsFresh c) (issued rs p.1)
            → All (IsFresh c) (with_id p.0 (issued rs p.1))
        go (ok a, c') h later =
            let (n, is, next, moved) = respond_ok r c h in ((key_of r, n, is, omega arith), later)
        go (err e, c') h later = later

    -- Over a lawful collection of counters, the identifiers given out by any sequence of requests, of
    -- either endpoint and with any failures in between, are pairwise different.
    pub issued-AllDistinct : (rs : List SequenceRequest) (c : C.Data) → AllDistinct (issued rs c)
    unfolding issued
    issued-AllDistinct [] c = tt
    issued-AllDistinct (r ∷ rs) c = go (respond r c) refl (issued-AllDistinct rs (respond r c).1)
      where
        go :
            (p : Result SequenceRepositoryError SequenceResponse × C.Data)
            → respond r c ≡ p
            → AllDistinct (issued rs p.1)
            → AllDistinct (with_id p.0 (issued rs p.1))
        go (ok a, c') h later =
            let (n, is, next, moved) = respond_ok r c h in
            (
              differs a.sequence_id c' (key_of r) n (issued rs c') is moved (issued-IsFresh rs c'),
              later,
            )
        go (err e, c') h later = later
