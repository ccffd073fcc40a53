-- ===== src/Versioned/Inserts.antt =====
-- What a first version makes of the version chains.
use policy_pilot.Prelude.{
  ℕ, ◌+◌, ◌≡◌, ap, false, List, [], ◌∷◌, ◌++◌, ◌&&◌, inl, inr, arith, ◌==◌, leb, if◌then◌else◌,
  count_if, All, Bool-cases, count_if-append,
}
use policy_pilot.Prelude.Updates.{count_if-zero, All-append, All-map}
use policy_pilot.Prelude.Text.{Text, same, same_iff}
use policy_pilot.Versioned.{Rows, IsVersioned, is_version_of, is_current_of}
use policy_pilot.Versioned.Chain.{
  has_key, versions, IsKeyed, IsNewest, IsChain, version_of-new, current_of-new, has_key-new,
}
use policy_pilot.Versioned.Writes.{version_number-new, new-IsKeyed}

module _ (R : Rows) (V : IsVersioned R) where
  -- A first version under a free key starts a chain, and leaves every other chain alone.
  module _ (p : R.Item) (now : ℕ) (docs : List R.Document) (own : IsChain R (R.id_of p) docs)
      (free : count_if (has_key R (R.document_id (R.to_document p 1 now))) docs ≡ 0) where
    first_is_free : count_if (has_key R (R.key (R.id_of p) 1)) docs ≡ 0
    first_is_free = ground (arith, free, ap (λ k. count_if (has_key R k) docs) (V.new_id p 1 now))

    no_versions : versions R (R.id_of p) docs ≡ 0
    no_versions = ground (arith, own.numbered 1, first_is_free)

    pub none_open : count_if (is_current_of R (R.id_of p)) docs ≡ 0
    none_open = ground (arith, no_versions, own.one_open)

    abbrev first : R.Document
    first = R.to_document p 1 now

    module _ (j : Text) (chain : IsChain R j docs) where
      first-versions :
          versions R j (docs ++ first ∷ [])
          ≡ versions R j docs + (if same j (R.id_of p) then 1 else 0)
      first-versions = ground (
        arith,
        count_if-append (is_version_of R j) docs (first ∷ []),
        version_of-new R V j p 1 now,
      )

      first_open :
          count_if (is_current_of R j) (docs ++ first ∷ [])
          ≡ (if versions R j (docs ++ first ∷ []) == 0 then 0 else 1)
      first_open = ground (
        arith,
        first-versions,
        count_if-append (is_current_of R j) docs (first ∷ []),
        current_of-new R V j p 1 now,
        chain.one_open,
        same_iff j (R.id_of p),
        no_versions,
        none_open,
        ap (λ i. versions R i docs) {x = j} {y = (R.id_of p)},
        ap (λ i. count_if (is_current_of R i) docs) {x = j} {y = (R.id_of p)},
      )

      first_numbered :
          (n : ℕ)
          → count_if (has_key R (R.key j n)) (docs ++ first ∷ [])
            ≡ (if leb 1 n && leb n (versions R j (docs ++ first ∷ [])) then 1 else 0)
      first_numbered n = ground (
        arith,
        first-versions,
        count_if-append (has_key R (R.key j n)) docs (first ∷ []),
        has_key-new R V j n p 1 now,
        chain.numbered n,
        same_iff j (R.id_of p),
        no_versions,
        ap (λ i. versions R i docs) {x = j} {y = (R.id_of p)},
      )

      old-IsNewest : All (IsNewest R j (versions R j (docs ++ first ∷ []))) docs
      old-IsNewest = elim (Bool-cases (same j (R.id_of p))) [
        | inl mine ↦
            All-map (λ x. is_current_of R j x ≡ false)
              (IsNewest R j (versions R j (docs ++ first ∷ []))) docs (λ x shut open_. cc)
              (count_if-zero (is_current_of R j) docs
                (rw ((same_iff j (R.id_of p)).0 mine) none_open))
        | inr other ↦
            let unchanged : versions R j (docs ++ first ∷ []) ≡ versions R j docs =
              ground (arith, first-versions) in
            rw unchanged chain.newest_open
      ]

      new-IsNewest : IsNewest R j (versions R j (docs ++ first ∷ [])) first
      new-IsNewest open_ = ground (
        arith,
        version_number-new R V p 1 now,
        current_of-new R V j p 1 now,
        same_iff j (R.id_of p),
        first-versions,
        no_versions,
        ap (λ i. versions R i docs) {x = j} {y = (R.id_of p)},
      )

      first-IsNewest : All (IsNewest R j (versions R j (docs ++ first ∷ []))) (docs ++ first ∷ [])
      first-IsNewest =
          All-append (IsNewest R j (versions R j (docs ++ first ∷ []))) docs (first ∷ [])
            old-IsNewest (new-IsNewest, tt)

      pub first-IsChain : IsChain R j (docs ++ first ∷ [])
      first-IsChain = record {
        one_open = first_open;
        numbered = first_numbered;
        keyed =
            All-append (IsKeyed R j) docs (first ∷ []) chain.keyed (new-IsKeyed R V j p 1 now, tt);
        newest_open = first-IsNewest;
      }
