-- ===== src/Versioned/Writes.antt =====
-- What a write makes of a version chain, part by part.
use policy_pilot.Prelude.{
  ℕ, suc, ◌+◌, ◌≡◌, ◌≢◌, ap, true, false, some, List, [], ◌∷◌, ◌&&◌, arith, leb, if◌then◌else◌,
  find?, count_if, update_first, All, count_if-append, find?-some,
}
use policy_pilot.Prelude.Updates.{
  count_if-update_first, count_if-update_first_drop, count_if-zero, find?-pos, All-find?,
  All-append, All-map, All-update_first,
}
use policy_pilot.Prelude.Text.{Text, same_iff, same_refl}
use policy_pilot.Versioned.{Rows, IsVersioned, is_version_of, is_current_of, is_row}
use policy_pilot.Versioned.Chain.{
  has_key, versions, IsKeyed, IsNewest, IsChain, appended, version_of-new, current_of-new,
  has_key-new, version_of-close, has_key-close, close-IsKeyed,
}

module _ (R : Rows) (V : IsVersioned R) where
  pub version_number-new :
      (p : R.Item) (n : ℕ) (now : ℕ) → R.version_number (R.to_document p n now) ≡ n
  version_number-new p n now = V.new_number p n now

  -- The row of `d` is `d` as far as the queries see it.
  pub row_version :
      (d x : R.Document) (id : Text)
      → is_row R d x ≡ true
      → is_version_of R id x ≡ is_version_of R id d
  row_version d x id h =
      ap (R.id_filter id) ((same_iff (R.document_id x) (R.document_id d)).0 (ground arith))

  row_open : (d x : R.Document) → is_row R d x ≡ true → R.is_open x ≡ true
  row_open d x h = ground arith

  -- The current document is its own row.
  pub current_row : (d : R.Document) (id : Text) → is_current_of R id d ≡ true → is_row R d d ≡ true
  current_row d id h = ground (arith, same_refl (R.document_id d))

  pub new-IsKeyed : (j : Text) (p : R.Item) (n : ℕ) (now : ℕ) → IsKeyed R j (R.to_document p n now)
  new-IsKeyed j p n now h = ground (
    arith,
    V.new_id p n now,
    V.new_number p n now,
    ap (R.id_filter j) (V.new_id p n now),
    V.filter_key j (R.id_of p) n,
    ap (λ i. R.key i n) {x = j} {y = R.id_of p},
    ap (R.key j) (V.new_number p n now),
  )

  -- Closing a row and adding a version keep the keys, of every record.
  appended-IsKeyed :
      (j : Text) (p : R.Item) (d : R.Document) (n : ℕ) (now : ℕ) (docs : List R.Document)
      → All (IsKeyed R j) docs
      → All (IsKeyed R j) (appended R d (R.to_document p n now) now docs)
  appended-IsKeyed j p d n now docs h =
      All-append (IsKeyed R j) (update_first (is_row R d) (R.close_at now) docs) _
        (All-update_first (IsKeyed R j) (is_row R d) (R.close_at now) docs
          (λ x _ k. close-IsKeyed R V j now x k) h)
        (new-IsKeyed j p n now, tt)

  module _ (p : R.Item) (d : R.Document) (now : ℕ) (docs : List R.Document)
      (found : find? (is_current_of R (R.id_of p)) docs ≡ some d)
      (chain : IsChain R (R.id_of p) docs) where
    abbrev pub new : R.Document
    new = R.to_document p (R.version_number d + 1) now

    current_is : is_current_of R (R.id_of p) d ≡ true
    current_is = find?-some (is_current_of R (R.id_of p)) docs found

    -- The document that the query finds has the last version number.
    pub current_version : (R.version_number d) ≡ versions R (R.id_of p) docs
    current_version =
        All-find? (IsNewest R (R.id_of p) (versions R (R.id_of p) docs))
          (is_current_of R (R.id_of p)) docs chain.newest_open found current_is

    current_key : (R.document_id d) ≡ R.key (R.id_of p) (R.version_number d)
    current_key =
        All-find? (IsKeyed R (R.id_of p)) (is_current_of R (R.id_of p)) docs chain.keyed found
          (ground (arith, current_is))

    pub closed_count :
        suc
          (count_if (is_current_of R (R.id_of p)) (update_first (is_row R d) (R.close_at now) docs))
        ≡ count_if (is_current_of R (R.id_of p)) docs
    closed_count =
        count_if-update_first_drop (is_current_of R (R.id_of p)) (is_row R d) (R.close_at now) docs
          d found (current_row d (R.id_of p) current_is)
          (λ x h.
            ground (
              arith,
              row_version d x (R.id_of p) h,
              row_open d x h,
              current_is,
              V.close_shut now x,
            ))

    own_versions :
        versions R (R.id_of p) (appended R d new now docs) ≡ suc (versions R (R.id_of p) docs)
    own_versions = ground (
      arith,
      count_if-append (is_version_of R (R.id_of p))
          (update_first (is_row R d) (R.close_at now) docs) (new ∷ []),
      count_if-update_first (is_version_of R (R.id_of p)) (is_row R d) (R.close_at now) docs
          (λ x _. version_of-close R V (R.id_of p) now x),
      version_of-new R V (R.id_of p) p (R.version_number d + 1) now,
      same_refl (R.id_of p),
    )

    own_open : count_if (is_current_of R (R.id_of p)) (appended R d new now docs) ≡ 1
    own_open = ground (
      arith,
      count_if-append (is_current_of R (R.id_of p))
          (update_first (is_row R d) (R.close_at now) docs) (new ∷ []),
      current_of-new R V (R.id_of p) p (R.version_number d + 1) now,
      same_refl (R.id_of p),
      closed_count,
      chain.one_open,
      find?-pos (is_current_of R (R.id_of p)) docs found,
    )

    own_numbered :
        (n : ℕ)
        → count_if (has_key R (R.key (R.id_of p) n)) (appended R d new now docs)
          ≡ (if leb 1 n && leb n (suc (versions R (R.id_of p) docs)) then 1 else 0)
    own_numbered n = ground (
      arith,
      count_if-append (has_key R (R.key (R.id_of p) n))
          (update_first (is_row R d) (R.close_at now) docs) (new ∷ []),
      count_if-update_first (has_key R (R.key (R.id_of p) n)) (is_row R d) (R.close_at now) docs
          (λ x _. has_key-close R V (R.key (R.id_of p) n) now x),
      has_key-new R V (R.id_of p) n p (R.version_number d + 1) now,
      same_refl (R.id_of p),
      current_version,
      chain.numbered n,
    )

    own-IsNewest :
        All (IsNewest R (R.id_of p) (suc (versions R (R.id_of p) docs))) (appended R d new now docs)
    own-IsNewest =
        All-append (IsNewest R (R.id_of p) (suc (versions R (R.id_of p) docs)))
          (update_first (is_row R d) (R.close_at now) docs) (new ∷ [])
          (All-map (λ x. is_current_of R (R.id_of p) x ≡ false)
            (IsNewest R (R.id_of p) (suc (versions R (R.id_of p) docs)))
            (update_first (is_row R d) (R.close_at now) docs) (λ x shut open_. cc)
            (count_if-zero (is_current_of R (R.id_of p))
              (update_first (is_row R d) (R.close_at now) docs)
              (ground (
                arith,
                closed_count,
                chain.one_open,
                find?-pos (is_current_of R (R.id_of p)) docs found,
              ))))
          (
            (λ _.
                ground (arith, version_number-new p (R.version_number d + 1) now, current_version)),
            tt,
          )

    pub own-IsChain : IsChain R (R.id_of p) (appended R d new now docs)
    own-IsChain = record {
      one_open = ground (arith, own_versions, own_open);
      numbered = λ n. rw own_versions (own_numbered n);
      keyed = appended-IsKeyed (R.id_of p) p d (R.version_number d + 1) now docs chain.keyed;
      newest_open = rw own_versions own-IsNewest;
    }

    -- The row of `d` is no other record's.
    pub other_row : (j : Text) → j ≢ (R.id_of p) → is_version_of R j d ≡ false
    other_row j differs =
        ground
          (arith, ap (R.id_filter j) current_key, V.filter_key j (R.id_of p) (R.version_number d))

    module _ (j : Text) (differs : j ≢ (R.id_of p)) (other : IsChain R j docs) where
      other_versions : versions R j (appended R d new now docs) ≡ versions R j docs
      other_versions = ground (
        arith,
        count_if-append (is_version_of R j) (update_first (is_row R d) (R.close_at now) docs)
            (new ∷ []),
        count_if-update_first (is_version_of R j) (is_row R d) (R.close_at now) docs
            (λ x _. version_of-close R V j now x),
        version_of-new R V j p (R.version_number d + 1) now,
        same_iff j (R.id_of p),
      )

      other_open :
          count_if (is_current_of R j) (appended R d new now docs)
          ≡ count_if (is_current_of R j) docs
      other_open = ground (
        arith,
        count_if-append (is_current_of R j) (update_first (is_row R d) (R.close_at now) docs)
            (new ∷ []),
        count_if-update_first (is_current_of R j) (is_row R d) (R.close_at now) docs
            (λ x h. ground (arith, row_version d x j h, other_row j differs, V.close_shut now x)),
        current_of-new R V j p (R.version_number d + 1) now,
        same_iff j (R.id_of p),
      )

      other_numbered :
          (n : ℕ)
          → count_if (has_key R (R.key j n)) (appended R d new now docs)
            ≡ count_if (has_key R (R.key j n)) docs
      other_numbered n = ground (
        arith,
        count_if-append (has_key R (R.key j n)) (update_first (is_row R d) (R.close_at now) docs)
            (new ∷ []),
        count_if-update_first (has_key R (R.key j n)) (is_row R d) (R.close_at now) docs
            (λ x _. has_key-close R V (R.key j n) now x),
        has_key-new R V j n p (R.version_number d + 1) now,
        same_iff j (R.id_of p),
      )

      other-IsNewest : All (IsNewest R j (versions R j docs)) (appended R d new now docs)
      other-IsNewest =
          All-append (IsNewest R j (versions R j docs))
            (update_first (is_row R d) (R.close_at now) docs) (new ∷ [])
            (All-update_first (IsNewest R j (versions R j docs)) (is_row R d) (R.close_at now) docs
              (λ x h k open_. ground (arith, V.close_shut now x)) other.newest_open)
            (
              (λ open_. ground (
                arith,
                current_of-new R V j p (R.version_number d + 1) now,
                same_iff j (R.id_of p),
              )),
              tt,
            )

      pub other-IsChain : IsChain R j (appended R d new now docs)
      other-IsChain = record {
        one_open = rw (other_open, other_versions) other.one_open;
        numbered = λ n. rw (other_numbered n, other_versions) (other.numbered n);
        keyed = appended-IsKeyed j p d (R.version_number d + 1) now docs other.keyed;
        newest_open = rw other_versions other-IsNewest;
      }
