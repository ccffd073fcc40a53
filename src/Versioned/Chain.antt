-- ===== src/Versioned/Chain.antt =====
-- The version chain of a record in a collection.
use policy_pilot.Prelude.{
  ℕ, ◌≡◌, sym, ap, ◌∙◌, Bool, true, List, [], ◌∷◌, ◌++◌, ◌&&◌, arith, ◌==◌, leb, if◌then◌else◌,
  count_if, update_first, All,
}
use policy_pilot.Prelude.Text.{Text, same, same_iff}
use policy_pilot.Versioned.{Rows, IsVersioned, is_version_of, is_current_of, is_row}

module _ (R : Rows) where
  abbrev pub has_key : Text → R.Document → Bool
  has_key key d = same (R.document_id d) key

  -- How many versions a record has.
  abbrev pub versions : Text → List R.Document → ℕ
  versions id docs = count_if (is_version_of R id) docs

  -- A stored version has its own key.
  abbrev pub IsKeyed : Text → R.Document → Type 0
  IsKeyed id d = is_version_of R id d ≡ true → R.document_id d ≡ R.key id (R.version_number d)

  -- If it is open, it is the last.
  abbrev pub IsNewest : Text → ℕ → R.Document → Type 0
  IsNewest id last d = is_current_of R id d ≡ true → R.version_number d ≡ last

  -- The versions of a record are numbered from 1 without a gap, each number once; exactly one is
  -- open, unless there is none at all, and it is the last.
  pub record IsChain (id : Text) (docs : List R.Document) : Type 0 where
    pub one_open : count_if (is_current_of R id) docs ≡ (if versions id docs == 0 then 0 else 1)
    pub numbered :
        (n : ℕ)
        → count_if (has_key (R.key id n)) docs
          ≡ (if leb 1 n && leb n (versions id docs) then 1 else 0)
    pub keyed : All (IsKeyed id) docs
    pub newest_open : All (IsNewest id (versions id docs)) docs

  -- What `append_version` makes of the collection: it closes the row `d` and adds a version.
  abbrev pub appended : R.Document → R.Document → ℕ → List R.Document → List R.Document
  appended d new now docs = update_first (is_row R d) (R.close_at now) docs ++ new ∷ []

module _ (R : Rows) (V : IsVersioned R) where
  -- The queries at a new version of a record.
  pub version_of-new :
      (j : Text) (p : R.Item) (n now : ℕ)
      → is_version_of R j (R.to_document p n now) ≡ same j (R.id_of p)
  version_of-new j p n now = ground (
    arith,
    ap (R.id_filter j) (V.new_id p n now),
    V.filter_key j (R.id_of p) n,
    same_iff j (R.id_of p),
  )

  pub current_of-new :
      (j : Text) (p : R.Item) (n now : ℕ)
      → is_current_of R j (R.to_document p n now) ≡ same j (R.id_of p)
  current_of-new j p n now = ground (arith, V.new_open p n now, version_of-new j p n now)

  pub has_key-new :
      (j : Text) (m : ℕ) (p : R.Item) (n now : ℕ)
      → has_key R (R.key j m) (R.to_document p n now) ≡ (same j (R.id_of p) && m == n)
  has_key-new j m p n now = ground (
    arith,
    ap (λ k. same k (R.key j m)) (V.new_id p n now),
    same_iff (R.key (R.id_of p) n) (R.key j m),
    V.key_injective (R.id_of p) j n m,
    ap (λ i. R.key i m) {x = j} {y = R.id_of p},
    same_iff j (R.id_of p),
  )

  -- Closing a row changes no key.
  pub version_of-close :
      (j : Text) (now : ℕ) (d : R.Document)
      → is_version_of R j (R.close_at now d) ≡ is_version_of R j d
  version_of-close j now d = ap (R.id_filter j) (V.close_id now d)

  pub has_key-close :
      (key : Text) (now : ℕ) (d : R.Document) → has_key R key (R.close_at now d) ≡ has_key R key d
  has_key-close key now d = ap (λ k. same k key) (V.close_id now d)

  pub close-IsKeyed :
      (j : Text) (now : ℕ) (d : R.Document) → IsKeyed R j d → IsKeyed R j (R.close_at now d)
  close-IsKeyed j now d keyed passes =
      V.close_id now d
      ∙ keyed (sym (version_of-close j now d) ∙ passes)
      ∙ ap (R.key j) (sym (V.close_number now d))
