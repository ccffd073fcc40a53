-- ===== src/Versioned.antt =====
-- ps/repository.py and inst/repository.py keep their records in the same way: a record is a chain of
-- version documents; the newest one is open, and a change closes it and inserts the next. This
-- module is that common code, over an interface to the documents of one of the two services.
pub mod Chain
pub mod Writes
pub mod Inserts
pub mod Reading
pub mod Versions
pub mod Progress
use policy_pilot.Prelude.{
  ℕ, ◌+◌, ◌≡◌, Bool, true, false, not, Option, List, [], ◌∷◌, ◌&&◌, ◌||◌, ◌↔◌, ◌==◌, if◌then◌else◌,
}
use policy_pilot.Prelude.Text.{Text, same}
use policy_pilot.Prelude.Exec.{Result, ok, err, Exec, pure, raise_if, or_raise, ◌>>=◌, ◌>>◌}
use policy_pilot.Mongo.{MongoError, duplicate_key, operation_failure, Collection}

-- The documents of a collection, the records they hold, and the service's exceptions. A time is a
-- number of microseconds.
pub record Rows : Type 1 where
  pub Item : Type 0
  pub Document : Type 0
  pub Version : Type 0
  pub Error : Type 0
  pub document_id : Document → Text
  pub version_number : Document → ℕ
  -- whether `out` is the sentinel of the current version
  pub is_open : Document → Bool
  -- `{"$set": {"out": closed_out}}`
  pub close_at : ℕ → Document → Document
  pub id_of : Item → Text
  -- the assignment of `updated_at`
  pub touch : ℕ → Item → Item
  pub to_document : Item → ℕ → ℕ → Document
  pub to_version : Document → Version
  -- the version of an item that is open since a time
  pub open_version : Item → ℕ → ℕ → Version
  -- `f"{id}|{version_number}"`, and the regular expression for the keys of one record
  pub key : Text → ℕ → Text
  pub id_filter : Text → Text → Bool
  pub not_found : Text → Error
  pub concurrent_modification : Text → ℕ → Error
  pub mongo_error : MongoError → Error

-- What the common code relies on.
pub record IsVersioned (R : Rows) : Type 0 where
  pub new_id :
      (p : R.Item) (n now : ℕ) → R.document_id (R.to_document p n now) ≡ R.key (R.id_of p) n
  pub new_number : (p : R.Item) (n now : ℕ) → R.version_number (R.to_document p n now) ≡ n
  pub new_open : (p : R.Item) (n now : ℕ) → R.is_open (R.to_document p n now) ≡ true
  pub new_version :
      (p : R.Item) (n now : ℕ) → R.to_version (R.to_document p n now) ≡ R.open_version p n now
  pub close_id : (now : ℕ) (d : R.Document) → R.document_id (R.close_at now d) ≡ R.document_id d
  pub close_number :
      (now : ℕ) (d : R.Document) → R.version_number (R.close_at now d) ≡ R.version_number d
  pub close_shut : (now : ℕ) (d : R.Document) → R.is_open (R.close_at now d) ≡ false
  pub touch_id : (now : ℕ) (p : R.Item) → R.id_of (R.touch now p) ≡ R.id_of p
  pub filter_key : (i j : Text) (n : ℕ) → (R.id_filter i (R.key j n) ≡ true) ↔ (i ≡ j)
  pub key_injective : (i j : Text) (m n : ℕ) → R.key i m ≡ R.key j n → (i ≡ j) × (m ≡ n)

module _ (R : Rows) where
  -- The query of one record's versions, and of its open version.
  abbrev pub is_version_of : Text → R.Document → Bool
  is_version_of id d = R.id_filter id (R.document_id d)

  abbrev pub is_current_of : Text → R.Document → Bool
  is_current_of id d = is_version_of id d && R.is_open d

  -- The query of the closing update.
  abbrev pub is_row : R.Document → R.Document → Bool
  is_row current d =
      same (R.document_id d) (R.document_id current)
      && (R.version_number d == R.version_number current && R.is_open d)

  -- The `except` clauses of `append_version`.
  unfoldable pub conflict : Text → ℕ → MongoError → R.Error
  conflict id version duplicate_key = R.concurrent_modification id version
  conflict id version (operation_failure code transient) =
      if code == 112 || transient
      then R.concurrent_modification id version
      else R.mongo_error (operation_failure code transient)

  unfoldable pub convert : List R.Document → List R.Version
  convert [] = []
  convert (d ∷ ds) = R.to_version d ∷ convert ds

  module _ (C : Collection R.Document) where
    -- A read of the collection; its failure is the driver's exception.
    unfoldable pub reading : {A : Type 0} → (C.Data → Result MongoError A) → Exec R.Error C.Data A
    reading call c = elim (call c) [ ok a ↦ (ok a, c) | err e ↦ (err (R.mongo_error e), c) ]

    -- A write, whose failure is handled by `handler`.
    unfoldable pub writing :
        {A : Type 0}
        → (MongoError → R.Error)
        → (C.Data → Result MongoError (C.Data × A))
        → Exec R.Error C.Data A
    writing handler call c = elim (call c) [
      | ok (c', a) ↦ (ok a, c')
      | err e ↦ (err (handler e), c)
    ]

    unfoldable pub inserting : (MongoError → R.Error) → R.Document → Exec R.Error C.Data Unit
    inserting handler d c = elim (C.insert_one d c) [
      | ok c' ↦ (ok tt, c')
      | err e ↦ (err (handler e), c)
    ]

    unfoldable pub insert_initial : R.Item → ℕ → Exec R.Error C.Data R.Version
    insert_initial p now = do
      let document = R.to_document p 1 now
      inserting R.mongo_error document
      pure (R.to_version document)

    -- `append_version` from the document that it read.
    unfoldable pub append_after : R.Document → R.Item → ℕ → Exec R.Error C.Data R.Version
    append_after current p now = do
      let handler = conflict (R.id_of p) (R.version_number current)
      modified_count ← writing handler (C.update_one (is_row current) (R.close_at now))
      raise_if (not (modified_count == 1))
          (R.concurrent_modification (R.id_of p) (R.version_number current))
      let document = R.to_document (R.touch now p) (R.version_number current + 1) now
      inserting handler document
      pure (R.to_version document)

    unfoldable pub append_version : R.Item → ℕ → Exec R.Error C.Data R.Version
    append_version p now = do
      found ← reading (C.find_one (is_current_of (R.id_of p)))
      current ← or_raise found (R.not_found (R.id_of p))
      append_after current p now

    unfoldable pub get_current : Text → Exec R.Error C.Data R.Version
    get_current id = do
      found ← reading (C.find_one (is_current_of id))
      document ← or_raise found (R.not_found id)
      pure (R.to_version document)

    unfoldable pub list_versions : Text → Exec R.Error C.Data (List R.Version)
    list_versions id = do
      found ← reading (C.find_ordered (is_version_of id) R.version_number)
      pure (convert found)
