-- ===== src/Payment/Repository/Versions.antt =====
-- ps/repository.py over a lawful collection: what its operations return, and the version chains.
use policy_pilot.Prelude.{ℕ, ◌+◌, ◌≡◌, ap, some, List, [], ◌∷◌, ◌++◌, find?}
use policy_pilot.Prelude.Text.{Text}
use policy_pilot.Prelude.Exec.{ok}
use policy_pilot.Mongo.{Collection, IsLawful, IsUp}
use policy_pilot.Versioned.Chain
use policy_pilot.Versioned.Writes.{current_version}
use policy_pilot.Versioned.Versions
use policy_pilot.Versioned.Progress
use policy_pilot.Payment.Model.{Time, Payment}
use policy_pilot.Payment.Storage.{
  VersionedPayment, PaymentDocument, versioned_payment_to_document, document_to_versioned_payment,
}
use policy_pilot.Payment.Repository.{
  payment_rows, payment_rows-IsVersioned, open_version, is_current_of, insert_initial,
  append_version, get_current,
}

abbrev pub document_key : PaymentDocument → Text
document_key d = d.document_id

-- How many versions a payment has.
abbrev pub versions : Text → List PaymentDocument → ℕ
versions = Chain.versions payment_rows

-- Every payment's versions form a chain.
abbrev pub IsValid : List PaymentDocument → Type 0
IsValid = Versions.IsValid payment_rows

-- What `append_version` makes of the collection: it closes the row `d` and adds a version.
abbrev pub appended :
    PaymentDocument → PaymentDocument → Time → List PaymentDocument → List PaymentDocument
appended = Chain.appended payment_rows

-- Over a collection that is up, with valid chains and an open version of the payment, a version is
-- appended: the call returns one.
pub append_version_returns :
    (C : Collection PaymentDocument) (L : IsLawful document_key C) (U : IsUp document_key C)
    (p : Payment) (now : Time) (c : C.Data) (d : PaymentDocument)
    → find? (is_current_of p.payment_id) (C.docs c) ≡ some d
    → IsValid (C.docs c)
    → (saved : VersionedPayment) × (c' : C.Data) × (append_version C p now c ≡ (ok saved, c'))
append_version_returns C L U =
    Progress.append_version_returns payment_rows payment_rows-IsVersioned C L U

module _ (C : Collection PaymentDocument) (L : IsLawful document_key C) where
  -- What a successful `append_version` did.
  pub append_version_ok :
      (p : Payment) (now : Time) (c : C.Data) {saved : VersionedPayment} {c' : C.Data}
      → append_version C p now c ≡ (ok saved, c')
      → (d : PaymentDocument) × (find? (is_current_of p.payment_id) (C.docs c) ≡ some d)
        × (saved ≡ open_version (record p { updated_at = now }) (d.version_number + 1) now)
        × (C.docs c'
            ≡ appended d
                (versioned_payment_to_document
                  (record p { updated_at = now })
                  (d.version_number + 1)
                  now)
                now
                (C.docs c))
  append_version_ok p now c h =
      Versions.append_version_ok payment_rows payment_rows-IsVersioned C L p now c h

  -- A read of the current version returns the open document and changes nothing.
  pub get_current_ok :
      (id : Text) (c : C.Data) {current : VersionedPayment} {c' : C.Data}
      → get_current C id c ≡ (ok current, c')
      → (d : PaymentDocument) × (find? (is_current_of id) (C.docs c) ≡ some d)
        × (current ≡ document_to_versioned_payment d)
        × (c' ≡ c)
  get_current_ok id c h = Versions.get_current_ok payment_rows payment_rows-IsVersioned C L id c h

  -- The first version is inserted as version 1.
  pub insert_initial_ok :
      (p : Payment) (now : Time) (c : C.Data) {saved : VersionedPayment} {c' : C.Data}
      → insert_initial C p now c ≡ (ok saved, c')
      → (saved ≡ open_version p 1 now)
        × (C.docs c' ≡ C.docs c ++ versioned_payment_to_document p 1 now ∷ [])
  insert_initial_ok p now c h =
      let (saved_is, stored, _) =
        Versions.insert_initial_ok payment_rows payment_rows-IsVersioned C L p now c h in
      (saved_is, stored)

  -- If every payment's versions form a chain and `append_version` returns, they still do: closing the
  -- open version and adding the next leave no gap, no duplicate, and exactly one open version.
  pub append_version-IsValid :
      (p : Payment) (now : Time) (c : C.Data) {saved : VersionedPayment} {c' : C.Data}
      → append_version C p now c ≡ (ok saved, c')
      → IsValid (C.docs c)
      → IsValid (C.docs c')
  append_version-IsValid p now c h =
      Versions.append_version-IsValid payment_rows payment_rows-IsVersioned C L p now c h

  -- On valid chains, the version that `append_version` returns is one above the number of versions stored before.
  pub append_version_number :
      (p : Payment) (now : Time) (c : C.Data) {saved : VersionedPayment} {c' : C.Data}
      → append_version C p now c ≡ (ok saved, c')
      → IsValid (C.docs c)
      → saved.version_number ≡ versions p.payment_id (C.docs c) + 1
  append_version_number p now c h valid =
      let (d, found, saved_is, _) = append_version_ok p now c h in
      rw (saved_is) (
        ap (λ n. n + 1)
          (current_version payment_rows payment_rows-IsVersioned p d now (C.docs c) found
            (valid p.payment_id)))

  -- A first version that is inserted keeps every payment's versions a chain.
  pub insert_initial-IsValid :
      (p : Payment) (now : Time) (c : C.Data) {saved : VersionedPayment} {c' : C.Data}
      → insert_initial C p now c ≡ (ok saved, c')
      → IsValid (C.docs c)
      → IsValid (C.docs c')
  insert_initial-IsValid p now c h =
      Versions.insert_initial-IsValid payment_rows payment_rows-IsVersioned C L p now c h
