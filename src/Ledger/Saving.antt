-- ===== src/Ledger/Saving.antt =====
-- What the parts of a save write: a version, and its security event.
use policy_pilot.Prelude.{
  ◌+◌, ◌≡◌, refl, ℕ, true, false, Option, some, [], ◌∷◌, ◌++◌, inl, inr, arith, find?, count_if,
  Bool-cases, Option-cases, ◌⊎◌, not,
}
use policy_pilot.Prelude.Text.{Text}
use policy_pilot.Prelude.Exec.{ok, err, bind-ok, then-ok}
use policy_pilot.Mongo.{IsLawful}
use policy_pilot.Versioned.{IsVersioned, is_current_of, insert_initial, append_version}
use policy_pilot.Versioned.Chain.{appended, has_key}
use policy_pilot.Versioned.Versions.{
  append_version_ok, insert_initial_ok, IsValid, appended-IsValid, first-IsValid,
}
use policy_pilot.Ledger.{
  Ledger, Store, Svc, transaction, allocate_event_id, insert_document, record_saved, save_version,
  record_saved_if,
}
use policy_pilot.Ledger.Keeping.{SameData, ask_ok, on_items_ok}

module _ (G : Ledger) where
  -- A transaction that raises has written nothing; one that returns has run its body.
  pub transaction_ok :
      {A : Type 0} (m : Svc G A) (s : Store G) {a : A} {t : Store G}
      → transaction G m s ≡ (ok a, t)
      → (u : Store G) × (m s ≡ (ok a, u)) × (t.items ≡ u.items) × (t.events ≡ u.events)
  unfolding transaction
  transaction_ok m s h = ((m s).1, ground arith, ground arith, ground arith)

  pub transaction_err :
      {A : Type 0} (m : Svc G A) (s : Store G) {e : G.R.Error} {t : Store G}
      → transaction G m s ≡ (err e, t)
      → SameData G s t
  unfolding transaction
  transaction_err m s h = (ground arith, ground arith)

  -- What the security event of a saved version is.
  pub record IsEventOf (action : G.Action) (subject : G.Subject) (details : G.Details)
      (saved : G.R.Version) (d : G.Event) : Type 0 where
    pub event_id : Text
    pub at : ℕ
    pub says : d ≡ G.event event_id action subject saved details at

  -- The matching security event has been added, unless the subject's are not recorded.
  abbrev pub IsRecorded :
      G.Action → G.Subject → G.Details → G.R.Version → G.Events.Data → G.Events.Data → Type 0
  IsRecorded action subject details saved c c' =
      ((G.is_excluded subject ≡ true) × (c' ≡ c))
      ⊎ ((d : G.Event) × (G.is_excluded subject ≡ false)
          × IsEventOf action subject details saved d
          × (G.Events.docs c' ≡ G.Events.docs c ++ d ∷ []))

  allocate_event_id_ok :
      (id : Text) (s : Store G) {a : Text} {t : Store G}
      → allocate_event_id G id s ≡ (ok a, t)
      → SameData G s t
  unfolding allocate_event_id
  allocate_event_id_ok id s h = bind-ok _ _ s h λ found u asked h1.
      let kept = ask_ok G (G.next_security_event_id id) s asked in
      elim (Option-cases found) [ inl missing ↦ cc | inr (a, is) ↦ ground (arith, kept) ]

  -- A first version has been inserted.
  pub record IsCreated (p : G.R.Item) (c : G.Items.Data) (saved : G.R.Version) (c' : G.Items.Data)
      : Type 0 where
    pub at : ℕ
    pub saved_is : saved ≡ G.R.open_version p 1 at
    pub stored : G.Items.docs c' ≡ G.Items.docs c ++ G.R.to_document p 1 at ∷ []
    pub free :
        count_if (has_key G.R (G.R.document_id (G.R.to_document p 1 at))) (G.Items.docs c) ≡ 0

  -- The open version has been closed, and the record added as the next one.
  pub record IsAppended (p : G.R.Item) (c : G.Items.Data) (saved : G.R.Version) (c' : G.Items.Data)
      : Type 0 where
    pub at : ℕ
    pub row : G.R.Document
    pub found : find? (is_current_of G.R (G.R.id_of p)) (G.Items.docs c) ≡ some row
    pub saved_is : saved ≡ G.R.open_version (G.R.touch at p) (G.R.version_number row + 1) at
    pub stored :
        G.Items.docs c'
        ≡ appended G.R row
            (G.R.to_document (G.R.touch at p) (G.R.version_number row + 1) at)
            at
            (G.Items.docs c)

  -- Both keep every record's versions a chain.
  pub IsCreated-IsValid :
      (V : IsVersioned G.R) {p : G.R.Item} {c : G.Items.Data} {saved : G.R.Version}
      {c' : G.Items.Data}
      → IsCreated p c saved c'
      → IsValid G.R (G.Items.docs c)
      → IsValid G.R (G.Items.docs c')
  IsCreated-IsValid V {p} {c} k valid =
      rw k.stored (first-IsValid G.R V p k.at (G.Items.docs c) k.free valid)

  pub IsAppended-IsValid :
      (V : IsVersioned G.R) {p : G.R.Item} {c : G.Items.Data} {saved : G.R.Version}
      {c' : G.Items.Data}
      → IsAppended p c saved c'
      → IsValid G.R (G.Items.docs c)
      → IsValid G.R (G.Items.docs c')
  IsAppended-IsValid V {p} {c} k valid =
      rw k.stored (appended-IsValid G.R V p k.row k.at (G.Items.docs c) k.found valid)

  module _ (V : IsVersioned G.R) (L : IsLawful G.R.document_id G.Items) where
    pub save-IsCreated :
        (p : G.R.Item) (now : ℕ) (s : Store G) {saved : G.R.Version} {t : Store G}
        → save_version G true p now s ≡ (ok saved, t)
        → IsCreated p s.items saved t.items × (t.events ≡ s.events)
    unfolding save_version
    save-IsCreated p now s h =
        let (stored, same_events) = on_items_ok G (insert_initial G.R G.Items p now) s h in
        let (saved_is, docs', free) = insert_initial_ok G.R V G.Items L p now s.items stored in
        (record { at = now; saved_is = saved_is; stored = docs'; free = free }, same_events)

    pub save-IsAppended :
        (p : G.R.Item) (now : ℕ) (s : Store G) {saved : G.R.Version} {t : Store G}
        → save_version G false p now s ≡ (ok saved, t)
        → IsAppended p s.items saved t.items × (t.events ≡ s.events)
    unfolding save_version
    save-IsAppended p now s h =
        let (stored, same_events) = on_items_ok G (append_version G.R G.Items p now) s h in
        let (d, found, saved_is, docs') = append_version_ok G.R V G.Items L p now s.items stored in
        (
          record { at = now; row = d; found = found; saved_is = saved_is; stored = docs' },
          same_events,
        )

  module _ {event_key : G.Event → Text} (M : IsLawful event_key G.Events) where
    insert_document_ok :
        (d : G.Event) (s : Store G) {u : Unit {0}} {t : Store G}
        → insert_document G d s ≡ (ok u, t)
        → (G.Events.docs t.events ≡ G.Events.docs s.events ++ d ∷ []) × (t.items ≡ s.items)
    unfolding insert_document
    insert_document_ok d s {t = t} h =
        (ground (arith, M.insert_one_lem d s.events {c' = t.events}), ground arith)

    record_saved_ok :
        (action : G.Action) (subject : G.Subject) (details : G.Details) (saved : G.R.Version)
        (s : Store G) {r : Option Text} {t : Store G}
        → record_saved G action subject details saved s ≡ (ok r, t)
        → (t.items ≡ s.items)
          × (d : G.Event) × IsEventOf action subject details saved d
          × (G.Events.docs t.events ≡ G.Events.docs s.events ++ d ∷ [])
    unfolding record_saved
    record_saved_ok action subject details saved s h = bind-ok _ _ s h λ event_id s1 allocated h1.
        bind-ok _ _ s1 h1 λ now s2 read h2. then-ok _ _ s2 h2 λ _ s3 inserted h3.
          let (p1, e1) = allocate_event_id_ok (G.id_of saved) s allocated in
          let (p2, e2) = ask_ok G G.now s1 read in
          let (docs3, p3) = insert_document_ok _ s2 inserted in
          (
            cc,
            G.event event_id action subject saved details now,
            record { event_id = event_id; at = now; says = refl },
            cc,
          )

    not_recorded :
        (action : G.Action) (subject : G.Subject) (details : G.Details) (saved : G.R.Version)
        (s : Store G) {r : Option Text} {t : Store G}
        → record_saved_if G false action subject details saved s ≡ (ok r, t)
        → SameData G s t
    not_recorded action subject details saved s h = (cc, cc)

    pub record-IsRecorded :
        (action : G.Action) (subject : G.Subject) (details : G.Details) (saved : G.R.Version)
        (s : Store G) {r : Option Text} {t : Store G}
        → record_saved_if G (not (G.is_excluded subject)) action subject details saved s ≡ (ok r, t)
        → (t.items ≡ s.items) × IsRecorded action subject details saved s.events t.events
    record-IsRecorded action subject details saved s {t = t} h =
        elim (Bool-cases (G.is_excluded subject)) [
          | inl excluded ↦
              let done = not_recorded action subject details saved s (rw excluded at h) in
              (done.0, inl (excluded, done.1))
          | inr included ↦
              let (kept, d, is, docs') =
                record_saved_ok action subject details saved s (rw included at h) in
              (kept, inr (d, included, is, docs'))
        ]
