-- ===== src/Ledger/Atomic.antt =====
-- A version and its security event in one transaction.
use policy_pilot.Prelude.{◌≡◌, refl, sym, ap, ◌∙◌, true, false, Option}
use policy_pilot.Prelude.Text.{Text}
use policy_pilot.Prelude.Exec.{Result, ok, err, bind-ok, Ends, returned, raised}
use policy_pilot.Mongo.{IsLawful}
use policy_pilot.Versioned.{IsVersioned}
use policy_pilot.Ledger.{Ledger, Store, save_body, save_with_security_event}
use policy_pilot.Ledger.Keeping.{ask_ok, pure_ok}
use policy_pilot.Ledger.Saving.{
  transaction_ok, transaction_err, IsCreated, IsAppended, IsRecorded, save-IsCreated,
  save-IsAppended, record-IsRecorded,
}

module _ (G : Ledger) (V : IsVersioned G.R) (L : IsLawful G.R.document_id G.Items)
    {event_key : G.Event → Text} (M : IsLawful event_key G.Events) where
  save_body-IsAppended :
      (p : G.R.Item) (action : G.Action) (subject : G.Subject) (details : G.Details) (s : Store G)
      {saved : G.R.Version} {event_id : Option Text} {u : Store G}
      → save_body G false p action subject details s ≡ (ok (saved, event_id), u)
      → IsAppended G p s.items saved u.items
        × IsRecorded G action subject details saved s.events u.events
  unfolding save_body
  save_body-IsAppended p action subject details s {saved} {event_id} {u} h =
      bind-ok _ _ s h λ now s1 read h1. bind-ok _ _ s1 h1 λ stored s2 wrote h2.
        bind-ok _ _ s2 h2 λ id s3 recorded h3.
          let (p1, e1) = ask_ok G G.now s read in
          let (appended_, e2) = save-IsAppended G V L p now s1 wrote in
          let (p3, r3) = record-IsRecorded G M action subject details stored s2 recorded in
          let (same_saved, payments_kept, events_kept) = last stored id s2.items s3 p3 h3 in
          (
            rw (sym p1, same_saved, payments_kept) appended_,
            rw (sym e1, sym e2, same_saved, events_kept) r3,
          )
    where
      last :
          (stored : G.R.Version) (id : Option Text) (c : G.Items.Data) (s3 : Store G)
          → s3.items ≡ c
          → ◌≡◌ {A = Result G.R.Error (G.R.Version × Option Text) × Store G}
              (ok (stored, id), s3)
              (ok (saved, event_id), u)
          → (saved ≡ stored) × (u.items ≡ c) × (u.events ≡ s3.events)
      last stored id c s3 k h3 = (cc, cc, cc)

  save_failed :
      (p : G.R.Item) (action : G.Action) (subject : G.Subject) (details : G.Details) (s : Store G)
      {e : G.R.Error} {t : Store G}
      → save_with_security_event G false p action subject details s ≡ (err e, t)
      → (t.items ≡ s.items) × (t.events ≡ s.events)
  unfolding save_with_security_event
  save_failed p action subject details s h =
      transaction_err G (save_body G false p action subject details) s h

  -- What a run of the save that returned has done.
  pub save-IsAppended_with_event :
      (p : G.R.Item) (action : G.Action) (subject : G.Subject) (details : G.Details) (s : Store G)
      {saved : G.R.Version} {event_id : Option Text} {t : Store G}
      → save_with_security_event G false p action subject details s ≡ (ok (saved, event_id), t)
      → IsAppended G p s.items saved t.items
        × IsRecorded G action subject details saved s.events t.events
  unfolding save_with_security_event
  save-IsAppended_with_event p action subject details s {saved} {event_id} {t} h =
      let (u, ran, same_payments, same_events) =
        transaction_ok G (save_body G false p action subject details) s h in
      let done = save_body-IsAppended p action subject details s {u = u} ran in
      (rw same_payments done.0, rw same_events done.1)

  -- A later version and its security event are written together, or nothing is: the save returns
  -- with both, or raises with the stored versions and events as they were.
  pub save_all_or_nothing :
      (p : G.R.Item) (action : G.Action) (subject : G.Subject) (details : G.Details) (s : Store G)
      → Ends
          (λ saved t.
            IsAppended G p s.items saved.0 t.items
            × IsRecorded G action subject details saved.0 s.events t.events)
          (λ _ t. (t.items ≡ s.items) × (t.events ≡ s.events))
          (save_with_security_event G false p action subject details s)
  save_all_or_nothing p action subject details s =
      go (save_with_security_event G false p action subject details s) refl
    where
      go :
          (r : Result G.R.Error (G.R.Version × Option Text) × Store G)
          → save_with_security_event G false p action subject details s ≡ r
          → Ends
              (λ saved t.
                IsAppended G p s.items saved.0 t.items
                × IsRecorded G action subject details saved.0 s.events t.events)
              (λ _ t. (t.items ≡ s.items) × (t.events ≡ s.events))
              r
      go (ok saved, t) h = returned (save-IsAppended_with_event p action subject details s h)
      go (err e, t) h = raised (save_failed p action subject details s h)

  save_body-IsCreated :
      (p : G.R.Item) (action : G.Action) (subject : G.Subject) (details : G.Details) (s : Store G)
      {saved : G.R.Version × Option Text} {u : Store G}
      → save_body G true p action subject details s ≡ (ok saved, u)
      → IsCreated G p s.items saved.0 u.items
        × IsRecorded G action subject details saved.0 s.events u.events
  unfolding save_body
  save_body-IsCreated p action subject details s {saved} {u} h = bind-ok _ _ s h λ now s1 read h1.
      bind-ok _ _ s1 h1 λ stored s2 wrote h2. bind-ok _ _ s2 h2 λ id s3 recorded h3.
        let (p1, e1) = ask_ok G G.now s read in
        let (created, e2) = save-IsCreated G V L p now s1 wrote in
        let (p3, r3) = record-IsRecorded G M action subject details stored s2 recorded in
        let (is, k4) = pure_ok G (stored, id) s3 h3 in
        let same_saved : saved.0 ≡ stored = ap (λ x. x.0) is in
        let payments_kept : u.items ≡ s2.items = ap (λ x. x.items) k4 ∙ p3 in
        let events_kept : u.events ≡ s3.events = ap (λ x. x.events) k4 in
        (
          rw (sym p1, same_saved, payments_kept) created,
          rw (sym e1, sym e2, same_saved, events_kept) r3,
        )

  pub save-IsCreated_with_event :
      (p : G.R.Item) (action : G.Action) (subject : G.Subject) (details : G.Details) (s : Store G)
      {saved : G.R.Version × Option Text} {t : Store G}
      → save_with_security_event G true p action subject details s ≡ (ok saved, t)
      → IsCreated G p s.items saved.0 t.items
        × IsRecorded G action subject details saved.0 s.events t.events
  unfolding save_with_security_event
  save-IsCreated_with_event p action subject details s h =
      let (u, ran, same_payments, same_events) =
        transaction_ok G (save_body G true p action subject details) s h in
      let (created, recorded) = save_body-IsCreated p action subject details s {u = u} ran in
      (rw same_payments created, rw same_events recorded)
