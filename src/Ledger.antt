-- ===== src/Ledger.antt =====
-- What ps/service.py and inst/service.py do in the same way: they hold a versioned collection and a
-- collection of security events, call a world outside, and write a version together with its
-- security event in one transaction. This module is that common code, over an interface to one
-- of the two services.
pub mod Failsafe
pub mod Keeping
pub mod Saving
pub mod Atomic
pub mod Validity
use policy_pilot.Prelude.{ℕ, Bool, true, false, not, Option, none, some, if◌then◌else◌}
use policy_pilot.Prelude.Text.{Text}
use policy_pilot.Prelude.Exec.{Result, ok, err, Exec, pure, or_raise, ◌>>=◌, ◌>>◌}
use policy_pilot.Mongo.{MongoError, Collection}
use policy_pilot.Versioned.{Rows, insert_initial, append_version}

pub record Ledger : Type 1 where
  pub R : Rows
  pub Event : Type 0
  pub Items : Collection R.Document
  pub Events : Collection Event
  -- everything else: the other services and the clock
  pub World : Type 0
  -- the clock, and the commit at the end of a Mongo transaction
  pub now : World → ℕ × World
  pub commit : World → Option MongoError × World
  pub Action : Type 0
  pub Subject : Type 0
  pub Details : Type 0
  -- whether a subject's security events are not recorded
  pub is_excluded : Subject → Bool
  pub id_of : R.Version → Text
  -- the stored document of `SecurityEvent.authorized_action`, under an event identifier
  pub event : Text → Action → Subject → R.Version → Details → ℕ → Event
  -- the sequence-service, through `SequenceClient`; none is a `SequenceClientError`
  pub next_security_event_id : Text → World → Option Text × World
  pub allocation_failed : R.Error

pub record Store (G : Ledger) : Type 0 where
  pub items : G.Items.Data
  pub events : G.Events.Data
  pub world : G.World

abbrev pub Svc : Ledger → Type 0 → Type 0
Svc G A = Exec G.R.Error (Store G) A

module _ (G : Ledger) where
  -- a call that does not raise
  abbrev pub ask : {A : Type 0} → (G.World → A × G.World) → Svc G A
  ask call s = let (a, w) = call s.world in (ok a, record s { world = w })

  -- a call that may raise
  abbrev pub call_out : {A : Type 0} → (G.World → Result G.R.Error A × G.World) → Svc G A
  call_out call s = let (r, w) = call s.world in (r, record s { world = w })

  abbrev pub on_items : {A : Type 0} → Exec G.R.Error G.Items.Data A → Svc G A
  on_items m s = let (r, c) = m s.items in (r, record s { items = c })

  abbrev pub on_events : {A : Type 0} → Exec G.R.Error G.Events.Data A → Svc G A
  on_events m s = let (r, c) = m s.events in (r, record s { events = c })

  -- The end of a transaction that began at `before`: what it wrote stays if its body returned and
  -- the commit succeeded, and is undone otherwise.
  abbrev finish :
      {A : Type 0}
      → Store G
      → Result G.R.Error A
      → Option MongoError
      → Store G
      → Result G.R.Error A × Store G
  finish before (err e) _ s = (err e, record s { items = before.items; events = before.events })
  finish before (ok a) none s = (ok a, s)
  finish before (ok a) (some e) s =
      (err (G.R.mongo_error e), record s { items = before.items; events = before.events })

  -- `async with mongo_transaction()`; an aborted transaction is not committed.
  unfoldable pub transaction : {A : Type 0} → Svc G A → Svc G A
  transaction m s =
      let (r, t) = m s in
      let (failed, w) = G.commit t.world in
      elim r [
        | ok a ↦ finish s (ok a) failed (record t { world = w })
        | err e ↦ finish s (err e) none t
      ]

  -- `try`: the error comes back as a value.
  unfoldable pub attempt : {A : Type 0} → Svc G A → Svc G (Result G.R.Error A)
  attempt m s = let (r, t) = m s in (ok r, t)

  -- a result that raises its error
  abbrev pub check : {A : Type 0} → Result G.R.Error A → Svc G A
  check r s = (r, s)

  -- a step that is taken only if a test holds
  abbrev pub when : Bool → Svc G (Unit {0}) → Svc G (Unit {0})
  when false m s = (ok tt, s)
  when true m s = m s

  -- `allocate_event_id`
  unfoldable pub allocate_event_id : Text → Svc G Text
  allocate_event_id resource_id = do
    event_id ← ask (G.next_security_event_id resource_id)
    or_raise event_id G.allocation_failed

  -- `insert_document`
  unfoldable pub insert_document : G.Event → Svc G (Unit {0})
  insert_document document = on_events λ c. elim (G.Events.insert_one document c) [
    | ok c' ↦ (ok tt, c')
    | err e ↦ (err (G.R.mongo_error e), c)
  ]

  -- The security event of a saved version, inside its transaction.
  unfoldable pub record_saved : G.Action → G.Subject → G.Details → G.R.Version → Svc G (Option Text)
  record_saved action subject details saved = do
    event_id ← allocate_event_id (G.id_of saved)
    now ← ask G.now
    insert_document (G.event event_id action subject saved details now)
    pure (some event_id)

  unfoldable pub save_version : Bool → G.R.Item → ℕ → Svc G G.R.Version
  save_version initial p now =
      on_items
        (if initial then insert_initial G.R G.Items p now else append_version G.R G.Items p now)

  abbrev pub record_saved_if :
      Bool → G.Action → G.Subject → G.Details → G.R.Version → Svc G (Option Text)
  record_saved_if false action subject details saved = pure none
  record_saved_if true action subject details saved = record_saved action subject details saved

  unfoldable pub save_body :
      Bool → G.R.Item → G.Action → G.Subject → G.Details → Svc G (G.R.Version × Option Text)
  save_body initial p action subject details = do
    now ← ask G.now
    saved ← save_version initial p now
    event_id ← record_saved_if (not (G.is_excluded subject)) action subject details saved
    pure (saved, event_id)

  -- A version and its security event, in one transaction.
  unfoldable pub save_with_security_event :
      Bool → G.R.Item → G.Action → G.Subject → G.Details → Svc G (G.R.Version × Option Text)
  save_with_security_event initial p action subject details =
      transaction (save_body initial p action subject details)
