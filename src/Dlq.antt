-- ===== src/Dlq.antt =====
-- ssi-indexer, etl/dlq/store.py: what the scheduler's calls do to one entry of the dead-letter queue.
-- The queries and updates are those sent to MongoDB, read at one document. A time that the code
-- computes is in microseconds; a date of a document or of a query is in milliseconds. The audit trail is
-- left out.
pub mod Schedule
mod Tests
use policy_pilot.Prelude.{
  ℕ, zero, suc, ◌+◌, ◌*◌, ◌^◌, ◌-◌, ◌/◌, Bool, true, false, Option, none, some, ◌&&◌, ◌||◌, leb,
  if◌then◌else◌,
}
use policy_pilot.Prelude.Text.{Text}

pub data DlqStatus : Type 0 where
  pending processing processed exhausted poison : DlqStatus

-- The settings that the store reads.
pub record DlqSettings : Type 0 where
  pub lock_ttl : ℕ
  pub scheduler_max_attempts : ℕ
  pub scheduler_backoff : ℕ
  pub scheduler_max_backoff : ℕ

pub record Entry : Type 0 where
  pub status : DlqStatus
  pub attempts : ℕ
  pub max_attempts : Option ℕ
  pub next_attempt_at : ℕ
  pub locked_by : Option Text
  pub lock_until : Option ℕ

abbrev pub is_waiting : DlqStatus → Bool
is_waiting pending = true
is_waiting processing = true
is_waiting _ = false

abbrev pub is_unlocked : Option ℕ → ℕ → Bool
is_unlocked none now = true
is_unlocked (some t) now = leb t now

-- A time as a BSON date: its microseconds are cut off.
abbrev pub bson : ℕ → ℕ
bson t = t / 1000

-- The filter of `claim_next`.
unfoldable pub is_claimable : ℕ → Entry → Bool
is_claimable now e =
    is_waiting e.status && (leb e.next_attempt_at (bson now) && is_unlocked e.lock_until (bson now))

module _ (settings : DlqSettings) where
  -- Its update.
  unfoldable pub claimed : Text → ℕ → Entry → Entry
  claimed worker_id now e = record e {
    status = processing;
    locked_by = some worker_id;
    lock_until = some (bson (now + settings.lock_ttl));
    attempts = e.attempts + 1;
  }

  -- `int(doc.get("max_attempts") or settings.dlq_scheduler_max_attempts)`
  abbrev pub budget : Entry → ℕ
  budget e = elim e.max_attempts [
    | none ↦ settings.scheduler_max_attempts
    | some n ↦ elim n [ zero ↦ settings.scheduler_max_attempts | suc m ↦ suc m ]
  ]

  -- The delay before the next attempt.
  unfoldable pub backoff : ℕ → ℕ
  backoff attempts =
      let delay = settings.scheduler_backoff * 2 ^ (attempts - 1) in
      if leb delay settings.scheduler_max_backoff then delay else settings.scheduler_max_backoff

  -- The update of `mark_retry_or_exhausted`, computed from the document that a claim returned and made
  -- to the entry as it is then.
  unfoldable pub retried_or_exhausted : ℕ → Entry → Entry → Entry
  retried_or_exhausted now doc e =
      if leb (budget doc) doc.attempts
      then record e {
        status = exhausted;
        next_attempt_at = bson now;
        locked_by = none;
        lock_until = none;
      }
      else record e {
        status = pending;
        next_attempt_at = bson (now + backoff doc.attempts);
        locked_by = none;
        lock_until = none;
      }

-- The update of `mark_processed`.
unfoldable pub mark_processed : Entry → Entry
mark_processed e = record e { status = processed; locked_by = none; lock_until = none }

-- The two updates of `prepare_retry_now`.
unfoldable pub prepare_retry_now : ℕ → Entry → Entry
prepare_retry_now now e = elim e.status [
  | pending ↦ record e {
    status = pending;
    next_attempt_at = bson now;
    locked_by = none;
    lock_until = none;
  }
  | processing ↦ record e {
    status = pending;
    next_attempt_at = bson now;
    locked_by = none;
    lock_until = none;
  }
  | exhausted ↦ record e {
    status = pending;
    attempts = 0;
    next_attempt_at = bson now;
    locked_by = none;
    lock_until = none;
  }
  | processed ↦ e
  | poison ↦ e
]
