-- ===== src/Dlq/Tests.antt =====
-- The theorems about the queue's schedule on one entry.
use policy_pilot.Prelude.{◌≡◌, refl, none, [], ◌∷◌, arith}
use policy_pilot.Prelude.Text.{codes}
use policy_pilot.Dlq.{pending, exhausted, DlqSettings, Entry, claimed, retried_or_exhausted}
use policy_pilot.Dlq.Schedule.{fail_all, fail_all-exhausted}

abbrev settings : DlqSettings
settings = record {
  lock_ttl = 300;
  scheduler_max_attempts = 2;
  scheduler_backoff = 30;
  scheduler_max_backoff = 3600;
}

abbrev entry : Entry
entry = record {
  status = pending;
  attempts = 0;
  max_attempts = none;
  next_attempt_at = 10;
  locked_by = none;
  lock_until = none;
}

fail_all-exhausted_example :
    (fail_all settings ((codes "v", 20, 25) ∷ (codes "w", 90, 95) ∷ []) entry).status ≡ exhausted
fail_all-exhausted_example =
    fail_all-exhausted settings (codes "v", 20, 25) ((codes "w", 90, 95) ∷ []) entry (omega arith)

-- A worker that fails late, after its lock has run out and the attempts of others have used up the
-- budget, puts the entry back.
late_failure :
    (retried_or_exhausted settings 900000 (claimed settings (codes "u") 20000 entry) (
      fail_all settings
        ((codes "v", 400000, 500000) ∷ (codes "w", 700000, 800000) ∷ [])
        entry)).status
    ≡ pending
unfolding retried_or_exhausted claimed fail_all
late_failure = refl
