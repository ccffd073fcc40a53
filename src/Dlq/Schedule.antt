-- ===== src/Dlq/Schedule.antt =====
-- The attempts of an entry of the dead-letter queue.
use policy_pilot.Prelude.{ℕ, ◌+◌, ◌≡◌, ◌≤◌, refl, ap, true, List, [], ◌∷◌, arith, leb, length}
use policy_pilot.Prelude.Text.{Text}
use policy_pilot.Dlq.{exhausted, DlqSettings, Entry, claimed, budget, retried_or_exhausted}

module _ (settings : DlqSettings) where
  -- An attempt that fails: a worker claims the entry at one time, and reports the failure of what it
  -- claimed at another.
  abbrev failed_attempt : Text × ℕ × ℕ → Entry → Entry
  failed_attempt (worker_id, claimed_at, failed_at) e =
      let doc = claimed settings worker_id claimed_at e in
      retried_or_exhausted settings failed_at doc doc

  -- The entry after attempts that all fail, made one after the other.
  unfoldable pub fail_all : List (Text × ℕ × ℕ) → Entry → Entry
  fail_all [] e = e
  fail_all (a ∷ more) e = fail_all more (failed_attempt a e)

  one_attempt :
      (a : Text × ℕ × ℕ) (e : Entry)
      → ((failed_attempt a e).attempts ≡ e.attempts + 1)
        × ((failed_attempt a e).max_attempts ≡ e.max_attempts)
  unfolding retried_or_exhausted claimed
  one_attempt (worker_id, claimed_at, failed_at) e = (ground arith, ground arith)

  budget_same :
      (e d : Entry) → e.max_attempts ≡ d.max_attempts → budget settings e ≡ budget settings d
  budget_same e d h = ap (λ m. budget settings (record d { max_attempts = m })) h

  -- Attempts that all fail exhaust an entry, if they are made one after the other and nothing else updates
  -- the entry: once they use up its budget its status is EXHAUSTED, whoever makes them, at whatever times.
  pub fail_all-exhausted :
      (a : Text × ℕ × ℕ) (more : List (Text × ℕ × ℕ)) (e : Entry)
      → budget settings e ≤ e.attempts + length (a ∷ more)
      → (fail_all (a ∷ more) e).status ≡ exhausted
  unfolding fail_all retried_or_exhausted claimed
  fail_all-exhausted (worker_id, claimed_at, failed_at) [] e h =
      let full : leb (budget settings e) (e.attempts + 1) ≡ true = ground arith in rw full refl
  fail_all-exhausted a (b ∷ more) e h =
      let (spent, same_max) = one_attempt a e in
      let same_budget : budget settings (failed_attempt a e) ≡ budget settings e =
        budget_same (failed_attempt a e) e same_max in
      fail_all-exhausted b more (failed_attempt a e) (omega arith)
