-- ===== src/Payment/Service/Releasing.antt =====
-- `_cancel` of ps/service.py passes no token to `_try_release_single_use_instruction`.
use policy_pilot.Prelude.{◌≡◌, inl, inr, arith, Bool-cases}
use policy_pilot.Prelude.Text.{Text}
use policy_pilot.Prelude.Exec.{err, ◌>>=◌, ◌>>◌}
use policy_pilot.Payment.Errors.{Error, instruction_client_error}
use policy_pilot.Payment.Platform.{Platform, Store}
use policy_pilot.Payment.Client.{auth_headers, log_in_if, release_use}
use policy_pilot.Payment.Service.Cancel.{no_credentials}

module _ (P : Platform) where
  -- Without a user token, as `_cancel` calls it, `release_use` raises, and leaves the stored payments, the
  -- events and everything outside as they were: it sends no request.
  pub release_use-no_credentials :
      (instruction_id payment_id : Text) (s : Store P)
      → (e : Error) × (release_use P instruction_id payment_id (no_credentials P) s ≡ (err e, s))
  unfolding release_use auth_headers log_in_if ◌>>=◌ ◌>>◌
  release_use-no_credentials instruction_id payment_id s = elim (Bool-cases (P.logged_in s.world)) [
    | inl is_in ↦ (instruction_client_error "user token is required", ground arith)
    | inr is_out ↦ (instruction_client_error "payment service identity not logged in", ground arith)
  ]
