-- ===== src/Payment/Errors.antt =====
-- The exceptions of payment-service. A message that only formats values is kept by its fixed words.
use policy_pilot.Prelude.{ℕ, String}
use policy_pilot.Prelude.Text.{Text}
use policy_pilot.Mongo.{MongoError}
use policy_pilot.Payment.Model.{Summary}

pub data Error : Type 0 where
  -- `PermissionError`, with the summary of a denial or another message
  policy_denied : Summary → Error
  permission_error value_error runtime_error lookup_error : String → Error
  key_error invalid_state_transition other_error : String → Error
  -- ps/repository.py
  payment_not_found : Text → Error
  concurrent_modification : Text → ℕ → Error
  mongo_error : MongoError → Error
  -- ps/instruction_client.py
  instruction_not_found : Text → Error
  instruction_state : Text → Error
  instruction_client_error : String → Error
  http_status_error : ℕ → Error
