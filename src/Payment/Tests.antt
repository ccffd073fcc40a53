-- ===== src/Payment/Tests.antt =====
-- A small platform over two in-memory collections, the calls of one payment's life on it, and the
-- theorems about payment-service at these inputs.
pub mod Runs
mod Examples
use policy_pilot.Prelude.{
  ℕ, ◌+◌, String, ◌≡◌, refl, Bool, true, false, Option, none, some, List, [], ◌∷◌, str_eq,
}
use policy_pilot.Prelude.Text.{Text, codes}
use policy_pilot.Prelude.Exec.{Result, ok, err}
use policy_pilot.Mongo.{IsLawful}
use policy_pilot.Mongo.Memory.{memory, memory-IsLawful}
use policy_pilot.Payment.Model.{Amount, Subject, PolicyDecision}
use policy_pilot.Payment.Storage.{PaymentDocument}
use policy_pilot.Payment.Repository.Versions.{document_key}
use policy_pilot.Payment.Service.Saving.{event_key}
use policy_pilot.Payment.Instruction.{InstructionJson}
use policy_pilot.Payment.Moment.{Moment}
use policy_pilot.Payment.Platform.{Credentials, Request, Response, EvaluateRequest, Platform, Store}

abbrev pub instruction : InstructionJson
instruction = record {
  status = some "APPROVED";
  instruction_type = some "SINGLE_USE";
  version_number = some 3;
  effective_date = none;
  end_date = some "2030-01-01";
  owning_lob = some "FICC";
  currency = some "USD";
}

abbrev pub allow : PolicyDecision
allow = record { allowed = true; violations = []; allow_basis = []; is_alert = false }

-- The world counts the identifiers given out; the only readable date is time 500.
abbrev pub platform : Platform
platform = record {
  Payments = memory document_key;
  Events = memory event_key;
  World = ℕ;
  now = λ w. (100 + w, w);
  uuid4 = λ w. ("uuid", w);
  commit = λ w. (none, w);
  send = λ _ _ w. (some (record { status_code = 200; body = some instruction }), w);
  ensure_logged_in = λ w. (none, w);
  logged_in = λ _. true;
  evaluate = λ _ w. (ok allow, w);
  next_payment_id = λ _ _ w. (some (codes "P1"), w + 1);
  next_security_event_id = λ _ w. (some (w ∷ []), w + 1);
  link_security_event = λ _ w. (none, w);
  fromisoformat = λ _. some (record { wall = 500; offset = none });
  is_excluded = λ user_id. str_eq user_id "probe";
}

abbrev pub payments_lawful : IsLawful document_key platform.Payments
payments_lawful = memory-IsLawful document_key

abbrev pub events_lawful : IsLawful event_key platform.Events
events_lawful = memory-IsLawful event_key

abbrev pub empty_store : Store platform
empty_store = record { items = []; events = []; world = 0 }

abbrev pub ann : Subject
ann = record {
  user_id = "ann";
  given_name = none;
  family_name = none;
  title = "Analyst";
  lob = some "FICC";
  roles = "PAYMENT_CREATOR" ∷ [];
  groups = [];
  supervisor_id = none;
  covering_lobs = [];
  delegated_by = none;
  delegated_by_roles = [];
}

abbrev pub creds : Credentials
creds = record { bearer_token = some "token"; session_id = none }

abbrev pub amount : Amount
amount = record { significand = 1; exponent = 1074 }

abbrev pub instruction_id : Text
instruction_id = codes "I1"

abbrev pub payment_id : Text
payment_id = codes "P1"
