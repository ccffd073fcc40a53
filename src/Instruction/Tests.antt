-- ===== src/Instruction/Tests.antt =====
-- A small platform for instruction-service: collections in memory, a clock that does not move, and a
-- policy engine that allows everything.
pub mod Runs
mod Examples
use policy_pilot.Prelude.{ℕ, ◌+◌, String, Option, none, some, List, [], ◌∷◌, true, false, str_eq}
use policy_pilot.Prelude.Text.{Text, codes}
use policy_pilot.Prelude.Exec.{ok}
use policy_pilot.Mongo.{IsLawful}
use policy_pilot.Mongo.Memory.{memory, memory-IsLawful}
use policy_pilot.Payment.Model.{Subject}
use policy_pilot.Instruction.Route.{
  domestic, shar, iban, bicfi, Route, PartyIdentification, CashAccount,
  BranchAndFinancialInstitutionIdentification,
}
use policy_pilot.Instruction.Model.{single_use, CreateInstructionRequest}
use policy_pilot.Instruction.Platform.{Caller, Platform, Store}
use policy_pilot.Instruction.Saving.{document_key, event_key}
use policy_pilot.Instruction.Calls.{
  Call, create_call, submit_call, approve_call, use_call, release_call,
}

-- The world counts the identifiers given out; the only readable date is time 500.
abbrev pub platform : Platform
platform = record {
  Instructions = memory document_key;
  Events = memory event_key;
  World = ℕ;
  now = λ w. (100 + w, w);
  uuid4 = λ w. ("uuid", w);
  commit = λ w. (none, w);
  ensure_logged_in = λ w. (none, w);
  token = λ _. some "service";
  session_id = λ _. none;
  evaluate = λ _ w.
      (ok (record { allowed = true; violations = []; allow_basis = []; is_alert = false }), w);
  next_instruction_id = λ _ _ w. (some (codes "I1"), w + 1);
  next_security_event_id = λ _ w. (some (w ∷ []), w + 1);
  fromisoformat = λ _. some (record { wall = 500; offset = none });
  is_excluded = λ user_id. str_eq user_id "probe";
  is_view_excluded = λ user_id. str_eq user_id "reader";
}

abbrev pub instructions_lawful : IsLawful document_key platform.Instructions
instructions_lawful = memory-IsLawful document_key

abbrev pub events_lawful : IsLawful event_key platform.Events
events_lawful = memory-IsLawful event_key

abbrev pub empty_store : Store platform
empty_store = record { items = []; events = []; world = 0 }

abbrev pub ann : Subject
ann = record {
  user_id = "ann";
  given_name = none;
  family_name = none;
  title = "Analyst";
  lob = some "FICC";
  roles = "INSTRUCTION_CREATOR" ∷ [];
  groups = [];
  supervisor_id = none;
  covering_lobs = [];
  delegated_by = none;
  delegated_by_roles = [];
}

abbrev pub caller : Caller
caller = record { bearer_token = some "token"; session_id = none; context = none }

abbrev bank : BranchAndFinancialInstitutionIdentification
bank = record {
  financial_institution = record {
    scheme = bicfi;
    identification = "BANKUS33";
    name = none;
    clearing_system_id = none;
  };
  name = none;
  country = none;
}

abbrev party : PartyIdentification
party = record {
  name = "party";
  postal_address = none;
  organisation_identification = none;
  country_of_residence = none;
}

abbrev account : CashAccount
account = record {
  identification_scheme = iban;
  identification = "1";
  currency = none;
  name = none;
}

abbrev pub route : Route
route = record {
  wire_scope = domestic;
  currency = "USD";
  funding_account = record { account_id = "F1"; account_name = none; owning_lob = codes "FICC" };
  initiating_party = none;
  ultimate_debtor = none;
  debtor = party;
  debtor_account = account;
  debtor_agent = bank;
  debtor_agent_account = none;
  instructing_agent = none;
  instructed_agent = none;
  previous_instructing_agents = [];
  intermediary_agents = [];
  creditor_agent = bank;
  creditor_agent_account = none;
  creditor = party;
  creditor_account = account;
  ultimate_creditor = none;
  charge_bearer = shar;
  instructions_for_creditor_agent = [];
  instructions_for_next_agent = [];
}

abbrev pub request : CreateInstructionRequest
request = record {
  instruction_type = single_use;
  owning_lob = codes "FICC";
  route = route;
  effective_date = "2026-01-01";
  end_date = "2027-01-01";
}

abbrev pub instruction_id : Text
instruction_id = codes "I1"

abbrev pub payment : Text
payment = codes "P1"

-- A draft, and its way to the approval.
abbrev pub approving : List Call
approving =
    create_call request ann caller
    ∷ submit_call instruction_id ann caller
    ∷ approve_call instruction_id ann caller
    ∷ []
