-- ===== src/Payment/Events.antt =====
-- ps/models/security_event.py: the evidence of an allowed or a denied action. The `message` and
-- the constant `source` of an event only format what is kept here.
use policy_pilot.Prelude.{ℕ, String, Option, none, some, List, [], ◌∷◌}
use policy_pilot.Prelude.Text.{Text}
use policy_pilot.Payment.Model.{
  Time, PaymentAction, create, cancel, Amount, Subject, Actor, subject_at_decision, Summary,
  AuthorizationBlock, Details, no_details, Payment, status_value,
}

pub data Severity : Type 0 where
  info alert : Severity

pub data Outcome : Type 0 where
  success failure : Outcome

-- A reason is the summary of a decision, or other text.
pub data Reason : Type 0 where
  summary : Summary → Reason
  text : String → Reason

pub record Resource : Type 0 where
  pub id : Text
  pub instruction_id : Text
  pub owning_lob : String
  pub status : String
  pub amount : Amount
  pub currency : String
  pub version_number : Option ℕ

pub record SecurityEvent : Type 0 where
  pub timestamp : Time
  pub severity : Severity
  pub event_types : List String
  pub action : PaymentAction
  pub outcome : Outcome
  pub reason : Option Reason
  pub actor : Actor
  pub resource : Resource
  pub details : Details
  pub payment_snapshot : Payment

-- A stored event; `_id` is the allocated event id.
pub record SecurityEventDocument : Type 0 where
  pub document_id : Text
  pub event : SecurityEvent

abbrev resource : Payment → Option ℕ → Resource
resource p version_number = record {
  id = p.payment_id;
  instruction_id = p.instruction_id;
  owning_lob = p.owning_lob;
  status = status_value p.status;
  amount = p.amount;
  currency = p.currency;
  version_number = version_number;
}

abbrev event_types_for_action : PaymentAction → List String
event_types_for_action create = "creation" ∷ []
event_types_for_action cancel = "cancellation" ∷ []
event_types_for_action _ = "change" ∷ []

abbrev details_or_empty : Option Details → Details
details_or_empty none = no_details
details_or_empty (some details) = details

abbrev authorization_summary : Option AuthorizationBlock → Option Reason
authorization_summary none = none
authorization_summary (some block) = some (summary block.summary)

unfoldable pub authorized_action :
    PaymentAction → Subject → Payment → ℕ → Option Details → Time → SecurityEvent
unfolding subject_at_decision
authorized_action action subject p version_number details now = record {
  timestamp = now;
  severity = info;
  event_types = event_types_for_action action;
  action = action;
  outcome = success;
  reason = authorization_summary (details_or_empty details).authorization;
  actor = subject_at_decision subject;
  resource = resource p (some version_number);
  details = details_or_empty details;
  payment_snapshot = p;
}

unfoldable pub policy_denial :
    PaymentAction → Subject → Payment → Reason → Option Details → Time → SecurityEvent
unfolding subject_at_decision
policy_denial action subject p reason details now = record {
  timestamp = now;
  severity = alert;
  event_types = "access" ∷ "denied" ∷ [];
  action = action;
  outcome = failure;
  reason = some reason;
  actor = subject_at_decision subject;
  resource = resource p none;
  details = record (details_or_empty details) { policy_engine = some "opa" };
  payment_snapshot = p;
}
