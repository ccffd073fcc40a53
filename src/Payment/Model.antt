-- ===== src/Payment/Model.antt =====
-- ps/models/enums.py, ps/models/api.py and ps/models/payment.py. Identifiers that the program
-- builds and takes apart are code points, other strings are native. A `datetime` is its UTC
-- wall-clock time in microseconds.
use policy_pilot.Prelude.{ℕ, String, Bool, true, false, Option, none, List, [], ◌∷◌}
use policy_pilot.Prelude.Text.{Text}

abbrev pub Time : Type 0
Time = ℕ

pub data PaymentStatus : Type 0 where
  draft submitted approved rejected cancelled : PaymentStatus

pub data PaymentAction : Type 0 where
  create update submit approve reject cancel : PaymentAction

-- The `.value` of a status.
abbrev pub status_value : PaymentStatus → String
status_value draft = "DRAFT"
status_value submitted = "SUBMITTED"
status_value approved = "APPROVED"
status_value rejected = "REJECTED"
status_value cancelled = "CANCELLED"

-- `==` of two statuses
abbrev pub status_eq : PaymentStatus → PaymentStatus → Bool
status_eq draft draft = true
status_eq submitted submitted = true
status_eq approved approved = true
status_eq rejected rejected = true
status_eq cancelled cancelled = true
status_eq _ _ = false

-- A finite positive double: `significand * 2 ^ exponent`, in units of 2 ^ -1074. The service
-- copies amounts and does not compute with them.
pub record Amount : Type 0 where
  pub significand : ℕ
  pub exponent : ℕ

pub record Subject : Type 0 where
  pub user_id : String
  pub given_name : Option String
  pub family_name : Option String
  pub title : String
  pub lob : Option String
  pub roles : List String
  pub groups : List String
  pub supervisor_id : Option String
  pub covering_lobs : List String
  pub delegated_by : Option String
  pub delegated_by_roles : List String

pub record UserReference : Type 0 where
  pub user_id : String
  pub given_name : Option String
  pub family_name : Option String
  pub title : String
  pub lob : Option String
  pub roles : List String
  pub supervisor_id : Option String

unfoldable pub user_ref : Subject → UserReference
user_ref subject = record {
  user_id = subject.user_id;
  given_name = subject.given_name;
  family_name = subject.family_name;
  title = subject.title;
  lob = subject.lob;
  roles = subject.roles;
  supervisor_id = subject.supervisor_id;
}

-- The nine fields of a subject that evidence keeps: `subject_at_decision` of a decision, and the
-- actor of a security event.
pub record Actor : Type 0 where
  pub user_id : String
  pub given_name : Option String
  pub family_name : Option String
  pub title : String
  pub roles : List String
  pub groups : List String
  pub covering_lobs : List String
  pub lob : Option String
  pub supervisor_id : Option String

unfoldable pub subject_at_decision : Subject → Actor
subject_at_decision subject = record {
  user_id = subject.user_id;
  given_name = subject.given_name;
  family_name = subject.family_name;
  title = subject.title;
  roles = subject.roles;
  groups = subject.groups;
  covering_lobs = subject.covering_lobs;
  lob = subject.lob;
  supervisor_id = subject.supervisor_id;
}

-- What the policy engine answers to an evaluation.
pub record PolicyDecision : Type 0 where
  pub allowed : Bool
  pub violations : List String
  pub allow_basis : List String
  pub is_alert : Bool

-- The `summary` string by its parts: the actor's display name, the action, and the reasons.
pub data Summary : Type 0 where
  allowed_because : String → PaymentAction → List String → Summary
  denied_for : String → PaymentAction → String → List String → Summary

-- `resource_context` of an authorization block.
pub record ResourceContext : Type 0 where
  pub payment_id : Text
  pub instruction_id : Text
  pub instruction_owning_lob : String
  pub instruction_status : String
  pub instruction_end_date : String
  pub payment_amount : Amount
  pub payment_currency : String
  pub payment_status : String
  pub created_by_user_id : String

-- The authorization block that evidence keeps of one decision.
pub record AuthorizationBlock : Type 0 where
  pub action : PaymentAction
  pub allow : Bool
  pub subject_at_decision : Actor
  pub resource_context : ResourceContext
  pub allow_basis : List String
  pub violations : List String
  pub is_alert : Bool
  pub summary : Summary

-- The keys that the service puts into a `details` dict.
pub record Details : Type 0 where
  pub reason : Option String
  pub authorization : Option AuthorizationBlock
  pub saga_step : Option String
  pub policy_engine : Option String

abbrev pub no_details : Details
no_details = record { reason = none; authorization = none; saga_step = none; policy_engine = none }

pub record LifecycleEvent : Type 0 where
  pub event_id : String
  pub action : PaymentAction
  pub actor_user_id : String
  pub timestamp : Time
  pub details : Details

pub record Payment : Type 0 where
  pub payment_id : Text
  pub instruction_id : Text
  pub instruction_version : ℕ
  pub status : PaymentStatus
  pub amount : Amount
  pub currency : String
  pub value_date : String
  pub owning_lob : String
  pub instruction_type : String
  pub created_by : UserReference
  pub submitted_by : Option UserReference
  pub approved_by : Option UserReference
  pub rejected_by : Option UserReference
  pub cancelled_by : Option UserReference
  pub rejection_reason : Option String
  pub cancellation_reason : Option String
  pub created_at : Time
  pub updated_at : Time
  pub submitted_at : Option Time
  pub approved_at : Option Time
  pub rejected_at : Option Time
  pub cancelled_at : Option Time
  pub lifecycle_events : List LifecycleEvent

-- `Payment.create`: a draft whose history has one event. `now` is the time that it reads.
unfoldable pub create_payment :
    Text → Text → ℕ → Amount → String → String → String → String → Subject → String → Time → Payment
unfolding user_ref
create_payment payment_id instruction_id instruction_version amount currency value_date owning_lob
      instruction_type subject event_id now =
    record {
      payment_id = payment_id;
      instruction_id = instruction_id;
      instruction_version = instruction_version;
      status = draft;
      amount = amount;
      currency = currency;
      value_date = value_date;
      owning_lob = owning_lob;
      instruction_type = instruction_type;
      created_by = user_ref subject;
      submitted_by = none;
      approved_by = none;
      rejected_by = none;
      cancelled_by = none;
      rejection_reason = none;
      cancellation_reason = none;
      created_at = now;
      updated_at = now;
      submitted_at = none;
      approved_at = none;
      rejected_at = none;
      cancelled_at = none;
      lifecycle_events =
          record {
            event_id = event_id;
            action = create;
            actor_user_id = subject.user_id;
            timestamp = now;
            details = no_details;
          }
          ∷ [];
    }

-- The `payment` object of a policy evaluation.
pub record OpaPayment : Type 0 where
  pub payment_id : Text
  pub instruction_id : Text
  pub instruction_version : ℕ
  pub status : String
  pub amount : Amount
  pub currency : String
  pub instruction_status : String
  pub instruction_end_date : String
  pub instruction_type : String
  pub instruction_owning_lob : String
  pub created_by_user_id : String
  pub created_by_supervisor_id : Option String

unfoldable pub to_opa_payment : Payment → String → String → OpaPayment
to_opa_payment p instruction_end_date instruction_status = record {
  payment_id = p.payment_id;
  instruction_id = p.instruction_id;
  instruction_version = p.instruction_version;
  status = status_value p.status;
  amount = p.amount;
  currency = p.currency;
  instruction_status = instruction_status;
  instruction_end_date = instruction_end_date;
  instruction_type = p.instruction_type;
  instruction_owning_lob = p.owning_lob;
  created_by_user_id = p.created_by.user_id;
  created_by_supervisor_id = p.created_by.supervisor_id;
}
