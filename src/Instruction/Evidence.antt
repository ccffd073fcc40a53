-- ===== src/Instruction/Evidence.antt =====
-- inst/authorization.py and inst/models/security_event.py: the evidence that is kept of a decision. The
-- `message` and the constant `source` of an event only format what is kept here.
use policy_pilot.Prelude.{
  ℕ, String, true, false, not, Option, none, some, List, [], ◌∷◌, str_eq, if◌then◌else◌, select,
  is_blank,
}
use policy_pilot.Prelude.Text.{Text}
use policy_pilot.Payment.Model.{Time, Subject, PolicyDecision}
use policy_pilot.Payment.Authorization.{display_name, primary_violation}
use policy_pilot.Payment.Events.{Severity, info, alert, Outcome, success, failure}
use policy_pilot.Instruction.Model.{
  LifecycleAction, create, cancel, view, SubjectAtDecision, ResourceContext, Summary,
  allowed_because, denied_for, AuthorizationBlock, Details, no_details, CashSettlementInstruction,
  status_value, type_value,
}

unfoldable pub subject_at_decision : Subject → SubjectAtDecision
subject_at_decision subject = record {
  user_id = subject.user_id;
  given_name = subject.given_name;
  family_name = subject.family_name;
  title = subject.title;
  roles = subject.roles;
  groups = subject.groups;
  covering_lobs = subject.covering_lobs;
  lob = subject.lob;
  supervisor_id = subject.supervisor_id;
  delegated_by = subject.delegated_by;
  delegated_by_roles = subject.delegated_by_roles;
}

unfoldable pub instruction_resource_context : CashSettlementInstruction → ResourceContext
instruction_resource_context i = record {
  instruction_id = i.instruction_id;
  owning_lob = i.owning_lob;
  status = status_value i.status;
  instruction_type = type_value i.instruction_type;
  created_by_user_id = i.created_by.user_id;
  created_by_title = i.created_by.title;
}

-- `_display_name` and `_primary_violation` are those of ps/authorization.py. The codes stand in the
-- summary; the labels that the code prints for them are not kept.
unfoldable pub build_authorization_block :
    PolicyDecision → Subject → LifecycleAction → ResourceContext → AuthorizationBlock
unfolding subject_at_decision
build_authorization_block decision subject action context =
    let actor = display_name subject in
    if decision.allowed
    then record {
      action = action;
      allow = true;
      subject_at_decision = subject_at_decision subject;
      resource_context = context;
      allow_basis = decision.allow_basis;
      violations = [];
      is_alert = false;
      summary = allowed_because actor action decision.allow_basis;
    }
    else let primary = primary_violation decision.violations in
      record {
        action = action;
        allow = false;
        subject_at_decision = subject_at_decision subject;
        resource_context = context;
        allow_basis = [];
        violations = decision.violations;
        is_alert = decision.is_alert;
        summary =
            denied_for actor action primary
              (select (λ code. not (str_eq code primary)) decision.violations);
      }

abbrev pub details_or_empty : Option Details → Details
details_or_empty none = no_details
details_or_empty (some details) = details

unfoldable pub details_with_authorization : Option Details → AuthorizationBlock → Details
details_with_authorization details block = record (details_or_empty details) {
  authorization = some block;
}

pub record SecurityEventActor : Type 0 where
  pub user_id : String
  pub given_name : Option String
  pub family_name : Option String
  pub title : String
  pub roles : List String
  pub groups : List String
  pub lob : Option String
  pub supervisor_id : Option String
  pub delegated_by : Option String

pub record SecurityEventResource : Type 0 where
  pub id : Text
  pub owning_lob : Text
  pub status : String
  pub instruction_type : String
  pub version_number : Option ℕ

pub record SecurityEvent : Type 0 where
  pub timestamp : Time
  pub severity : Severity
  pub event_types : List String
  pub action : LifecycleAction
  pub outcome : Outcome
  pub reason : Option Summary
  pub actor : SecurityEventActor
  pub resource : SecurityEventResource
  pub details : Details
  pub instruction_snapshot : CashSettlementInstruction

-- A stored event; `_id` is the allocated event id.
pub record SecurityEventDocument : Type 0 where
  pub document_id : Text
  pub event : SecurityEvent

abbrev pub actor_from_subject : Subject → SecurityEventActor
actor_from_subject subject = record {
  user_id = subject.user_id;
  given_name = subject.given_name;
  family_name = subject.family_name;
  title = subject.title;
  roles = subject.roles;
  groups = subject.groups;
  lob = subject.lob;
  supervisor_id = subject.supervisor_id;
  delegated_by = subject.delegated_by;
}

abbrev pub resource_from_instruction : CashSettlementInstruction → Option ℕ → SecurityEventResource
resource_from_instruction i version_number = record {
  id = i.instruction_id;
  owning_lob = i.owning_lob;
  status = status_value i.status;
  instruction_type = type_value i.instruction_type;
  version_number = version_number;
}

abbrev pub event_types_for_action : LifecycleAction → List String
event_types_for_action create = "creation" ∷ []
event_types_for_action cancel = "cancellation" ∷ []
event_types_for_action view = "access" ∷ []
event_types_for_action _ = "change" ∷ []

-- The keys of `_delegation_details` are no keys of the details that the service passes.
abbrev pub delegated : Option String → Details → Details
delegated none details = details
delegated (some by) details =
    if is_blank by
    then details
    else record details { delegated_by = some by; delegation = some "on_behalf_of" }

abbrev pub authorization_summary : Option AuthorizationBlock → Option Summary
authorization_summary none = none
authorization_summary (some block) = some block.summary

unfoldable pub authorized_action :
    LifecycleAction → Subject → CashSettlementInstruction → ℕ → Details → Time → SecurityEvent
authorized_action action subject i version_number details now = record {
  timestamp = now;
  severity = info;
  event_types = event_types_for_action action;
  action = action;
  outcome = success;
  reason = authorization_summary details.authorization;
  actor = actor_from_subject subject;
  resource = resource_from_instruction i (some version_number);
  details = delegated subject.delegated_by details;
  instruction_snapshot = i;
}

unfoldable pub policy_denial :
    LifecycleAction
    → Subject
    → CashSettlementInstruction
    → Summary
    → Details
    → Option ℕ
    → Time
    → SecurityEvent
policy_denial action subject i reason details version_number now = record {
  timestamp = now;
  severity = alert;
  event_types = "access" ∷ "denied" ∷ [];
  action = action;
  outcome = failure;
  reason = some reason;
  actor = actor_from_subject subject;
  resource = resource_from_instruction i version_number;
  details = record (delegated subject.delegated_by details) { policy_engine = some "opa" };
  instruction_snapshot = i;
}
