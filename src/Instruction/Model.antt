-- ===== src/Instruction/Model.antt =====
-- inst/models/enums.py, inst/models/instruction.py and inst/models/api.py. A `datetime` without an
-- offset is its wall clock in microseconds. The length limits of pydantic's `Field` are left out.
use policy_pilot.Prelude.{ℕ, String, Bool, true, false, Option, none, List, []}
use policy_pilot.Prelude.Text.{Text}
use policy_pilot.Payment.Moment.{Moment}
use policy_pilot.Payment.Model.{Time, UserReference}
use policy_pilot.Instruction.Route.{Route}

pub data InstructionType : Type 0 where
  standing single_use : InstructionType

pub data InstructionStatus : Type 0 where
  draft submitted approved suspended rejected used cancelled : InstructionStatus

pub data LifecycleAction : Type 0 where
  create update cancel submit approve reject suspend reactivate use_action release_use view :
      LifecycleAction

-- The `.value` of a type and of a status.
abbrev pub type_value : InstructionType → String
type_value standing = "STANDING"
type_value single_use = "SINGLE_USE"

abbrev pub status_value : InstructionStatus → String
status_value draft = "DRAFT"
status_value submitted = "SUBMITTED"
status_value approved = "APPROVED"
status_value suspended = "SUSPENDED"
status_value rejected = "REJECTED"
status_value used = "USED"
status_value cancelled = "CANCELLED"

-- `==` of two types, and of two statuses
abbrev pub type_eq : InstructionType → InstructionType → Bool
type_eq standing standing = true
type_eq single_use single_use = true
type_eq _ _ = false

abbrev pub status_eq : InstructionStatus → InstructionStatus → Bool
status_eq draft draft = true
status_eq submitted submitted = true
status_eq approved approved = true
status_eq suspended suspended = true
status_eq rejected rejected = true
status_eq used used = true
status_eq cancelled cancelled = true
status_eq _ _ = false

-- The `summary` string of a decision by its parts.
pub data Summary : Type 0 where
  allowed_because : String → LifecycleAction → List String → Summary
  denied_for : String → LifecycleAction → String → List String → Summary

pub record SubjectAtDecision : Type 0 where
  pub user_id : String
  pub given_name : Option String
  pub family_name : Option String
  pub title : String
  pub roles : List String
  pub groups : List String
  pub covering_lobs : List String
  pub lob : Option String
  pub supervisor_id : Option String
  pub delegated_by : Option String
  pub delegated_by_roles : List String

pub record ResourceContext : Type 0 where
  pub instruction_id : Text
  pub owning_lob : Text
  pub status : String
  pub instruction_type : String
  pub created_by_user_id : String
  pub created_by_title : String

pub record AuthorizationBlock : Type 0 where
  pub action : LifecycleAction
  pub allow : Bool
  pub subject_at_decision : SubjectAtDecision
  pub resource_context : ResourceContext
  pub allow_basis : List String
  pub violations : List String
  pub is_alert : Bool
  pub summary : Summary

-- The keys that the service puts into a `details` dict.
pub record Details : Type 0 where
  pub reason : Option String
  pub payment_reference : Option Text
  pub end_to_end_identification : Option String
  pub currency : Option String
  pub authorization : Option AuthorizationBlock
  pub delegated_by : Option String
  pub delegation : Option String
  pub policy_engine : Option String

abbrev pub no_details : Details
no_details = record {
  reason = none;
  payment_reference = none;
  end_to_end_identification = none;
  currency = none;
  authorization = none;
  delegated_by = none;
  delegation = none;
  policy_engine = none;
}

pub record LifecycleEvent : Type 0 where
  pub event_id : String
  pub action : LifecycleAction
  pub actor_user_id : String
  pub timestamp : Time
  pub details : Details

-- The fields of the route stand together in `route`. `cancelled_at` may carry an offset.
pub record CashSettlementInstruction : Type 0 where
  pub instruction_id : Text
  pub instruction_type : InstructionType
  pub status : InstructionStatus
  pub owning_lob : Text
  pub route : Route
  pub effective_date : Time
  pub end_date : Time
  pub created_by : UserReference
  pub created_at : Time
  pub updated_at : Time
  pub submitted_at : Option Time
  pub approved_by : Option UserReference
  pub approved_at : Option Time
  pub rejected_by : Option UserReference
  pub rejected_at : Option Time
  pub rejection_reason : Option String
  pub cancelled_at : Option Moment
  pub suspended_by : Option String
  pub suspended_at : Option Time
  pub last_used_at : Option Time
  pub usage_count : ℕ
  pub used_by : Option Text
  pub lifecycle_events : List LifecycleEvent

-- `CreateInstructionRequest`, which is `UpdateInstructionRequest` too.
pub record CreateInstructionRequest : Type 0 where
  pub instruction_type : InstructionType
  pub owning_lob : Text
  pub route : Route
  pub effective_date : String
  pub end_date : String

-- The `instruction` object of a policy evaluation, and the creator in it.
pub record OpaCreator : Type 0 where
  pub user_id : String
  pub title : String
  pub supervisor_id : Option String

pub record OpaInstruction : Type 0 where
  pub status : String
  pub instruction_type : String
  pub owning_lob : Text
  pub effective_date : Time
  pub end_date : Time
  pub created_by : OpaCreator
  pub suspended_by : Option String
  pub used_by : Option Text

unfoldable pub to_opa_instruction : CashSettlementInstruction → OpaInstruction
to_opa_instruction i = record {
  status = status_value i.status;
  instruction_type = type_value i.instruction_type;
  owning_lob = i.owning_lob;
  effective_date = i.effective_date;
  end_date = i.end_date;
  created_by = record {
    user_id = i.created_by.user_id;
    title = i.created_by.title;
    supervisor_id = i.created_by.supervisor_id;
  };
  suspended_by = i.suspended_by;
  used_by = i.used_by;
}

-- `to_opa_account`
unfoldable pub to_opa_account : CashSettlementInstruction → Text
to_opa_account i = i.route.funding_account.owning_lob

-- The instruction that `_instruction_from_request` constructs, before its validators run. `now` and
-- `updated` are the times that the defaults of `created_at` and `updated_at` read.
unfoldable pub instruction_of_request :
    CreateInstructionRequest
    → Text
    → InstructionStatus
    → UserReference
    → Time
    → Time
    → Time
    → Time
    → CashSettlementInstruction
instruction_of_request request instruction_id status created_by effective_date end_date now
      updated =
    record {
      instruction_id = instruction_id;
      instruction_type = request.instruction_type;
      status = status;
      owning_lob = request.owning_lob;
      route = request.route;
      effective_date = effective_date;
      end_date = end_date;
      created_by = created_by;
      created_at = now;
      updated_at = updated;
      submitted_at = none;
      approved_by = none;
      approved_at = none;
      rejected_by = none;
      rejected_at = none;
      rejection_reason = none;
      cancelled_at = none;
      suspended_by = none;
      suspended_at = none;
      last_used_at = none;
      usage_count = 0;
      used_by = none;
      lifecycle_events = [];
    }
