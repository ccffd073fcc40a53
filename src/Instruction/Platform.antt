-- ===== src/Instruction/Platform.antt =====
-- What instruction-service calls and does not implement here, as an interface over an unknown world,
-- and its ledger.
use policy_pilot.Prelude.{String, Option, none, some, is_blank, Bool, true, false, if◌then◌else◌}
use policy_pilot.Prelude.Text.{Text}
use policy_pilot.Prelude.Exec.{Result, ok, err, Exec}
use policy_pilot.Mongo.{MongoError, Collection}
use policy_pilot.Payment.Moment.{Moment}
use policy_pilot.Payment.Model.{Time, Subject, PolicyDecision}
use policy_pilot.Ledger
use policy_pilot.Instruction.Model.{LifecycleAction, Details, OpaInstruction}
use policy_pilot.Instruction.Evidence.{SecurityEventDocument, authorized_action}
use policy_pilot.Instruction.Storage.{InstructionDocument}
use policy_pilot.Instruction.Repository.{Error, runtime_error, instruction_rows}

-- inst/evaluate_tokens.py: the tokens of a nested call, bound by the routes.
pub record EvaluateTokenContext : Type 0 where
  pub user_token : Option String
  pub user_session_id : Option String
  pub authz_service_token : Option String
  pub authz_service_session_id : Option String

-- The tokens of a call: those that are passed as arguments, and those that the routes have bound.
pub record Caller : Type 0 where
  pub bearer_token : Option String
  pub session_id : Option String
  pub context : Option EvaluateTokenContext

abbrev pub no_context : EvaluateTokenContext
no_context = record {
  user_token = none;
  user_session_id = none;
  authz_service_token = none;
  authz_service_session_id = none;
}

abbrev pub context_of : Caller → EvaluateTokenContext
context_of caller = elim caller.context [ none ↦ no_context | some context ↦ context ]

-- The `or` of Python on texts
abbrev pub or_else : Option String → Option String → Option String
or_else none other = other
or_else (some s) other = if is_blank s then other else some s

abbrev pub has_text : Option String → Bool
has_text none = false
has_text (some s) = if is_blank s then false else true

-- What is sent to the authorization-service.
pub record EvaluateRequest : Type 0 where
  pub action : LifecycleAction
  pub instruction : OpaInstruction
  pub account : Text
  pub service_token : Option String
  pub service_session_id : Option String
  pub user_token : Option String
  pub user_session_id : Option String
  pub subject : Subject

pub record Platform : Type 1 where
  pub Instructions : Collection InstructionDocument
  pub Events : Collection SecurityEventDocument
  pub World : Type 0
  -- the clock, and `str(uuid4())`
  pub now : World → Time × World
  pub uuid4 : World → String × World
  pub commit : World → Option MongoError × World
  -- `service_identity`: its log in, its token and its session
  pub ensure_logged_in : World → Option Error × World
  pub token : World → Option String
  pub session_id : World → Option String
  -- the authorization-service, through `AuthzClient`
  pub evaluate : EvaluateRequest → World → Result Error PolicyDecision × World
  -- the sequence-service, through `SequenceClient`; none is a `SequenceClientError`
  pub next_instruction_id : Time → Text → World → Option Text × World
  pub next_security_event_id : Text → World → Option Text × World
  -- `datetime.fromisoformat(value.replace("Z", "+00:00"))`; none is a `ValueError`
  pub fromisoformat : String → Option Moment
  -- membership in `settings.security_event_excluded_user_id_set`, and in the set for views
  pub is_excluded : String → Bool
  pub is_view_excluded : String → Bool

abbrev pub ledger : Platform → Ledger.Ledger
ledger P = record {
  R = instruction_rows;
  Event = SecurityEventDocument;
  Items = P.Instructions;
  Events = P.Events;
  World = P.World;
  now = P.now;
  commit = P.commit;
  Action = LifecycleAction;
  Subject = Subject;
  Details = Details;
  is_excluded = λ subject. P.is_excluded subject.user_id;
  id_of = λ saved. saved.instruction.instruction_id;
  event = λ event_id action subject saved details now. record {
    document_id = event_id;
    event = authorized_action action subject saved.instruction saved.version_number details now;
  };
  next_security_event_id = P.next_security_event_id;
  allocation_failed = runtime_error "security event sequence allocation failed";
}

abbrev pub Store : Platform → Type 0
Store P = Ledger.Store (ledger P)

abbrev pub Svc : Platform → Type 0 → Type 0
Svc P A = Exec Error (Store P) A

abbrev pub raising : Option Error → Result Error (Unit {0})
raising none = ok tt
raising (some e) = err e

module _ (P : Platform) where
  abbrev pub ask : {A : Type 0} → (P.World → A × P.World) → Svc P A
  ask = Ledger.ask (ledger P)

  abbrev pub call_out : {A : Type 0} → (P.World → Result Error A × P.World) → Svc P A
  call_out = Ledger.call_out (ledger P)

  abbrev pub on_instructions : {A : Type 0} → Exec Error P.Instructions.Data A → Svc P A
  on_instructions = Ledger.on_items (ledger P)
