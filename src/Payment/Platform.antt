-- ===== src/Payment/Platform.antt =====
-- What payment-service calls and does not implement here, as an interface over an unknown world,
-- and the coroutines over it.
use policy_pilot.Prelude.{ℕ, String, Bool, true, false, Option, none, some, if◌then◌else◌, is_blank}
use policy_pilot.Prelude.Text.{Text}
use policy_pilot.Prelude.Exec.{Result, ok, err, Exec}
use policy_pilot.Mongo.{MongoError, Collection}
use policy_pilot.Ledger
use policy_pilot.Payment.Model.{Details, Time, PaymentAction, Subject, PolicyDecision, OpaPayment}
use policy_pilot.Payment.Errors.{Error, mongo_error, runtime_error}
use policy_pilot.Payment.Storage.{PaymentDocument}
use policy_pilot.Payment.Repository.{payment_rows}
use policy_pilot.Payment.Instruction.{InstructionJson}
use policy_pilot.Payment.Events.{SecurityEventDocument, authorized_action}
use policy_pilot.Payment.Moment.{Moment}

-- The caller's token and session.
pub record Credentials : Type 0 where
  pub bearer_token : Option String
  pub session_id : Option String

abbrev pub has_token : Option String → Bool
has_token none = false
has_token (some t) = if is_blank t then false else true

-- A request to the instruction-service: the path, and the body of a POST.
pub data Request : Type 0 where
  get_instruction_request : Text → Request
  use_request : Text → Text → Request
  release_use_request : Text → Text → Request

-- A response; the body is missing if it is not JSON.
pub record Response : Type 0 where
  pub status_code : ℕ
  pub body : Option InstructionJson

pub record EvaluateRequest : Type 0 where
  pub action : PaymentAction
  pub payment : OpaPayment
  pub instruction_end_date : String
  pub instruction_status : String
  pub credentials : Credentials
  pub subject : Subject

pub record Link : Type 0 where
  pub audit_execution_id : String
  pub security_event_id : Text
  pub payment_id : Text
  pub actor_user_id : String

pub record Platform : Type 1 where
  pub Payments : Collection PaymentDocument
  pub Events : Collection SecurityEventDocument
  -- everything else: the other services and the clock
  pub World : Type 0
  -- `datetime.now(timezone.utc)`, and `str(uuid4())`
  pub now : World → Time × World
  pub uuid4 : World → String × World
  -- the commit at the end of a Mongo transaction
  pub commit : World → Option MongoError × World
  -- an HTTP exchange with the instruction-service, or no answer
  pub send : Request → Credentials → World → Option Response × World
  -- `service_identity`: its log in, and whether it holds a token
  pub ensure_logged_in : World → Option Error × World
  pub logged_in : World → Bool
  -- the authorization-service, through `AuthzClient`
  pub evaluate : EvaluateRequest → World → Result Error PolicyDecision × World
  -- the sequence-service, through `SequenceClient`; none is a `SequenceClientError`
  pub next_payment_id : Time → String → World → Option Text × World
  pub next_security_event_id : Text → World → Option Text × World
  -- the audit collection's `link_security_event`
  pub link_security_event : Link → World → Option MongoError × World
  -- `datetime.fromisoformat(value.replace("Z", "+00:00"))`; none is a `ValueError`
  pub fromisoformat : String → Option Moment
  -- membership in `settings.security_event_excluded_user_id_set`
  pub is_excluded : String → Bool

-- What the ledger of payment-service consists of.
abbrev pub ledger : Platform → Ledger.Ledger
ledger P = record {
  R = payment_rows;
  Event = SecurityEventDocument;
  Items = P.Payments;
  Events = P.Events;
  World = P.World;
  now = P.now;
  commit = P.commit;
  Action = PaymentAction;
  Subject = Subject;
  Details = Details;
  is_excluded = λ subject. P.is_excluded subject.user_id;
  id_of = λ saved. saved.payment.payment_id;
  event = λ event_id action subject saved details now. record {
    document_id = event_id;
    event = authorized_action action subject saved.payment saved.version_number (some details) now;
  };
  next_security_event_id = P.next_security_event_id;
  allocation_failed = runtime_error "security event sequence allocation failed";
}

abbrev pub Store : Platform → Type 0
Store P = Ledger.Store (ledger P)

abbrev pub Svc : Platform → Type 0 → Type 0
Svc P A = Exec Error (Store P) A

abbrev pub raising : Option Error → Result Error (Unit {0})
raising none = ok tt
raising (some e) = err e

abbrev pub raising_mongo : Option MongoError → Result Error (Unit {0})
raising_mongo none = ok tt
raising_mongo (some e) = err (mongo_error e)

module _ (P : Platform) where
  abbrev pub ask : {A : Type 0} → (P.World → A × P.World) → Svc P A
  ask = Ledger.ask (ledger P)

  abbrev pub call_out : {A : Type 0} → (P.World → Result Error A × P.World) → Svc P A
  call_out = Ledger.call_out (ledger P)

  abbrev pub check : {A : Type 0} → Result Error A → Svc P A
  check = Ledger.check (ledger P)

  abbrev pub on_payments : {A : Type 0} → Exec Error P.Payments.Data A → Svc P A
  on_payments = Ledger.on_items (ledger P)

  -- `try`: the error comes back as a value.
  abbrev pub attempt : {A : Type 0} → Svc P A → Svc P (Result Error A)
  attempt = Ledger.attempt (ledger P)
