-- ===== src/Instruction/Service.antt =====
-- inst/service.py, the helpers of `InstructionService`: evaluating a policy, recording evidence, and
-- writing a version together with its security event. The operations are in the modules below. A
-- response only formats the version that an operation returns.
pub mod Drafting
pub mod Review
pub mod Suspension
pub mod Use
pub mod Read
use policy_pilot.Prelude.{
  ℕ, String, Bool, true, false, not, Option, none, some, List, [], ◌∷◌, ◌++◌, ◌&&◌, if◌then◌else◌,
}
use policy_pilot.Prelude.Text.{Text}
use policy_pilot.Prelude.Exec.{Result, ok, err, pure, raise_if, or_raise, ◌>>=◌, ◌>>◌}
use policy_pilot.Ledger
use policy_pilot.Payment.Model.{Subject, PolicyDecision}
use policy_pilot.Instruction.Model.{
  LifecycleAction, AuthorizationBlock, Details, CashSettlementInstruction, to_opa_instruction,
  to_opa_account, Summary,
}
use policy_pilot.Instruction.Evidence.{
  SecurityEventDocument, authorized_action, policy_denial, build_authorization_block,
  instruction_resource_context, details_with_authorization, details_or_empty,
}
use policy_pilot.Instruction.Storage.{VersionedInstruction}
use policy_pilot.Instruction.Repository.{Error, policy_denied, permission_error, get_current}
use policy_pilot.Instruction.Platform.{
  Caller, context_of, or_else, has_text, EvaluateRequest, Platform, ledger, Store, Svc, raising,
  ask, call_out, on_instructions,
}

-- What `_evaluate_policy` sends, with the service's own token and session.
unfoldable pub evaluate_request :
    LifecycleAction
    → Subject
    → CashSettlementInstruction
    → Caller
    → Option String
    → Option String
    → EvaluateRequest
evaluate_request action subject i caller token session_id =
    let context = context_of caller in
    record {
      action = action;
      instruction = to_opa_instruction i;
      account = to_opa_account i;
      service_token = or_else context.authz_service_token token;
      service_session_id =
          if has_text context.authz_service_token
          then context.authz_service_session_id
          else session_id;
      user_token = or_else caller.bearer_token context.user_token;
      user_session_id = or_else caller.session_id context.user_session_id;
      subject = subject;
    }

module _ (P : Platform) where
  abbrev pub should_record_security_event : Subject → Bool
  should_record_security_event subject = not (P.is_excluded subject.user_id)

  abbrev pub should_record_view_security_event : Subject → Bool
  should_record_view_security_event subject =
      if P.is_view_excluded subject.user_id then false else should_record_security_event subject

  -- `service_identity.ensure_logged_in()`
  unfoldable pub ensure_logged_in : Svc P (Unit {0})
  ensure_logged_in = call_out P (λ w. let (e, w') = P.ensure_logged_in w in (raising e, w'))

  -- `_evaluate_policy`
  unfoldable pub evaluate_policy :
      LifecycleAction → Subject → CashSettlementInstruction → Caller → Svc P PolicyDecision
  evaluate_policy action subject i caller = do
    raise_if (not (has_text (or_else caller.bearer_token (context_of caller).user_token)))
        (permission_error "user token required for policy evaluation")
    ensure_logged_in
    token ← ask P (λ w. (P.token w, w))
    session_id ← ask P (λ w. (P.session_id w, w))
    let request = evaluate_request action subject i caller token session_id
    raise_if (not (has_text request.service_token))
        (permission_error "service identity token required for policy evaluation")
    call_out P (P.evaluate request)

  -- The version that a denial names: the open one, if it can be read.
  unfoldable pub denial_version : Text → Svc P (Option ℕ)
  denial_version [] = pure none
  denial_version (c ∷ cs) = do
    current ← Ledger.attempt (ledger P) (on_instructions P (get_current P.Instructions (c ∷ cs)))
    pure (elim current [ ok record_ ↦ some record_.version_number | err e ↦ none ])

  -- `record_policy_denial`
  unfoldable pub record_policy_denial :
      LifecycleAction
      → Subject
      → CashSettlementInstruction
      → Summary
      → Details
      → Option ℕ
      → Svc P (Unit {0})
  record_policy_denial action subject i reason details version_number = do
    document_id ← Ledger.allocate_event_id (ledger P) i.instruction_id
    now ← ask P P.now
    Ledger.insert_document (ledger P) (record {
      document_id = document_id;
      event = policy_denial action subject i reason details version_number now;
    })

  -- The denial of `_authorize`; no caller passes it a version number.
  unfoldable pub record_denial :
      LifecycleAction
      → Subject
      → CashSettlementInstruction
      → Option Details
      → AuthorizationBlock
      → Svc P (Unit {0})
  record_denial action subject i details block = do
    version_number ← denial_version i.instruction_id
    record_policy_denial action subject i block.summary (details_with_authorization details block)
        version_number

  -- `_authorize` from the decision on.
  unfoldable pub enforce :
      LifecycleAction
      → Subject
      → CashSettlementInstruction
      → Bool
      → Option Details
      → PolicyDecision
      → AuthorizationBlock
      → Svc P AuthorizationBlock
  enforce action subject i record_security_event details decision block = do
    Ledger.when (ledger P)
        (not decision.allowed && (record_security_event && should_record_security_event subject))
        (record_denial action subject i details block)
    raise_if (not decision.allowed) (policy_denied block.summary)
    pure block

  -- `_authorize`
  unfoldable pub authorize :
      LifecycleAction
      → Subject
      → CashSettlementInstruction
      → Caller
      → Bool
      → Option Details
      → Svc P AuthorizationBlock
  authorize action subject i caller record_security_event details = do
    decision ← evaluate_policy action subject i caller
    enforce action subject i record_security_event details decision
        (build_authorization_block decision subject action (instruction_resource_context i))

  -- `_record_event`
  unfoldable pub record_event :
      CashSettlementInstruction
      → LifecycleAction
      → Subject
      → Details
      → Svc P CashSettlementInstruction
  record_event i action subject details = do
    event_id ← ask P P.uuid4
    now ← ask P P.now
    pure (record i {
      lifecycle_events =
          i.lifecycle_events
          ++ record {
            event_id = event_id;
            action = action;
            actor_user_id = subject.user_id;
            timestamp = now;
            details = details;
          }
            ∷ [];
    })

  -- `_save_instruction_with_security_event`
  unfoldable pub save_instruction_with_security_event :
      Bool
      → CashSettlementInstruction
      → LifecycleAction
      → Subject
      → Details
      → Svc P VersionedInstruction
  save_instruction_with_security_event initial i action subject details = do
    saved ← Ledger.save_with_security_event (ledger P) initial i action subject details
    pure saved.0

  -- `_persist_new_version` with `skip_authorize`; `initial` is for the first version, which `create`
  -- records and saves in the same way.
  unfoldable pub persist :
      Bool
      → CashSettlementInstruction
      → LifecycleAction
      → Subject
      → Details
      → Svc P VersionedInstruction
  persist initial i action subject details = do
    recorded ← record_event i action subject details
    save_instruction_with_security_event initial recorded action subject details
