-- ===== src/Payment/Service.antt =====
-- ps/service.py, the helpers of `PaymentService`: evaluating a policy, recording evidence, and
-- writing a version together with its security event. The operations are in the modules below.
pub mod Create
pub mod Update
pub mod Submit
pub mod Approve
pub mod Reject
pub mod Cancel
pub mod Read
pub mod Saving
pub mod Authorizing
pub mod Steps
pub mod Exclusivity
pub mod Releasing
use policy_pilot.Prelude.{
  ℕ, String, ◌≡◌, Bool, true, false, not, Option, none, some, List, [], ◌∷◌, ◌++◌, ◌&&◌, ◌||◌,
  if◌then◌else◌, str_eq, is_blank,
}
use policy_pilot.Prelude.Text.{Text}
use policy_pilot.Prelude.Exec.{Result, ok, err, Exec, pure, raise, raise_if, or_raise, ◌>>=◌, ◌>>◌}
use policy_pilot.Payment.Model.{
  Time, PaymentAction, create, update, submit, approve, reject, cancel, cancelled, rejected,
  status_eq, Subject, PolicyDecision, AuthorizationBlock, Details, no_details, LifecycleEvent,
  Payment, user_ref, to_opa_payment,
}
use policy_pilot.Payment.Errors.{
  Error, policy_denied, permission_error, runtime_error, lookup_error, payment_not_found,
  mongo_error,
}
use policy_pilot.Payment.Authorization.{
  payment_resource_context, build_authorization_block, details_with_authorization,
}
use policy_pilot.Payment.Storage.{VersionedPayment}
use policy_pilot.Versioned.{inserting}
use policy_pilot.Payment.Repository.{insert_initial, append_version, get_current}
use policy_pilot.Payment.Events.{
  Reason, summary, SecurityEvent, SecurityEventDocument, authorized_action, policy_denial,
}
use policy_pilot.Ledger
use policy_pilot.Payment.Platform.{
  ledger, attempt, Credentials, has_token, EvaluateRequest, Link, Platform, Store, Svc, ask,
  call_out, raising, raising_mongo, on_payments,
}
use policy_pilot.Payment.Client.{log_in_if, release_use}

-- The exceptions of `get_current` that `_get_current_or_404` translates.
abbrev pub lookup_failure : Error → Error
lookup_failure (payment_not_found id) = lookup_error "payment not found"
lookup_failure e = e

abbrev pub is_single_use : Payment → Bool
is_single_use p = str_eq p.instruction_type "SINGLE_USE"

abbrev pub is_set : {A : Type 0} → Option A → Bool
is_set none = false
is_set (some a) = true

-- the strings that are true
abbrev pub non_blank : Option String → Option String
non_blank none = none
non_blank (some s) = if is_blank s then none else some s

abbrev pub non_empty : Option Text → Option Text
non_empty none = none
non_empty (some []) = none
non_empty (some (c ∷ cs)) = some (c ∷ cs)

-- Whether `_try_release_single_use_instruction` calls the instruction-service.
abbrev pub must_release : Payment → Bool
must_release p =
    is_single_use p
    && (is_set p.submitted_at && (status_eq p.status rejected || status_eq p.status cancelled))

module _ (P : Platform) where
  abbrev pub should_record_security_event : Subject → Bool
  should_record_security_event subject = not (P.is_excluded subject.user_id)

  -- `_evaluate_policy`
  unfoldable pub evaluate_policy :
      PaymentAction → Subject → Payment → String → String → Credentials → Svc P PolicyDecision
  evaluate_policy action subject p end_date status creds = do
    raise_if (not (has_token creds.bearer_token))
        (permission_error "user token required for policy evaluation")
    log_in_if P true
    logged_in ← ask P (λ w. (P.logged_in w, w))
    raise_if (not logged_in)
        (permission_error "service identity token required for policy evaluation")
    call_out P (
        P.evaluate (record {
          action = action;
          payment = to_opa_payment p end_date status;
          instruction_end_date = end_date;
          instruction_status = status;
          credentials = creds;
          subject = subject;
        }))

  -- `allocate_event_id`
  abbrev pub allocate_event_id : Text → Svc P Text
  allocate_event_id = Ledger.allocate_event_id (ledger P)

  -- `insert_document`
  abbrev pub insert_document : SecurityEventDocument → Svc P (Unit {0})
  insert_document = Ledger.insert_document (ledger P)

  -- `record_policy_denial`
  unfoldable pub record_policy_denial :
      PaymentAction → Subject → Payment → Reason → Option Details → Svc P (Unit {0})
  record_policy_denial action subject p reason details = do
    document_id ← allocate_event_id p.payment_id
    now ← ask P P.now
    insert_document (record {
      document_id = document_id;
      event = policy_denial action subject p reason details now;
    })

  abbrev pub when : Bool → Svc P (Unit {0}) → Svc P (Unit {0})
  when = Ledger.when (ledger P)

  -- `_authorize` from the decision on: a denial is recorded and raised.
  unfoldable pub enforce :
      PaymentAction
      → Subject
      → Payment
      → PolicyDecision
      → AuthorizationBlock
      → Svc P AuthorizationBlock
  enforce action subject p decision block = do
    when (not decision.allowed && should_record_security_event subject) (
        record_policy_denial action subject p (summary block.summary)
          (some (details_with_authorization none block)))
    raise_if (not decision.allowed) (policy_denied block.summary)
    pure block

  unfoldable pub authorize :
      PaymentAction → Subject → Payment → String → String → Credentials → Svc P AuthorizationBlock
  authorize action subject p end_date status creds = do
    decision ← evaluate_policy action subject p end_date status creds
    enforce action subject p decision (
        build_authorization_block decision subject action
          (payment_resource_context p status end_date))

  -- `_record_event`
  unfoldable pub record_event : Payment → PaymentAction → Subject → Details → Svc P Payment
  record_event p action subject details = do
    event_id ← ask P P.uuid4
    now ← ask P P.now
    pure (record p {
      lifecycle_events =
          p.lifecycle_events
          ++ record {
            event_id = event_id;
            action = action;
            actor_user_id = subject.user_id;
            timestamp = now;
            details = details;
          }
            ∷ [];
    })

  -- `_save_payment_with_security_event`
  abbrev pub save_payment_with_security_event :
      Bool → Payment → PaymentAction → Subject → Details → Svc P (VersionedPayment × Option Text)
  save_payment_with_security_event = Ledger.save_with_security_event (ledger P)

  -- `_persist_new_version` with `skip_authorize`
  unfoldable pub persist_authorized :
      Payment → PaymentAction → Subject → Details → Svc P (VersionedPayment × Option Text)
  persist_authorized p action subject details = do
    recorded ← record_event p action subject details
    save_payment_with_security_event false recorded action subject details

  -- `_persist_new_version` without it
  unfoldable pub persist_new_version :
      Payment
      → PaymentAction
      → Subject
      → Option Details
      → String
      → String
      → Credentials
      → Svc P (VersionedPayment × Option Text)
  persist_new_version p action subject details end_date status creds = do
    block ← authorize action subject p end_date status creds
    persist_authorized p action subject (details_with_authorization details block)

  abbrev pub link : Option String → Option Text → Text → Subject → Svc P (Unit {0})
  link (some audit_execution_id) (some event_id) payment_id subject = call_out P (λ w.
      let (failed, w') =
        P.link_security_event
          (record {
            audit_execution_id = audit_execution_id;
            security_event_id = event_id;
            payment_id = payment_id;
            actor_user_id = subject.user_id;
          })
          w in
      (raising_mongo failed, w'))
  link (some audit_execution_id) none payment_id subject = pure tt
  link none event_id payment_id subject = pure tt

  -- `_link_audit_execution`
  unfoldable pub link_audit_execution :
      Option String → Option Text → Text → Subject → Svc P (Unit {0})
  link_audit_execution audit_execution_id event_id payment_id subject =
      link (non_blank audit_execution_id) (non_empty event_id) payment_id subject

  -- `_try_release_single_use_instruction`: a failure is logged and dropped.
  unfoldable pub try_release_single_use_instruction : Payment → Credentials → Svc P (Unit {0})
  try_release_single_use_instruction p creds =
      when (must_release p)
        do attempt P (release_use P p.instruction_id p.payment_id creds); pure tt

  -- `_get_current_or_404`
  unfoldable pub get_current_or_404 : Text → Svc P VersionedPayment
  get_current_or_404 payment_id = on_payments P λ c.
      let (r, c') = get_current P.Payments payment_id c in
      (elim r [ ok current ↦ ok current | err e ↦ err (lookup_failure e) ], c')
