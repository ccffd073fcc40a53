-- ===== src/Payment/Validity/Operations.antt =====
-- Each operation of `PaymentService` as a transformer of the stored payments.
use policy_pilot.Prelude.{Bool-cases, inl, inr, String, Bool, true, false, Option, none, some}
use policy_pilot.Prelude.Text.{Text}
use policy_pilot.Prelude.Exec.{Result, ok, err}
use policy_pilot.Mongo.{IsLawful}
use policy_pilot.Payment.Model.{PaymentAction, Amount, Subject, Details, Payment}
use policy_pilot.Payment.Errors.{Error}
use policy_pilot.Payment.Instruction.{InstructionJson}
use policy_pilot.Payment.Guards.Approval.{Invalid}
use policy_pilot.Payment.Events.{Reason}
use policy_pilot.Payment.Repository.Versions.{document_key}
use policy_pilot.Payment.Platform.{ledger, Credentials, Platform}
use policy_pilot.Payment.Client.{log_in_if, get_instruction, mark_used}
use policy_pilot.Payment.Service.{
  evaluate_policy, record_policy_denial, enforce, authorize, record_event, persist_authorized,
  persist_new_version, link, link_audit_execution, try_release_single_use_instruction,
}
use policy_pilot.Payment.Service.Create.{draft_payment, create_saved, create_op}
use policy_pilot.Payment.Service.Update.{get_backing, update_body, update_op}
use policy_pilot.Payment.Service.Submit.{
  check_exclusivity, saga_failed, after_mark, mark_instruction_used, saga, submit_body, submit_op,
}
use policy_pilot.Payment.Service.Approve.{
  approve_valid, approve_or_cancel, approve_checked, approve_fetched, approve_body, approve_op,
  is_not_found,
}
use policy_pilot.Payment.Service.Reject.{reject_body, reject_op}
use policy_pilot.Payment.Service.Cancel.{cancel_body, cancel_op, cancel_invalid}
use policy_pilot.Payment.Service.Steps.{Keeps-get_instruction, Keeps-mark_used, try_release_keeps}
use policy_pilot.Ledger.Validity
use policy_pilot.Payment.Validity.{
  Preserves, Preserves-ask, Preserves-call_out, Preserves-check, Preserves-pure, Preserves-raise,
  Preserves-raise_if, Preserves-or_raise, Preserves-when, Preserves-attempt, Preserves-bind,
  Preserves-then, Preserves-allocate_event_id, Preserves-insert_document, Preserves-list_current,
  Preserves-get_current_or_404, Preserves-save,
}

module _ (P : Platform) where
  ruleset basic = (
    Preserves-ask, Preserves-call_out, Preserves-check, Preserves-pure, Preserves-raise,
    Preserves-raise_if, Preserves-or_raise, Preserves-when, Preserves-attempt, Preserves-bind,
    Preserves-then, Preserves-allocate_event_id, Preserves-insert_document, Preserves-list_current,
    Preserves-get_current_or_404,
  )

  Preserves-get_instruction :
      (id : Text) (creds : Credentials) → Preserves P (get_instruction P id creds)
  Preserves-get_instruction id creds =
      Validity.Preserves-Keeps (ledger P) _ (Keeps-get_instruction P id creds)

  Preserves-mark_used :
      (id pid : Text) (creds : Credentials) → Preserves P (mark_used P id pid creds)
  Preserves-mark_used id pid creds =
      Validity.Preserves-Keeps (ledger P) _ (Keeps-mark_used P id pid creds)

  Preserves-get_backing : (id : Text) (creds : Credentials) → Preserves P (get_backing P id creds)
  unfolding get_backing
  Preserves-get_backing id creds = record {
    at = λ s v. (Preserves-get_instruction id creds).at s v;
  }

  Preserves-try_release :
      (p : Payment) (creds : Credentials)
      → Preserves P (try_release_single_use_instruction P p creds)
  Preserves-try_release p creds = record {
    at = λ s v. let (_, kept) = try_release_keeps P p creds s in rw kept.0 v;
  }

  Preserves-log_in_if : (b : Bool) → Preserves P (log_in_if P b)
  unfolding log_in_if
  Preserves-log_in_if true = record { at = λ s v. v }
  Preserves-log_in_if false = record { at = λ s v. v }

  Preserves-denial :
      (action : PaymentAction) (subject : Subject) (p : Payment) (reason : Reason)
      (details : Option Details)
      → Preserves P (record_policy_denial P action subject p reason details)
  unfolding record_policy_denial
  Preserves-denial action subject p reason details = search basic depth 12

  ruleset policy_rules = (basic, Preserves-log_in_if, Preserves-denial)

  Preserves-authorize :
      (action : PaymentAction) (subject : Subject) (p : Payment) (end_date status : String)
      (creds : Credentials)
      → Preserves P (authorize P action subject p end_date status creds)
  unfolding authorize evaluate_policy enforce
  Preserves-authorize action subject p end_date status creds = search policy_rules depth 14

  Preserves-link :
      (audit : Option String) (event : Option Text) (id : Text) (subject : Subject)
      → Preserves P (link P audit event id subject)
  Preserves-link (some a) (some e) id subject = record { at = λ s v. v }
  Preserves-link (some a) none id subject = record { at = λ s v. v }
  Preserves-link none event id subject = record { at = λ s v. v }

  Preserves-link_audit_execution :
      (audit : Option String) (event : Option Text) (id : Text) (subject : Subject)
      → Preserves P (link_audit_execution P audit event id subject)
  unfolding link_audit_execution
  Preserves-link_audit_execution audit event id subject = Preserves-link _ _ id subject

  module _ (L : IsLawful document_key P.Payments) where
    Preserves-persist_authorized :
        (p : Payment) (action : PaymentAction) (subject : Subject) (details : Details)
        → Preserves P (persist_authorized P p action subject details)
    unfolding persist_authorized record_event
    Preserves-persist_authorized p action subject details =
        search (basic, Preserves-save P L) depth 12

    Preserves-persist_new_version :
        (p : Payment) (action : PaymentAction) (subject : Subject) (details : Option Details)
        (end_date status : String) (creds : Credentials)
        → Preserves P (persist_new_version P p action subject details end_date status creds)
    unfolding persist_new_version
    Preserves-persist_new_version p action subject details end_date status creds =
        search (basic, Preserves-authorize, Preserves-persist_authorized) depth 12

    ruleset steps = (
      basic, Preserves-get_instruction, Preserves-get_backing, Preserves-authorize,
      Preserves-persist_authorized, Preserves-persist_new_version, Preserves-link_audit_execution,
      Preserves-try_release,
    )

    pub Preserves-create_op :
        (instruction_id : Text) (value_date : String) (amount : Amount) (subject : Subject)
        (creds : Credentials) (audit : Option String)
        → Preserves P (create_op P instruction_id value_date amount subject creds audit)
    unfolding create_op draft_payment create_saved record_event
    Preserves-create_op instruction_id value_date amount subject creds audit =
        search (steps, Preserves-save P L) depth 30

    pub Preserves-update_op :
        (id instruction_id : Text) (value_date : String) (amount : Amount) (subject : Subject)
        (creds : Credentials)
        → Preserves P (update_op P id instruction_id value_date amount subject creds)
    unfolding update_op update_body
    Preserves-update_op id instruction_id value_date amount subject creds = search steps depth 20

    Preserves-after_mark :
        (p : Payment) (subject : Subject) (r : Result Error InstructionJson)
        → Preserves P (after_mark P p subject r)
    unfolding saga_failed
    Preserves-after_mark p subject (ok i) = Validity.Preserves-pure (ledger P) tt
    Preserves-after_mark p subject (err e) = search (basic, Preserves-denial) depth 12

    Preserves-saga :
        (b : Bool) (p : Payment) (subject : Subject) (creds : Credentials)
        → Preserves P (saga P b p subject creds)
    unfolding mark_instruction_used
    Preserves-saga true p subject creds =
        search (basic, Preserves-mark_used, Preserves-get_instruction, Preserves-after_mark) depth
          12
    Preserves-saga false p subject creds = Validity.Preserves-pure (ledger P) p

    pub Preserves-submit_op :
        (id : Text) (subject : Subject) (creds : Credentials) (audit : Option String)
        → Preserves P (submit_op P id subject creds audit)
    unfolding submit_op submit_body check_exclusivity
    Preserves-submit_op id subject creds audit = search (steps, Preserves-saga) depth 30

    pub Preserves-reject_op :
        (id : Text) (subject : Subject) (reason : String) (creds : Credentials)
        (audit : Option String)
        → Preserves P (reject_op P id subject reason creds audit)
    unfolding reject_op reject_body
    Preserves-reject_op id subject reason creds audit = search steps depth 20

    pub Preserves-cancel_op :
        (id : Text) (subject : Subject) (reason : Option String) (creds : Credentials)
        (audit : Option String)
        → Preserves P (cancel_op P id subject reason creds audit)
    unfolding cancel_op cancel_body
    Preserves-cancel_op id subject reason creds audit = search steps depth 20

    Preserves-cancel_invalid :
        (p : Payment) (subject : Subject) (reason : String) (audit : Option String)
        → Preserves P (cancel_invalid P p subject reason audit)
    unfolding cancel_invalid
    Preserves-cancel_invalid p subject reason audit = search steps depth 20

    Preserves-approve_or_cancel :
        (o : Option Invalid) (p : Payment) (instruction : InstructionJson) (subject : Subject)
        (creds : Credentials) (audit : Option String)
        → Preserves P (approve_or_cancel P o p instruction subject creds audit)
    unfolding approve_valid
    Preserves-approve_or_cancel none p instruction subject creds audit = search steps depth 20
    Preserves-approve_or_cancel (some reason) p instruction subject creds audit =
        Preserves-cancel_invalid p subject _ audit

    Preserves-approve_fetched :
        (p : Payment) (r : Result Error InstructionJson) (subject : Subject) (creds : Credentials)
        (audit : Option String)
        → Preserves P (approve_fetched P p r subject creds audit)
    unfolding approve_fetched approve_checked
    Preserves-approve_fetched p (ok instruction) subject creds audit =
        search (basic, Preserves-approve_or_cancel) depth 12
    Preserves-approve_fetched p (err e) subject creds audit = elim (Bool-cases (is_not_found P e)) [
      | inl missing ↦ rw missing (Preserves-cancel_invalid p subject _ audit)
      | inr other ↦ rw other (Validity.Preserves-raise (ledger P) e)
    ]

    pub Preserves-approve_op :
        (id : Text) (subject : Subject) (creds : Credentials) (audit : Option String)
        → Preserves P (approve_op P id subject creds audit)
    unfolding approve_op approve_body
    Preserves-approve_op id subject creds audit = search (steps, Preserves-approve_fetched) depth 20
