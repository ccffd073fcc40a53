-- ===== src/Payment/Tests/Runs.antt =====
-- Runs of the operations on the small platform: each of them returns.
use policy_pilot.Ledger.{
  transaction, attempt, allocate_event_id, insert_document, record_saved, save_version, save_body,
  save_with_security_event,
}
use policy_pilot.Mongo.Memory.{descending, ascending}
use policy_pilot.Payment.Access.{
  is_platform_admin, is_middle_office, covers_payment_lob, is_compliance, can_view_payment,
}
use policy_pilot.Payment.Authorization.{
  display_name, payment_resource_context, primary_violation, build_authorization_block,
  details_with_authorization,
}
use policy_pilot.Payment.Client.{
  raise_for_instruction_status, raise_for_use_status, log_in_if, auth_headers, exchange,
  get_instruction, mark_used, release_use,
}
use policy_pilot.Payment.Events.{authorized_action, policy_denial}
use policy_pilot.Payment.Guards.{
  validate_single_use_submit_exclusivity, validate_instruction_not_expired,
  validate_instruction_for_draft_payment, validate_instruction_approved_for_submit,
}
use policy_pilot.Payment.Guards.Approval.{check_instruction_validity_for_approval}
use policy_pilot.Payment.Model.{user_ref, subject_at_decision, create_payment, to_opa_payment}
use policy_pilot.Payment.Repository.{list_current}
use policy_pilot.Payment.Service.{
  evaluate_policy, record_policy_denial, enforce, authorize, record_event, persist_authorized,
  persist_new_version, link_audit_execution, try_release_single_use_instruction, get_current_or_404,
}
use policy_pilot.Payment.Service.Approve.{
  approve_valid, approve_checked, approve_fetched, approve_body, approve_op,
}
use policy_pilot.Payment.Service.Cancel.{cancel_body, cancel_op, cancel_invalid}
use policy_pilot.Payment.Service.Create.{draft_payment, create_saved, create_op}
use policy_pilot.Payment.Service.Read.{tally, get_op, list_versions_op, list_op, summarize_scoped}
use policy_pilot.Payment.Service.Reject.{reject_body, reject_op}
use policy_pilot.Payment.Service.Submit.{
  check_exclusivity, saga_failed, mark_instruction_used, submit_body, submit_op,
}
use policy_pilot.Payment.Service.Update.{get_backing, update_body, update_op}
use policy_pilot.Payment.Storage.{
  payload_without_payment_id, versioned_payment_to_document, document_to_versioned_payment,
}
use policy_pilot.Payment.Storage.Keys.{
  payment_document_key, payment_id_from_document_key, payment_id_filter,
}
use policy_pilot.Payment.Validity.Calls.{serve, serve_all}
use policy_pilot.Prelude.Exec.{Result, ok, err, ◌>>=◌, ◌>>◌}
use policy_pilot.Prelude.Text.{same}
use policy_pilot.Prelude.Text.Decimal.{decimal}
use policy_pilot.Versioned.{
  conflict, convert, reading, writing, inserting, insert_initial, append_after, append_version,
  get_current, list_versions,
}
use policy_pilot.Prelude.{◌≡◌, refl, Bool, true, false, Option, none, some, [], ◌∷◌, find?, length}
use policy_pilot.Prelude.Text.{Text}
use policy_pilot.Mongo.Memory.{memory}
use policy_pilot.Payment.Errors.{Error}
use policy_pilot.Payment.Model.{Payment, cancel, AuthorizationBlock}
use policy_pilot.Payment.Storage.{VersionedPayment, PaymentDocument}
use policy_pilot.Payment.Repository.{payment_rows, is_current_of}
use policy_pilot.Payment.Repository.Versions.{document_key}
use policy_pilot.Payment.Service.Read.{inventory_query}
use policy_pilot.Payment.Lifecycle.{IsTerminal, approved_terminal}
use policy_pilot.Payment.Platform.{Store}
use policy_pilot.Payment.Service.Exclusivity.{on_instruction}
use policy_pilot.Payment.Tests.{
  payments_lawful, platform, allow, empty_store, ann, creds, amount, instruction_id, payment_id,
}

abbrev is_ok : {A B : Type 0} → Result Error A × B → Bool
is_ok (ok a, s) = true
is_ok (err e, s) = false

abbrev pub value : {A B : Type 0} → A → Result Error A × B → A
value default (ok a, s) = a
value default (err e, s) = default

returned :
    {A B : Type 0} (default : A) (p : Result Error A × B)
    → is_ok p ≡ true
    → p ≡ (ok (value default p), p.1)
returned default (ok a, s) h = refl
returned default (err e, s) h = cc

abbrev no_payment : Payment
no_payment = create_payment [] [] 1 amount "" "" "" "" ann "" 0

abbrev pub no_version : VersionedPayment
no_version = record { payment = no_payment; version_number = 0; valid_in = 0; valid_out = none }

abbrev pub no_saved : VersionedPayment × Option Text
no_saved = (no_version, none)

abbrev pub no_block : AuthorizationBlock
no_block = build_authorization_block allow ann cancel (payment_resource_context no_payment "" "")

abbrev pub draft_payment_1 : Payment
draft_payment_1 =
    create_payment payment_id instruction_id 3 amount "USD" "2029-12-01" "FICC" "SINGLE_USE" ann "e"
      0

abbrev pub drafted : Store platform
drafted = (create_op platform instruction_id "2029-12-01" amount ann creds none empty_store).1

abbrev pub updated : Store platform
updated = (update_op platform payment_id instruction_id "2029-12-02" amount ann creds drafted).1

abbrev pub in_review : Store platform
in_review = (submit_op platform payment_id ann creds none drafted).1

abbrev pub settled : Store platform
settled = (approve_op platform payment_id ann creds none in_review).1

abbrev pub refused : Store platform
refused = (reject_op platform payment_id ann "limit" creds none in_review).1

abbrev pub called_off : Store platform
called_off = (cancel_op platform payment_id ann (some "duplicate") creds none in_review).1

-- The version that the submission returned.
abbrev pub submitted_version : VersionedPayment
submitted_version = value no_version (submit_op platform payment_id ann creds none drafted)

abbrev row_or : PaymentDocument → Option PaymentDocument → PaymentDocument
row_or d none = d
row_or d (some e) = e

-- The open row after the approval.
abbrev pub settled_row : PaymentDocument
settled_row =
    row_or (versioned_payment_to_document no_payment 1 0)
      (find? (is_current_of payment_id) settled.items)

-- The open row of the draft.
abbrev pub drafted_row : PaymentDocument
drafted_row =
    row_or (versioned_payment_to_document no_payment 1 0)
      (find? (is_current_of draft_payment_1.payment_id) drafted.items)

pub drafted_found :
    find? (is_current_of draft_payment_1.payment_id) drafted.items ≡ some drafted_row
unfolding transaction attempt allocate_event_id insert_document record_saved save_version save_body
    save_with_security_event descending ascending is_platform_admin is_middle_office
    covers_payment_lob is_compliance can_view_payment display_name payment_resource_context
    primary_violation build_authorization_block details_with_authorization
    raise_for_instruction_status raise_for_use_status log_in_if auth_headers exchange
    get_instruction mark_used release_use authorized_action policy_denial
    validate_single_use_submit_exclusivity validate_instruction_not_expired
    validate_instruction_for_draft_payment validate_instruction_approved_for_submit
    check_instruction_validity_for_approval user_ref subject_at_decision create_payment
    to_opa_payment list_current evaluate_policy record_policy_denial enforce authorize record_event
    persist_authorized persist_new_version link_audit_execution try_release_single_use_instruction
    get_current_or_404 approve_valid approve_checked approve_fetched approve_body approve_op
    cancel_body cancel_op cancel_invalid draft_payment create_saved create_op tally get_op
    list_versions_op list_op summarize_scoped reject_body reject_op check_exclusivity saga_failed
    mark_instruction_used submit_body submit_op get_backing update_body update_op
    payload_without_payment_id versioned_payment_to_document document_to_versioned_payment
    payment_document_key payment_id_from_document_key payment_id_filter serve serve_all ◌>>=◌ ◌>>◌
    same decimal conflict convert reading writing inserting insert_initial append_after
    append_version get_current list_versions
drafted_found = refl

runs_return :
    (is_ok (create_op platform instruction_id "2029-12-01" amount ann creds none empty_store)
      ≡ true)
    × (is_ok (update_op platform payment_id instruction_id "2029-12-02" amount ann creds drafted)
        ≡ true)
    × (is_ok (submit_op platform payment_id ann creds none drafted) ≡ true)
    × (is_ok (approve_op platform payment_id ann creds none in_review) ≡ true)
    × (is_ok (reject_op platform payment_id ann "limit" creds none in_review) ≡ true)
    × (is_ok (cancel_op platform payment_id ann (some "duplicate") creds none in_review) ≡ true)
    × (is_ok (insert_initial payment_rows (memory document_key) draft_payment_1 200 []) ≡ true)
    × (is_ok (append_version payment_rows (memory document_key) draft_payment_1 200 drafted.items)
        ≡ true)
    × (is_ok (check_exclusivity platform draft_payment_1 drafted) ≡ true)
    × (is_ok (list_op platform ann (inventory_query none) drafted) ≡ true)
    × (is_ok (get_op platform payment_id ann drafted) ≡ true)
    × (is_ok (cancel_body platform submitted_version ann (some "late") creds none settled) ≡ true)
    × (is_ok (authorize platform cancel ann draft_payment_1 "" "APPROVED" creds drafted) ≡ true)
unfolding transaction attempt allocate_event_id insert_document record_saved save_version save_body
    save_with_security_event descending ascending is_platform_admin is_middle_office
    covers_payment_lob is_compliance can_view_payment display_name payment_resource_context
    primary_violation build_authorization_block details_with_authorization
    raise_for_instruction_status raise_for_use_status log_in_if auth_headers exchange
    get_instruction mark_used release_use authorized_action policy_denial
    validate_single_use_submit_exclusivity validate_instruction_not_expired
    validate_instruction_for_draft_payment validate_instruction_approved_for_submit
    check_instruction_validity_for_approval user_ref subject_at_decision create_payment
    to_opa_payment list_current evaluate_policy record_policy_denial enforce authorize record_event
    persist_authorized persist_new_version link_audit_execution try_release_single_use_instruction
    get_current_or_404 approve_valid approve_checked approve_fetched approve_body approve_op
    cancel_body cancel_op cancel_invalid draft_payment create_saved create_op tally get_op
    list_versions_op list_op summarize_scoped reject_body reject_op check_exclusivity saga_failed
    mark_instruction_used submit_body submit_op get_backing update_body update_op
    payload_without_payment_id versioned_payment_to_document document_to_versioned_payment
    payment_document_key payment_id_from_document_key payment_id_filter serve serve_all ◌>>=◌ ◌>>◌
    same decimal conflict convert reading writing inserting insert_initial append_after
    append_version get_current list_versions
runs_return = (refl, refl, refl, refl, refl, refl, refl, refl, refl, refl, refl, refl, refl)

pub settled_found : find? (is_current_of payment_id) settled.items ≡ some settled_row
unfolding transaction attempt allocate_event_id insert_document record_saved save_version save_body
    save_with_security_event descending ascending is_platform_admin is_middle_office
    covers_payment_lob is_compliance can_view_payment display_name payment_resource_context
    primary_violation build_authorization_block details_with_authorization
    raise_for_instruction_status raise_for_use_status log_in_if auth_headers exchange
    get_instruction mark_used release_use authorized_action policy_denial
    validate_single_use_submit_exclusivity validate_instruction_not_expired
    validate_instruction_for_draft_payment validate_instruction_approved_for_submit
    check_instruction_validity_for_approval user_ref subject_at_decision create_payment
    to_opa_payment list_current evaluate_policy record_policy_denial enforce authorize record_event
    persist_authorized persist_new_version link_audit_execution try_release_single_use_instruction
    get_current_or_404 approve_valid approve_checked approve_fetched approve_body approve_op
    cancel_body cancel_op cancel_invalid draft_payment create_saved create_op tally get_op
    list_versions_op list_op summarize_scoped reject_body reject_op check_exclusivity saga_failed
    mark_instruction_used submit_body submit_op get_backing update_body update_op
    payload_without_payment_id versioned_payment_to_document document_to_versioned_payment
    payment_document_key payment_id_from_document_key payment_id_filter serve serve_all ◌>>=◌ ◌>>◌
    same decimal conflict convert reading writing inserting insert_initial append_after
    append_version get_current list_versions
settled_found = refl

pub settled_late :
    find? (is_current_of submitted_version.payment.payment_id) settled.items ≡ some settled_row
unfolding transaction attempt allocate_event_id insert_document record_saved save_version save_body
    save_with_security_event descending ascending is_platform_admin is_middle_office
    covers_payment_lob is_compliance can_view_payment display_name payment_resource_context
    primary_violation build_authorization_block details_with_authorization
    raise_for_instruction_status raise_for_use_status log_in_if auth_headers exchange
    get_instruction mark_used release_use authorized_action policy_denial
    validate_single_use_submit_exclusivity validate_instruction_not_expired
    validate_instruction_for_draft_payment validate_instruction_approved_for_submit
    check_instruction_validity_for_approval user_ref subject_at_decision create_payment
    to_opa_payment list_current evaluate_policy record_policy_denial enforce authorize record_event
    persist_authorized persist_new_version link_audit_execution try_release_single_use_instruction
    get_current_or_404 approve_valid approve_checked approve_fetched approve_body approve_op
    cancel_body cancel_op cancel_invalid draft_payment create_saved create_op tally get_op
    list_versions_op list_op summarize_scoped reject_body reject_op check_exclusivity saga_failed
    mark_instruction_used submit_body submit_op get_backing update_body update_op
    payload_without_payment_id versioned_payment_to_document document_to_versioned_payment
    payment_document_key payment_id_from_document_key payment_id_filter serve serve_all ◌>>=◌ ◌>>◌
    same decimal conflict convert reading writing inserting insert_initial append_after
    append_version get_current list_versions
settled_late = refl

pub settled-IsTerminal : IsTerminal settled_row.payload.status
unfolding transaction attempt allocate_event_id insert_document record_saved save_version save_body
    save_with_security_event descending ascending is_platform_admin is_middle_office
    covers_payment_lob is_compliance can_view_payment display_name payment_resource_context
    primary_violation build_authorization_block details_with_authorization
    raise_for_instruction_status raise_for_use_status log_in_if auth_headers exchange
    get_instruction mark_used release_use authorized_action policy_denial
    validate_single_use_submit_exclusivity validate_instruction_not_expired
    validate_instruction_for_draft_payment validate_instruction_approved_for_submit
    check_instruction_validity_for_approval user_ref subject_at_decision create_payment
    to_opa_payment list_current evaluate_policy record_policy_denial enforce authorize record_event
    persist_authorized persist_new_version link_audit_execution try_release_single_use_instruction
    get_current_or_404 approve_valid approve_checked approve_fetched approve_body approve_op
    cancel_body cancel_op cancel_invalid draft_payment create_saved create_op tally get_op
    list_versions_op list_op summarize_scoped reject_body reject_op check_exclusivity saga_failed
    mark_instruction_used submit_body submit_op get_backing update_body update_op
    payload_without_payment_id versioned_payment_to_document document_to_versioned_payment
    payment_document_key payment_id_from_document_key payment_id_filter serve serve_all ◌>>=◌ ◌>>◌
    same decimal conflict convert reading writing inserting insert_initial append_after
    append_version get_current list_versions
settled-IsTerminal = approved_terminal

pub draft_single_use : draft_payment_1.instruction_type ≡ "SINGLE_USE"
unfolding create_payment
draft_single_use = refl

pub draft_on : draft_payment_1.instruction_id ≡ 73 ∷ 49 ∷ []
unfolding create_payment
draft_on = refl

pub drafted_one :
    length (on_instruction platform payments_lawful draft_payment_1.instruction_id drafted) ≡ 1
unfolding transaction attempt allocate_event_id insert_document record_saved save_version save_body
    save_with_security_event descending ascending is_platform_admin is_middle_office
    covers_payment_lob is_compliance can_view_payment display_name payment_resource_context
    primary_violation build_authorization_block details_with_authorization
    raise_for_instruction_status raise_for_use_status log_in_if auth_headers exchange
    get_instruction mark_used release_use authorized_action policy_denial
    validate_single_use_submit_exclusivity validate_instruction_not_expired
    validate_instruction_for_draft_payment validate_instruction_approved_for_submit
    check_instruction_validity_for_approval user_ref subject_at_decision create_payment
    to_opa_payment list_current evaluate_policy record_policy_denial enforce authorize record_event
    persist_authorized persist_new_version link_audit_execution try_release_single_use_instruction
    get_current_or_404 approve_valid approve_checked approve_fetched approve_body approve_op
    cancel_body cancel_op cancel_invalid draft_payment create_saved create_op tally get_op
    list_versions_op list_op summarize_scoped reject_body reject_op check_exclusivity saga_failed
    mark_instruction_used submit_body submit_op get_backing update_body update_op
    payload_without_payment_id versioned_payment_to_document document_to_versioned_payment
    payment_document_key payment_id_from_document_key payment_id_filter serve serve_all ◌>>=◌ ◌>>◌
    same decimal conflict convert reading writing inserting insert_initial append_after
    append_version get_current list_versions
drafted_one = refl

pub creates : create_op platform instruction_id "2029-12-01" amount ann creds none empty_store ≡ (
  ok (
      value no_saved
        (create_op platform instruction_id "2029-12-01" amount ann creds none empty_store)),
  drafted,
)
creates =
    returned no_saved
      (create_op platform instruction_id "2029-12-01" amount ann creds none empty_store)
      runs_return.0

pub updates : update_op platform payment_id instruction_id "2029-12-02" amount ann creds drafted ≡ (
  ok (
      value no_version
        (update_op platform payment_id instruction_id "2029-12-02" amount ann creds drafted)),
  updated,
)
updates =
    returned no_version
      (update_op platform payment_id instruction_id "2029-12-02" amount ann creds drafted)
      runs_return.1

pub submits :
    submit_op platform payment_id ann creds none drafted
    ≡ (ok (value no_version (submit_op platform payment_id ann creds none drafted)), in_review)
submits = returned no_version (submit_op platform payment_id ann creds none drafted) runs_return.2

pub approves :
    approve_op platform payment_id ann creds none in_review
    ≡ (ok (value no_version (approve_op platform payment_id ann creds none in_review)), settled)
approves =
    returned no_version (approve_op platform payment_id ann creds none in_review) runs_return.3

pub rejects : reject_op platform payment_id ann "limit" creds none in_review ≡ (
  ok (value no_version (reject_op platform payment_id ann "limit" creds none in_review)),
  refused,
)
rejects =
    returned no_version (reject_op platform payment_id ann "limit" creds none in_review)
      runs_return.4

pub cancels : cancel_op platform payment_id ann (some "duplicate") creds none in_review ≡ (
  ok (value no_version (cancel_op platform payment_id ann (some "duplicate") creds none in_review)),
  called_off,
)
cancels =
    returned no_version (cancel_op platform payment_id ann (some "duplicate") creds none in_review)
      runs_return.5

pub inserts : insert_initial payment_rows (memory document_key) draft_payment_1 200 [] ≡ (
  ok (value no_version (insert_initial payment_rows (memory document_key) draft_payment_1 200 [])),
  (insert_initial payment_rows (memory document_key) draft_payment_1 200 []).1,
)
inserts =
    returned no_version (insert_initial payment_rows (memory document_key) draft_payment_1 200 [])
      runs_return.6

pub appends :
    append_version payment_rows (memory document_key) draft_payment_1 200 drafted.items ≡ (
      ok (
          value no_version
            (append_version payment_rows (memory document_key) draft_payment_1 200 drafted.items)),
      (append_version payment_rows (memory document_key) draft_payment_1 200 drafted.items).1,
    )
appends =
    returned no_version
      (append_version payment_rows (memory document_key) draft_payment_1 200 drafted.items)
      runs_return.7

pub excludes : check_exclusivity platform draft_payment_1 drafted ≡ (
  ok (value tt (check_exclusivity platform draft_payment_1 drafted)),
  (check_exclusivity platform draft_payment_1 drafted).1,
)
excludes = returned tt (check_exclusivity platform draft_payment_1 drafted) runs_return.8

pub lists : list_op platform ann (inventory_query none) drafted ≡ (
  ok (value [] (list_op platform ann (inventory_query none) drafted)),
  (list_op platform ann (inventory_query none) drafted).1,
)
lists = returned [] (list_op platform ann (inventory_query none) drafted) runs_return.9

pub gets : get_op platform payment_id ann drafted ≡ (
  ok (value no_version (get_op platform payment_id ann drafted)),
  (get_op platform payment_id ann drafted).1,
)
gets = returned no_version (get_op platform payment_id ann drafted) runs_return.10

pub cancels_late : cancel_body platform submitted_version ann (some "late") creds none settled ≡ (
  ok (
      value no_version
        (cancel_body platform submitted_version ann (some "late") creds none settled)),
  (cancel_body platform submitted_version ann (some "late") creds none settled).1,
)
cancels_late =
    returned no_version
      (cancel_body platform submitted_version ann (some "late") creds none settled) runs_return.11

pub authorizes : authorize platform cancel ann draft_payment_1 "" "APPROVED" creds drafted ≡ (
  ok (value no_block (authorize platform cancel ann draft_payment_1 "" "APPROVED" creds drafted)),
  (authorize platform cancel ann draft_payment_1 "" "APPROVED" creds drafted).1,
)
authorizes =
    returned no_block (authorize platform cancel ann draft_payment_1 "" "APPROVED" creds drafted)
      runs_return.12
