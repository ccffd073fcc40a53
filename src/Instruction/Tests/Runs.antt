-- ===== src/Instruction/Tests/Runs.antt =====
-- Runs of the operations on the small platform: each of them returns.
use policy_pilot.Instruction.Calls.{serve, serve_all}
use policy_pilot.Instruction.Calls.Replay.{replay, effects}
use policy_pilot.Instruction.Evidence.{
  subject_at_decision, instruction_resource_context, build_authorization_block,
  details_with_authorization, authorized_action, policy_denial,
}
use policy_pilot.Instruction.Model.{to_opa_instruction, to_opa_account, instruction_of_request}
use policy_pilot.Instruction.Repository.{list_current}
use policy_pilot.Instruction.Route.{
  international_agents, all_bicfi, validate_route_rules, desk_rest, desk_name, is_valid_owning_lob,
}
use policy_pilot.Instruction.Service.{
  evaluate_request, ensure_logged_in, evaluate_policy, denial_version, record_policy_denial,
  record_denial, enforce, authorize, record_event, save_instruction_with_security_event, persist,
}
use policy_pilot.Instruction.Service.Drafting.{
  validate_instruction, keep_history, parse_datetime, instruction_from_request, create_instruction,
  update_current, update_instruction, cancel_current, cancel_instruction,
}
use policy_pilot.Instruction.Service.Read.{
  record_view, view_version, get_instruction, list_instruction_versions, visible_after,
  visible_turn, visible, list_instructions,
}
use policy_pilot.Instruction.Service.Review.{
  submit_current, submit_instruction, approve_current, approve_instruction, reject_current,
  reject_instruction,
}
use policy_pilot.Instruction.Service.Suspension.{
  suspend_current, suspend_instruction, reactivate_current, reactivate_instruction,
}
use policy_pilot.Instruction.Service.Use.{
  use_current, use_instruction, release_current, release_instruction,
}
use policy_pilot.Instruction.Storage.{
  instruction_document_key, payload_without_instruction_id, versioned_instruction_to_document,
  document_to_versioned_instruction,
}
use policy_pilot.Ledger.{
  transaction, attempt, allocate_event_id, insert_document, record_saved, save_version, save_body,
  save_with_security_event,
}
use policy_pilot.Mongo.Memory.{descending, ascending}
use policy_pilot.Payment.Authorization.{display_name, payment_resource_context, primary_violation}
use policy_pilot.Payment.Model.{user_ref, create_payment, to_opa_payment}
use policy_pilot.Payment.Storage.Keys.{
  payment_document_key, payment_id_from_document_key, payment_id_filter,
}
use policy_pilot.Prelude.Exec.{Result, ok, err, ◌>>=◌, ◌>>◌}
use policy_pilot.Prelude.Text.{same}
use policy_pilot.Prelude.Text.Decimal.{decimal}
use policy_pilot.Versioned.{
  conflict, convert, reading, writing, inserting, insert_initial, append_after, append_version,
  get_current, list_versions,
}
use mathlib.Core.Option.{some-injective}
use policy_pilot.Prelude.{◌≡◌, refl, ap, Bool, true, false, Option, none, some, []}
use policy_pilot.Prelude.Text.{codes}
use policy_pilot.Instruction.Model.{approved, single_use}
use policy_pilot.Instruction.Storage.{VersionedInstruction}
use policy_pilot.Instruction.Machine.{State}
use policy_pilot.Instruction.Platform.{Store}
use policy_pilot.Instruction.Repository.{Error, invalid_state_transition}
use policy_pilot.Instruction.Calls.Refinement.{view}
use policy_pilot.Instruction.Tests.{
  platform, empty_store, ann, caller, request, instruction_id, payment, approving,
}

abbrev is_ok : {A B : Type 0} → Result Error A × B → Bool
is_ok (ok a, s) = true
is_ok (err e, s) = false

abbrev pub value : {A B : Type 0} → A → Result Error A × B → A
value default (ok a, s) = a
value default (err e, s) = default

returned :
    {A B : Type 0} (default : A) (p : Result Error A × B)
    → is_ok p ≡ true
    → p ≡ (ok (value default p), p.1)
returned default (ok a, s) h = refl
returned default (err e, s) h = cc

abbrev error_of : {A B : Type 0} → Result Error A × B → Option Error
error_of (ok a, s) = none
error_of (err e, s) = some e

raised :
    {A B : Type 0} (e : Error) (p : Result Error A × B) → error_of p ≡ some e → p ≡ (err e, p.1)
raised e (ok a, s) h = cc
raised e (err e', s) h = ap (λ x. (err x, s)) (some-injective _ _ h)

abbrev pub no_version : VersionedInstruction
no_version = record {
  instruction = instruction_of_request request [] approved (user_ref ann) 0 0 0 0;
  version_number = 0;
  valid_in = 0;
  valid_out = none;
}

abbrev pub approved_store : Store platform
approved_store = serve_all platform approving empty_store

abbrev pub used_store : Store platform
used_store = (use_instruction platform instruction_id ann payment none caller approved_store).1

abbrev pub released_store : Store platform
released_store = (release_instruction platform instruction_id ann payment caller used_store).1

runs_return :
    (is_ok (use_instruction platform instruction_id ann payment none caller approved_store) ≡ true)
    × (is_ok (release_instruction platform instruction_id ann payment caller used_store) ≡ true)
    × (is_ok (
          list_instructions platform
            (record {
              owning_lob = none;
              status = none;
              instruction_type = none;
              created_by_user_id = none;
              limit = 100;
            })
            false
            ann
            caller
            approved_store)
        ≡ true)
unfolding serve serve_all replay effects subject_at_decision instruction_resource_context
    build_authorization_block details_with_authorization authorized_action policy_denial
    to_opa_instruction to_opa_account instruction_of_request list_current international_agents
    all_bicfi validate_route_rules desk_rest desk_name is_valid_owning_lob evaluate_request
    ensure_logged_in evaluate_policy denial_version record_policy_denial record_denial enforce
    authorize record_event save_instruction_with_security_event persist validate_instruction
    keep_history parse_datetime instruction_from_request create_instruction update_current
    update_instruction cancel_current cancel_instruction record_view view_version get_instruction
    list_instruction_versions visible_after visible_turn visible list_instructions submit_current
    submit_instruction approve_current approve_instruction reject_current reject_instruction
    suspend_current suspend_instruction reactivate_current reactivate_instruction use_current
    use_instruction release_current release_instruction instruction_document_key
    payload_without_instruction_id versioned_instruction_to_document
    document_to_versioned_instruction transaction attempt allocate_event_id insert_document
    record_saved save_version save_body save_with_security_event descending ascending display_name
    payment_resource_context primary_violation user_ref create_payment to_opa_payment
    payment_document_key payment_id_from_document_key payment_id_filter ◌>>=◌ ◌>>◌ same decimal
    conflict convert reading writing inserting insert_initial append_after append_version
    get_current list_versions
runs_return = (refl, refl, refl)

pub uses : use_instruction platform instruction_id ann payment none caller approved_store ≡ (
  ok (
      value no_version
        (use_instruction platform instruction_id ann payment none caller approved_store)),
  (use_instruction platform instruction_id ann payment none caller approved_store).1,
)
uses =
    returned no_version
      (use_instruction platform instruction_id ann payment none caller approved_store) runs_return.0

pub releases : release_instruction platform instruction_id ann payment caller used_store ≡ (
  ok (value no_version (release_instruction platform instruction_id ann payment caller used_store)),
  (release_instruction platform instruction_id ann payment caller used_store).1,
)
releases =
    returned no_version (release_instruction platform instruction_id ann payment caller used_store)
      runs_return.1

pub lists :
    list_instructions platform
      (record {
        owning_lob = none;
        status = none;
        instruction_type = none;
        created_by_user_id = none;
        limit = 100;
      })
      false
      ann
      caller
      approved_store
    ≡ (
      ok (
          value [] (
            list_instructions platform
              (record {
                owning_lob = none;
                status = none;
                instruction_type = none;
                created_by_user_id = none;
                limit = 100;
              })
              false
              ann
              caller
              approved_store)),
      (list_instructions platform
          (record {
            owning_lob = none;
            status = none;
            instruction_type = none;
            created_by_user_id = none;
            limit = 100;
          })
          false
          ann
          caller
          approved_store).1,
    )
lists =
    returned []
      (list_instructions platform
        (record {
          owning_lob = none;
          status = none;
          instruction_type = none;
          created_by_user_id = none;
          limit = 100;
        })
        false ann caller approved_store)
      runs_return.2

pub refused : use_instruction platform instruction_id ann (codes "P2") none caller used_store ≡ (
  err (invalid_state_transition "only APPROVED instructions can be used"),
  (use_instruction platform instruction_id ann (codes "P2") none caller used_store).1,
)
unfolding serve serve_all replay effects subject_at_decision instruction_resource_context
    build_authorization_block details_with_authorization authorized_action policy_denial
    to_opa_instruction to_opa_account instruction_of_request list_current international_agents
    all_bicfi validate_route_rules desk_rest desk_name is_valid_owning_lob evaluate_request
    ensure_logged_in evaluate_policy denial_version record_policy_denial record_denial enforce
    authorize record_event save_instruction_with_security_event persist validate_instruction
    keep_history parse_datetime instruction_from_request create_instruction update_current
    update_instruction cancel_current cancel_instruction record_view view_version get_instruction
    list_instruction_versions visible_after visible_turn visible list_instructions submit_current
    submit_instruction approve_current approve_instruction reject_current reject_instruction
    suspend_current suspend_instruction reactivate_current reactivate_instruction use_current
    use_instruction release_current release_instruction instruction_document_key
    payload_without_instruction_id versioned_instruction_to_document
    document_to_versioned_instruction transaction attempt allocate_event_id insert_document
    record_saved save_version save_body save_with_security_event descending ascending display_name
    payment_resource_context primary_violation user_ref create_payment to_opa_payment
    payment_document_key payment_id_from_document_key payment_id_filter ◌>>=◌ ◌>>◌ same decimal
    conflict convert reading writing inserting insert_initial append_after append_version
    get_current list_versions
refused =
    raised (invalid_state_transition "only APPROVED instructions can be used")
      (use_instruction platform instruction_id ann (codes "P2") none caller used_store) refl

abbrev pub approved_state : State
approved_state = record {
  status = approved;
  instruction_type = single_use;
  usage_count = 0;
  used_by = none;
}

-- The approved instruction as clients see it.
pub approved_view : view platform approved_store instruction_id ≡ some approved_state
unfolding serve serve_all replay effects subject_at_decision instruction_resource_context
    build_authorization_block details_with_authorization authorized_action policy_denial
    to_opa_instruction to_opa_account instruction_of_request list_current international_agents
    all_bicfi validate_route_rules desk_rest desk_name is_valid_owning_lob evaluate_request
    ensure_logged_in evaluate_policy denial_version record_policy_denial record_denial enforce
    authorize record_event save_instruction_with_security_event persist validate_instruction
    keep_history parse_datetime instruction_from_request create_instruction update_current
    update_instruction cancel_current cancel_instruction record_view view_version get_instruction
    list_instruction_versions visible_after visible_turn visible list_instructions submit_current
    submit_instruction approve_current approve_instruction reject_current reject_instruction
    suspend_current suspend_instruction reactivate_current reactivate_instruction use_current
    use_instruction release_current release_instruction instruction_document_key
    payload_without_instruction_id versioned_instruction_to_document
    document_to_versioned_instruction transaction attempt allocate_event_id insert_document
    record_saved save_version save_body save_with_security_event descending ascending display_name
    payment_resource_context primary_violation user_ref create_payment to_opa_payment
    payment_document_key payment_id_from_document_key payment_id_filter ◌>>=◌ ◌>>◌ same decimal
    conflict convert reading writing inserting insert_initial append_after append_version
    get_current list_versions
approved_view = refl
