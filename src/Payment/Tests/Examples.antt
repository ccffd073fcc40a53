-- ===== src/Payment/Tests/Examples.antt =====
-- The theorems about payment-service on the small platform.
use policy_pilot.Prelude.{
  ℕ, ◌+◌, ◌≤◌, ◌≡◌, ◌↔◌, refl, true, false, none, some, List, [], ◌∷◌, arith, All, length, count_if,
}
use policy_pilot.Prelude.Text.{codes}
use policy_pilot.Prelude.Exec.{ok, err, Ends}
use policy_pilot.Mongo.Memory.{memory, memory-IsUp}
use policy_pilot.Payment.Errors.{Error}
use policy_pilot.Payment.Model.{submitted, update, reject, cancel, cancelled, no_details}
use policy_pilot.Payment.Storage.{VersionedPayment, PaymentDocument}
use policy_pilot.Payment.Storage.Keys.{
  payment_document_key, payment_document_key_injective, payment_id_filter,
  payment_id_filter-payment_document_key,
}
use policy_pilot.Payment.Repository.{append_version, insert_initial}
use policy_pilot.Payment.Repository.Versions.{versions, append_version_returns}
use policy_pilot.Payment.Repository.Versions.{
  document_key, IsValid, append_version-IsValid, append_version_number, insert_initial-IsValid,
}
use policy_pilot.Payment.Guards.{validate_instruction_not_expired, end_date_of}
use policy_pilot.Payment.Guards.Approval.{end_date_reason, check_instruction_validity_for_approval}
use policy_pilot.Payment.Guards.Approval.Payable.{not_expired-end_date, IsPayable, check-IsPayable}
use policy_pilot.Payment.Access.Rules.{MayView, can_view_payment-MayView}
use policy_pilot.Payment.Access.{can_view_payment}
use policy_pilot.Payment.Service.Saving.{IsAppended, IsRecorded}
use policy_pilot.Payment.Service.Saving.Atomic.{save_all_or_nothing}
use policy_pilot.Payment.Service.Steps.{SameData, try_release_keeps}
use policy_pilot.Payment.Service.{
  authorize, save_payment_with_security_event, try_release_single_use_instruction,
}
use policy_pilot.Payment.Service.Authorizing.{IsAllowed, authorize_ok}
use policy_pilot.Payment.Service.Create.{create_op}
use policy_pilot.Payment.Service.Reject.{reject_op}
use policy_pilot.Payment.Client.{release_use}
use policy_pilot.Payment.Service.Releasing.{release_use-no_credentials}
use policy_pilot.Payment.Service.Cancel.{cancel_op, cancel_body, no_credentials}
use policy_pilot.Payment.Service.Read.{inventory_query, list_op, get_op, tally, no_buckets}
use policy_pilot.Payment.Service.Read.Visible.{
  count_of, is_counted, count_of-tally, list_op-MayView, get_op-MayView,
}
use policy_pilot.Payment.Service.Exclusivity.{
  on_instruction, is_unsettled, check_exclusivity-active,
}
use policy_pilot.Payment.Lifecycle.{IsMoved, IsPermitted}
use policy_pilot.Payment.Lifecycle.Operations.{reject_op-IsMoved, cancel_op-IsMoved}
use policy_pilot.Payment.Lifecycle.Creating.{IsDrafted, create_op-IsDrafted}
use policy_pilot.Payment.Lifecycle.Terminal.{serve-terminal}
use policy_pilot.Payment.Lifecycle.Stale.{cancel_body_stale}
use policy_pilot.Payment.Validity.{IsSound}
use policy_pilot.Payment.Validity.Calls.{
  Call, create_call, submit_call, approve_call, cancel_call, serve, serve_all, serve_all-IsSound,
}
use policy_pilot.Payment.Tests.{
  platform, payments_lawful, events_lawful, empty_store, ann, creds, amount, instruction,
  instruction_id, payment_id,
}
use policy_pilot.Payment.Tests.Runs.{
  value, no_version, no_saved, draft_payment_1, drafted, in_review, settled, refused, called_off,
  submitted_version, settled_row, settled_found, settled_late, settled-IsTerminal, creates, rejects,
  cancels, inserts, appends, excludes, lists, drafted_one, drafted_row, drafted_found,
  draft_single_use, draft_on, gets, cancels_late, authorizes,
}

empty-IsValid : IsValid []
empty-IsValid id = record {
  one_open = refl;
  numbered = λ n. ground arith;
  keyed = tt;
  newest_open = tt;
}

abbrev life : List Call
life =
    create_call instruction_id "2029-12-01" amount ann creds none
    ∷ submit_call payment_id ann creds none
    ∷ approve_call payment_id ann creds none
    ∷ cancel_call payment_id ann none creds none
    ∷ []

serve_all-IsSound_example : IsSound platform (serve_all platform life empty_store)
serve_all-IsSound_example =
    serve_all-IsSound platform payments_lawful life empty_store empty-IsValid

drafted_few :
    length (on_instruction platform payments_lawful draft_payment_1.instruction_id drafted) ≤ 100
drafted_few = omega (arith, drafted_one)

drafted-IsValid : IsValid drafted.items
unfolding serve_all serve
drafted-IsValid =
    serve_all-IsSound platform payments_lawful
      (create_call instruction_id "2029-12-01" amount ann creds none ∷ []) empty_store empty-IsValid

append_version-IsValid_example :
    IsValid ((append_version (memory document_key) draft_payment_1 200 drafted.items).1)
append_version-IsValid_example =
    append_version-IsValid (memory document_key) payments_lawful draft_payment_1 200 drafted.items
      appends drafted-IsValid

append_version_number_example :
    (value no_version
      (append_version (memory document_key) draft_payment_1 200 drafted.items)).version_number
    ≡ versions draft_payment_1.payment_id drafted.items + 1
append_version_number_example =
    append_version_number (memory document_key) payments_lawful draft_payment_1 200 drafted.items
      appends drafted-IsValid

insert_initial-IsValid_example :
    IsValid ((insert_initial (memory document_key) draft_payment_1 200 []).1)
insert_initial-IsValid_example =
    insert_initial-IsValid (memory document_key) payments_lawful draft_payment_1 200 [] inserts
      empty-IsValid

create_op-IsDrafted_example :
    IsDrafted platform payments_lawful events_lawful instruction_id ann creds empty_store
      (value no_saved
        (create_op platform instruction_id "2029-12-01" amount ann creds none empty_store)).0
      drafted
create_op-IsDrafted_example =
    create_op-IsDrafted platform payments_lawful events_lawful instruction_id "2029-12-01" amount
      ann creds none empty_store creates

reject_op-IsMoved_example :
    IsMoved platform payments_lawful reject ann payment_id in_review
      (value no_version (reject_op platform payment_id ann "limit" creds none in_review))
      refused
    × IsPermitted platform payments_lawful reject ann payment_id creds
reject_op-IsMoved_example =
    reject_op-IsMoved platform payments_lawful events_lawful payment_id ann "limit" creds none
      in_review rejects

cancel_op-IsMoved_example :
    IsMoved platform payments_lawful cancel ann payment_id in_review
      (value no_version (cancel_op platform payment_id ann (some "duplicate") creds none in_review))
      called_off
    × IsPermitted platform payments_lawful cancel ann payment_id creds
cancel_op-IsMoved_example =
    cancel_op-IsMoved platform payments_lawful events_lawful payment_id ann (some "duplicate") creds
      none in_review cancels

serve-terminal_example :
    (serve platform (cancel_call payment_id ann none creds none) settled).items ≡ settled.items
serve-terminal_example =
    serve-terminal platform payments_lawful (cancel_call payment_id ann none creds none) payment_id
      settled_row settled refl settled_found settled-IsTerminal

cancel_body_stale_example :
    ((value no_version (
        cancel_body platform submitted_version ann (some "late") creds none settled)).payment.status
      ≡ cancelled)
    × ((value no_version (
          cancel_body platform submitted_version ann
            (some "late")
            creds
            none
            settled)).version_number
        ≡ settled_row.version_number + 1)
cancel_body_stale_example =
    cancel_body_stale platform payments_lawful events_lawful submitted_version ann (some "late")
      creds none settled settled_row settled_late cancels_late

check_exclusivity-active_example :
    count_if is_unsettled
      (on_instruction platform payments_lawful draft_payment_1.instruction_id drafted)
    ≤ 1
check_exclusivity-active_example =
    check_exclusivity-active platform payments_lawful draft_payment_1 73 (49 ∷ []) drafted draft_on
      draft_single_use drafted_few excludes

not_expired-end_date_example :
    (validate_instruction_not_expired platform.fromisoformat 100 instruction ≡ ok tt)
    ↔ (end_date_reason platform.fromisoformat 100 (end_date_of instruction) ≡ none)
not_expired-end_date_example =
    not_expired-end_date platform.fromisoformat 100 instruction
      (record { wall = 500; offset = none }) refl refl

list_op-MayView_example :
    All
      (λ r. MayView ann r.payment)
      (value [] (list_op platform ann (inventory_query none) drafted))
list_op-MayView_example = list_op-MayView platform ann (inventory_query none) drafted lists

get_op-MayView_example :
    MayView ann (value no_version (get_op platform payment_id ann drafted)).payment
get_op-MayView_example = get_op-MayView platform payment_id ann drafted gets

authorize_ok_example :
    IsAllowed platform cancel ann draft_payment_1 "" "APPROVED" creds
    × ((authorize platform cancel ann draft_payment_1 "" "APPROVED" creds drafted).1.items
        ≡ drafted.items)
    × ((authorize platform cancel ann draft_payment_1 "" "APPROVED" creds drafted).1.events
        ≡ drafted.events)
authorize_ok_example =
    authorize_ok platform cancel ann draft_payment_1 "" "APPROVED" creds drafted authorizes

payment_document_key_injective_example : (codes "P1" ≡ codes "P1") × ◌≡◌ {A = ℕ} 12 12
payment_document_key_injective_example =
    payment_document_key_injective (codes "P1") (codes "P1") 12 12 refl

append_version_returns_example :
    (saved : VersionedPayment) × (docs' : List PaymentDocument) × (append_version
        (memory document_key)
        draft_payment_1
        200
        drafted.items
      ≡ (ok saved, docs'))
append_version_returns_example =
    append_version_returns (memory document_key) payments_lawful (memory-IsUp document_key)
      draft_payment_1 200 drafted.items drafted_row drafted_found drafted-IsValid

release_use-no_credentials_example :
    (e : Error) × (release_use platform instruction_id payment_id (no_credentials platform) settled
      ≡ (err e, settled))
release_use-no_credentials_example =
    release_use-no_credentials platform instruction_id payment_id settled

save_all_or_nothing_example :
    Ends
      (λ saved t.
        IsAppended platform draft_payment_1 drafted.items saved.0 t.items
        × IsRecorded platform update ann no_details saved.0 drafted.events t.events)
      (λ _ t. (t.items ≡ drafted.items) × (t.events ≡ drafted.events))
      (save_payment_with_security_event platform false draft_payment_1 update ann no_details
        drafted)
save_all_or_nothing_example =
    save_all_or_nothing platform payments_lawful events_lawful draft_payment_1 update ann no_details
      drafted

check-IsPayable_example :
    (check_instruction_validity_for_approval platform.fromisoformat 100 draft_payment_1 instruction
      ≡ none)
    ↔ IsPayable platform.fromisoformat 100 draft_payment_1 instruction
check-IsPayable_example = check-IsPayable platform.fromisoformat 100 draft_payment_1 instruction

can_view_payment-MayView_example :
    (can_view_payment ann draft_payment_1 ≡ true) ↔ MayView ann draft_payment_1
can_view_payment-MayView_example = can_view_payment-MayView ann draft_payment_1

count_of-tally_example :
    count_of submitted (tally ann (submitted_version ∷ []) no_buckets)
    ≡ count_if (is_counted ann submitted) (submitted_version ∷ []) + count_of submitted no_buckets
count_of-tally_example = count_of-tally submitted ann (submitted_version ∷ []) no_buckets

try_release_keeps_example :
    ((try_release_single_use_instruction platform draft_payment_1 creds drafted).0 ≡ ok tt)
    × SameData platform drafted
        (try_release_single_use_instruction platform draft_payment_1 creds drafted).1
try_release_keeps_example = try_release_keeps platform draft_payment_1 creds drafted

payment_id_filter-payment_document_key_example :
    (payment_id_filter (codes "P1") (payment_document_key (codes "P1|2") 3) ≡ true)
    ↔ (codes "P1" ≡ codes "P1|2")
payment_id_filter-payment_document_key_example =
    payment_id_filter-payment_document_key (codes "P1") (codes "P1|2") 3
