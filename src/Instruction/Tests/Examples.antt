-- ===== src/Instruction/Tests/Examples.antt =====
-- The theorems about instruction-service on the small platform.
use policy_pilot.Prelude.{List, ◌∷◌, ◌≤◌, ◌≡◌, ◌↔◌, refl, false, none, some, [], arith, All}
use policy_pilot.Prelude.Text.{codes}
use policy_pilot.Prelude.Exec.{ok, err}
use policy_pilot.Instruction.Model.{used}
use policy_pilot.Instruction.Repository.{InstructionQuery, invalid_state_transition}
use policy_pilot.Instruction.Service.Use.{use_instruction}
use policy_pilot.Instruction.Service.Read.{list_instructions}
use policy_pilot.Instruction.Viewing.{IsListed, list_instructions-IsListed}
use policy_pilot.Instruction.Calls.{Call, serve, serve_all, use_call, submit_call}
use policy_pilot.Instruction.Calls.Keeping.{serve_fails}
use policy_pilot.Instruction.Calls.Refinement.{IsSound, view}
use policy_pilot.Instruction.Calls.Outcomes.{Outcome, serve-Outcome}
use policy_pilot.Instruction.Calls.Replay.{
  AllCounted, replay, effects, serve_all-replay, serve_all-single_use,
}
use policy_pilot.Instruction.Calls.Using.{release_instruction-use_instruction, use_instruction_once}
use policy_pilot.Instruction.Tests.{
  platform, instructions_lawful, events_lawful, empty_store, ann, caller, instruction_id, payment,
  approving,
}
use policy_pilot.Instruction.Tests.Runs.{
  value, no_version, approved_store, approved_state, approved_view, used_store, released_store,
  uses, releases, lists, refused,
}

empty-IsSound : IsSound platform empty_store
empty-IsSound id = record {
  one_open = refl;
  numbered = λ n. ground arith;
  keyed = tt;
  newest_open = tt;
}

empty-AllCounted : AllCounted (view platform empty_store)
empty-AllCounted id x h = cc

approved-IsSound : IsSound platform approved_store
approved-IsSound =
    (serve_all-replay platform instructions_lawful events_lawful approving empty_store
      empty-IsSound).1

serve_all-replay_example :
    (replay (effects platform approving empty_store) (view platform empty_store)
      ≡ some (view platform (serve_all platform approving empty_store)))
    × IsSound platform (serve_all platform approving empty_store)
serve_all-replay_example =
    serve_all-replay platform instructions_lawful events_lawful approving empty_store empty-IsSound

abbrev use_it : Call
use_it = use_call instruction_id ann payment none caller

used_now : serve platform use_it approved_store ≡ (
  ok (
      value no_version
        (use_instruction platform instruction_id ann payment none caller approved_store)),
  used_store,
)
unfolding serve
used_now = uses

serve-Outcome_example :
    Outcome platform instructions_lawful events_lawful use_it approved_store
      (value no_version
        (use_instruction platform instruction_id ann payment none caller approved_store))
      used_store
serve-Outcome_example =
    serve-Outcome platform instructions_lawful events_lawful use_it approved_store used_now

serve_all-single_use_example :
    (approved_state.usage_count ≤ 1)
    × ((approved_state.status ≡ used) ↔ (approved_state.usage_count ≡ 1))
serve_all-single_use_example =
    serve_all-single_use platform instructions_lawful events_lawful approving empty_store
      empty-IsSound empty-AllCounted instruction_id approved_view refl

release_instruction-use_instruction_example :
    view platform released_store instruction_id ≡ view platform approved_store instruction_id
release_instruction-use_instruction_example =
    release_instruction-use_instruction platform instructions_lawful events_lawful instruction_id
      payment ann ann none caller caller approved_store approved-IsSound approved_view refl refl
      uses releases instruction_id

abbrev between : List Call
between = submit_call instruction_id ann caller ∷ use_it ∷ []

use_instruction_once_example : ¬ (
    use_instruction platform instruction_id ann
      (codes "P2")
      none
      caller
      (serve_all platform between used_store)
    ≡ (ok no_version, used_store))
use_instruction_once_example =
    use_instruction_once platform instructions_lawful events_lawful instruction_id payment
      (codes "P2") ann ann none none caller caller between approved_store approved-IsSound
      approved_view refl uses (refl, (refl, tt))

abbrev all_current : InstructionQuery
all_current = record {
  owning_lob = none;
  status = none;
  instruction_type = none;
  created_by_user_id = none;
  limit = 100;
}

list_instructions-IsListed_example :
    All
      (IsListed platform false ann caller)
      (value [] (list_instructions platform all_current false ann caller approved_store))
list_instructions-IsListed_example =
    list_instructions-IsListed platform all_current false ann caller approved_store lists

abbrev use_again : Call
use_again = use_call instruction_id ann (codes "P2") none caller

refused_again : serve platform use_again used_store ≡ (
  err (invalid_state_transition "only APPROVED instructions can be used"),
  (use_instruction platform instruction_id ann (codes "P2") none caller used_store).1,
)
unfolding serve
refused_again = refused

serve_fails_example :
    (use_instruction platform instruction_id ann (codes "P2") none caller used_store).1.items
    ≡ used_store.items
serve_fails_example = serve_fails platform use_again used_store refused_again
