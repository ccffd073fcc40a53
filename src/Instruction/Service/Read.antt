-- ===== src/Instruction/Service/Read.antt =====
-- `InstructionService.get`, `list_versions` and `list`.
use policy_pilot.Prelude.{Bool, true, false, not, none, List, [], ◌∷◌, ◌&&◌, if◌then◌else◌}
use policy_pilot.Prelude.Text.{Text}
use policy_pilot.Prelude.Exec.{Result, ok, err, pure, raise, ◌>>=◌, ◌>>◌}
use policy_pilot.Ledger
use policy_pilot.Payment.Model.{Subject}
use policy_pilot.Instruction.Model.{cancelled, status_eq, view, Details, AuthorizationBlock}
use policy_pilot.Instruction.Evidence.{authorized_action, details_with_authorization}
use policy_pilot.Instruction.Storage.{VersionedInstruction}
use policy_pilot.Instruction.Repository.{
  Error, policy_denied, permission_error, InstructionQuery, get_current, list_current,
  list_versions,
}
use policy_pilot.Instruction.Platform.{Caller, Platform, ledger, Svc, ask, on_instructions}
use policy_pilot.Instruction.Service.{
  should_record_security_event, should_record_view_security_event, authorize,
}

-- `except PermissionError`
abbrev pub is_permission_error : Error → Bool
is_permission_error (policy_denied summary) = true
is_permission_error (permission_error message) = true
is_permission_error _ = false

module _ (P : Platform) where
  -- `_record_authorized_action` for a view
  unfoldable pub record_view : Subject → VersionedInstruction → Details → Svc P (Unit {0})
  record_view subject record_ details =
      Ledger.when (ledger P)
        (should_record_view_security_event P subject && should_record_security_event P subject)
        do
          document_id ← Ledger.allocate_event_id (ledger P) record_.instruction.instruction_id
          now ← ask P P.now
          Ledger.insert_document (ledger P) (record {
            document_id = document_id;
            event =
                authorized_action view subject record_.instruction record_.version_number details
                  now;
          })

  -- A read of one version: permission, and the evidence of it.
  unfoldable pub view_version : VersionedInstruction → Subject → Caller → Svc P VersionedInstruction
  view_version record_ subject caller = do
    let recorded = should_record_view_security_event P subject
    block ← authorize P view subject record_.instruction caller recorded none
    Ledger.when (ledger P) recorded
        (record_view subject record_ (details_with_authorization none block))
    pure record_

  unfoldable pub get_instruction : Text → Subject → Caller → Svc P VersionedInstruction
  get_instruction instruction_id subject caller = do
    record_ ← on_instructions P (get_current P.Instructions instruction_id)
    view_version record_ subject caller

  unfoldable pub list_instruction_versions :
      Text → Subject → Caller → Svc P (List VersionedInstruction)
  list_instruction_versions instruction_id subject caller = do
    get_instruction instruction_id subject caller
    on_instructions P (list_versions P.Instructions instruction_id)

  -- What the loop of `list` does after the authorization of a record: a denial skips it.
  unfoldable pub visible_after :
      Result Error AuthorizationBlock
      → VersionedInstruction
      → Subject
      → Svc P (List VersionedInstruction)
      → Svc P (List VersionedInstruction)
  visible_after (ok block) record_ subject rest = do
    Ledger.when (ledger P) (should_record_view_security_event P subject)
        (record_view subject record_ (details_with_authorization none block))
    others ← rest
    pure (record_ ∷ others)
  visible_after (err e) record_ subject rest = if is_permission_error e then rest else raise e

  -- One turn of the loop of `list`.
  unfoldable pub visible_turn :
      Bool
      → VersionedInstruction
      → Subject
      → Caller
      → Svc P (List VersionedInstruction)
      → Svc P (List VersionedInstruction)
  visible_turn true record_ subject caller rest = rest
  visible_turn false record_ subject caller rest = do
    answer ← Ledger.attempt (ledger P) (
        authorize P view subject record_.instruction caller
          (should_record_view_security_event P subject) none)
    visible_after answer record_ subject rest

  unfoldable pub visible :
      Bool → List VersionedInstruction → Subject → Caller → Svc P (List VersionedInstruction)
  visible include_cancelled [] subject caller = pure []
  visible include_cancelled (record_ ∷ records) subject caller =
      visible_turn (not include_cancelled && status_eq record_.instruction.status cancelled) record_
        subject caller (visible include_cancelled records subject caller)

  unfoldable pub list_instructions :
      InstructionQuery → Bool → Subject → Caller → Svc P (List VersionedInstruction)
  list_instructions query include_cancelled subject caller = do
    records ← on_instructions P (list_current P.Instructions query)
    visible include_cancelled records subject caller
