-- ===== src/Instruction/Repository.antt =====
-- inst/repository.py: the instructions collection, as an instance of the common code.
use policy_pilot.Prelude.{ℕ, ◌≡◌, refl, sym, ◌∙◌, ◌↔◌, String, Bool, true, Option, none, List, ◌&&◌}
use policy_pilot.Prelude.Text.{Text}
use policy_pilot.Prelude.Exec.{Exec, pure, ◌>>=◌}
use policy_pilot.Mongo.{MongoError, Collection}
use policy_pilot.Versioned
use policy_pilot.Payment.Model.{Time}
use policy_pilot.Payment.Iso.{format_timestamp, text_order}
use policy_pilot.Payment.Storage.{payment_current_out, closed_out}
use policy_pilot.Payment.Storage.Keys.{
  payment_id_filter, payment_id_filter-payment_document_key, payment_document_key_injective,
}
use policy_pilot.Payment.Repository.{out_eq, asks, asks_id}
use policy_pilot.Instruction.Model.{CashSettlementInstruction, Summary, type_value}
use policy_pilot.Instruction.Storage.{
  VersionedInstruction, InstructionDocument, instruction_document_key, instruction_document_key_lem,
  versioned_instruction_to_document, document_to_versioned_instruction,
  document_to_versioned_instruction_lem,
}

-- The exceptions of instruction-service. A message that only formats values is kept by its fixed
-- words.
pub data Error : Type 0 where
  -- `PermissionError`, with the summary of a denial or another message
  policy_denied : Summary → Error
  permission_error value_error runtime_error invalid_state_transition other_error : String → Error
  instruction_not_found : Text → Error
  concurrent_modification : Text → ℕ → Error
  mongo_error : MongoError → Error

-- The regular expression of `_instruction_id_filter`, as for a payment
abbrev pub instruction_id_filter : Text → Text → Bool
instruction_id_filter = payment_id_filter

-- The version of an instruction that is open since a time.
abbrev pub open_version : CashSettlementInstruction → ℕ → Time → VersionedInstruction
open_version i n now = record {
  instruction = i;
  version_number = n;
  valid_in = now;
  valid_out = none;
}

abbrev pub instruction_rows : Versioned.Rows
instruction_rows = record {
  Item = CashSettlementInstruction;
  Document = InstructionDocument;
  Version = VersionedInstruction;
  Error = Error;
  document_id = λ d. d.document_id;
  version_number = λ d. d.version_number;
  is_open = λ d. out_eq d.record_out payment_current_out;
  close_at = λ now d. record d { record_out = closed_out (format_timestamp now) };
  id_of = λ i. i.instruction_id;
  touch = λ now i. record i { updated_at = now };
  to_document = versioned_instruction_to_document;
  to_version = document_to_versioned_instruction;
  open_version = open_version;
  key = instruction_document_key;
  id_filter = instruction_id_filter;
  not_found = instruction_not_found;
  concurrent_modification = concurrent_modification;
  mongo_error = mongo_error;
}

filter_key :
    (i j : Text) (n : ℕ) → (instruction_id_filter i (instruction_document_key j n) ≡ true) ↔ (i ≡ j)
filter_key i j n =
    rw (instruction_document_key_lem j n) (payment_id_filter-payment_document_key i j n)

key_injective :
    (i j : Text) (m n : ℕ)
    → instruction_document_key i m ≡ instruction_document_key j n
    → (i ≡ j) × (m ≡ n)
key_injective i j m n h =
    payment_document_key_injective i j m n
      (sym (instruction_document_key_lem i m) ∙ h ∙ instruction_document_key_lem j n)

pub instruction_rows-IsVersioned : Versioned.IsVersioned instruction_rows
unfolding versioned_instruction_to_document
instruction_rows-IsVersioned = record {
  new_id = λ i n now. refl;
  new_number = λ i n now. refl;
  new_open = λ i n now. refl;
  new_version = document_to_versioned_instruction_lem;
  close_id = λ now d. refl;
  close_number = λ now d. refl;
  close_shut = λ now d. refl;
  touch_id = λ now i. refl;
  filter_key = filter_key;
  key_injective = key_injective;
}

pub record InstructionQuery : Type 0 where
  pub owning_lob : Option Text
  pub status : Option String
  pub instruction_type : Option String
  pub created_by_user_id : Option String
  pub limit : ℕ

-- The filters of `list_current`; an empty or missing value does not filter.
abbrev pub current_query : InstructionQuery → InstructionDocument → Bool
current_query q d =
    out_eq d.record_out payment_current_out
    && (asks_id q.owning_lob d.owning_lob
        && (asks q.status d.status
            && (asks q.instruction_type (type_value d.payload.instruction_type)
                && asks q.created_by_user_id d.payload.created_by.user_id)))

module _ (C : Collection InstructionDocument) where
  abbrev pub insert_initial :
      CashSettlementInstruction → Time → Exec Error C.Data VersionedInstruction
  insert_initial = Versioned.insert_initial instruction_rows C

  abbrev pub append_version :
      CashSettlementInstruction → Time → Exec Error C.Data VersionedInstruction
  append_version = Versioned.append_version instruction_rows C

  -- `get_one` at the open version
  abbrev pub get_current : Text → Exec Error C.Data VersionedInstruction
  get_current = Versioned.get_current instruction_rows C

  unfoldable pub list_current : InstructionQuery → Exec Error C.Data (List VersionedInstruction)
  list_current q = do
    found ←
        Versioned.reading instruction_rows C
          (C.find_newest (current_query q) (λ d. text_order d.record_in) q.limit)
    pure (Versioned.convert instruction_rows found)

  abbrev pub list_versions : Text → Exec Error C.Data (List VersionedInstruction)
  list_versions = Versioned.list_versions instruction_rows C
