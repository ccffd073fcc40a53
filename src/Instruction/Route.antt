-- ===== src/Instruction/Route.antt =====
-- The settlement route of an instruction in inst/models/instruction.py, and the rules that
-- `validate_route_rules` checks.
pub mod Rules
use policy_pilot.Prelude.{
  ℕ, String, ◌≡◌, ◌↔◌, ◌⊎◌, inl, inr, refl, Bool, true, false, not, Option, none, some, List, [],
  ◌∷◌, ◌++◌, map, ◌&&◌, ◌||◌, arith, if◌then◌else◌, is_blank, All, ◌==◌, leb, Bool-cases,
}
use policy_pilot.Prelude.Text.{Text, same, same_iff, codes}

pub data WireScope : Type 0 where
  domestic international : WireScope

pub data ChargeBearer : Type 0 where
  debt cred shar slev : ChargeBearer

pub data AccountIdentificationScheme : Type 0 where
  iban bban proprietary_account : AccountIdentificationScheme

pub data FinancialInstitutionIdScheme : Type 0 where
  bicfi clearing_system proprietary : FinancialInstitutionIdScheme

pub record PostalAddress : Type 0 where
  pub street_name : Option String
  pub building_number : Option String
  pub post_code : Option String
  pub town_name : Option String
  pub country_sub_division : Option String
  pub country : String
  pub address_lines : List String

pub record PartyIdentification : Type 0 where
  pub name : String
  pub postal_address : Option PostalAddress
  pub organisation_identification : Option String
  pub country_of_residence : Option String

pub record CashAccount : Type 0 where
  pub identification_scheme : AccountIdentificationScheme
  pub identification : String
  pub currency : Option String
  pub name : Option String

pub record FinancialInstitutionIdentification : Type 0 where
  pub scheme : FinancialInstitutionIdScheme
  pub identification : String
  pub name : Option String
  pub clearing_system_id : Option String

pub record BranchAndFinancialInstitutionIdentification : Type 0 where
  pub financial_institution : FinancialInstitutionIdentification
  pub name : Option String
  pub country : Option String

pub record AgentWithAccount : Type 0 where
  pub agent : BranchAndFinancialInstitutionIdentification
  pub account : Option CashAccount

pub record InstructionForAgent : Type 0 where
  pub code : Option String
  pub instruction_information : Option String

pub record FundingAccount : Type 0 where
  pub account_id : String
  pub account_name : Option String
  pub owning_lob : Text

-- The fields from `wire_scope` to `instructions_for_next_agent`, which a request and an instruction
-- have in common.
pub record Route : Type 0 where
  pub wire_scope : WireScope
  pub currency : String
  pub funding_account : FundingAccount
  pub initiating_party : Option PartyIdentification
  pub ultimate_debtor : Option PartyIdentification
  pub debtor : PartyIdentification
  pub debtor_account : CashAccount
  pub debtor_agent : BranchAndFinancialInstitutionIdentification
  pub debtor_agent_account : Option CashAccount
  pub instructing_agent : Option BranchAndFinancialInstitutionIdentification
  pub instructed_agent : Option BranchAndFinancialInstitutionIdentification
  pub previous_instructing_agents : List AgentWithAccount
  pub intermediary_agents : List AgentWithAccount
  pub creditor_agent : BranchAndFinancialInstitutionIdentification
  pub creditor_agent_account : Option CashAccount
  pub creditor : PartyIdentification
  pub creditor_account : CashAccount
  pub ultimate_creditor : Option PartyIdentification
  pub charge_bearer : ChargeBearer
  pub instructions_for_creditor_agent : List InstructionForAgent
  pub instructions_for_next_agent : List InstructionForAgent

abbrev pub scope_value : WireScope → String
scope_value domestic = "DOMESTIC"
scope_value international = "INTERNATIONAL"

abbrev pub is_international : WireScope → Bool
is_international international = true
is_international domestic = false

abbrev pub is_bicfi : FinancialInstitutionIdScheme → Bool
is_bicfi bicfi = true
is_bicfi _ = false

abbrev pub is_clearing_system : FinancialInstitutionIdScheme → Bool
is_clearing_system clearing_system = true
is_clearing_system _ = false

abbrev pub is_iban_or_bban : AccountIdentificationScheme → Bool
is_iban_or_bban iban = true
is_iban_or_bban bban = true
is_iban_or_bban proprietary_account = false

-- `_agent_requires_bicfi`
abbrev pub agent_requires_bicfi : BranchAndFinancialInstitutionIdentification → Bool
agent_requires_bicfi agent = is_bicfi agent.financial_institution.scheme

abbrev pub optional : {A : Type 0} → Option A → List A
optional none = []
optional (some a) = a ∷ []

-- `international_agents`
unfoldable pub international_agents : Route → List BranchAndFinancialInstitutionIdentification
international_agents r =
    r.debtor_agent ∷ r.creditor_agent ∷ map (λ hop. hop.agent) r.intermediary_agents
    ++ (map (λ hop. hop.agent) r.previous_instructing_agents
        ++ (optional r.instructing_agent ++ optional r.instructed_agent))

unfoldable pub all_bicfi : List BranchAndFinancialInstitutionIdentification → Bool
all_bicfi [] = true
all_bicfi (a ∷ as_) = agent_requires_bicfi a && all_bicfi as_

abbrev pub missing : Option String → Bool
missing none = true
missing (some s) = is_blank s

-- The message of the rule that a route breaks first. The two loops over hops whose account has no
-- agent find none, since the agent of a hop is a required field.
unfoldable pub validate_route_rules : Text → Route → Option String
validate_route_rules owning_lob r =
    if not (same r.funding_account.owning_lob owning_lob)
    then some "funding_account.owning_lob must match instruction owning_lob"
    else if is_international r.wire_scope && not (all_bicfi (international_agents r))
    then some "international wires require BICFI on all agents in the payment chain"
    else if is_international r.wire_scope
        && not (is_iban_or_bban r.creditor_account.identification_scheme)
    then some "international wires require creditor_account IBAN or BBAN"
    else if not (is_international r.wire_scope)
        && (is_clearing_system r.creditor_agent.financial_institution.scheme
            && missing r.creditor_agent.financial_institution.clearing_system_id)
    then some "domestic wires with CLEARING_SYSTEM require clearing_system_id"
    else none

-- `[A-Z0-9_]*$`; `$` also matches before a newline that ends the text.
unfoldable pub desk_rest : Text → Bool
desk_rest [] = true
desk_rest (c ∷ cs) =
    (c == 10 && same cs [])
    || (((leb b'A' c && leb c b'Z') || ((leb b'0' c && leb c b'9') || c == b'_')) && desk_rest cs)

-- `DESK_[A-Z][A-Z0-9_]*$`
unfoldable pub desk_name : Text → Bool
desk_name (d ∷ e ∷ s ∷ k ∷ u ∷ a ∷ rest) =
    same (d ∷ e ∷ s ∷ k ∷ u ∷ []) (codes "DESK_") && ((leb b'A' a && leb a b'Z') && desk_rest rest)
desk_name _ = false

abbrev pub is_word : Text → Text → Bool
is_word word value = same value word || same value (word ++ 10 ∷ [])

-- `OWNING_LOB_PATTERN.match(value)`
unfoldable pub is_valid_owning_lob : Text → Bool
is_valid_owning_lob value =
    is_word (codes "FICC") value || (is_word (codes "FX") value || desk_name value)
