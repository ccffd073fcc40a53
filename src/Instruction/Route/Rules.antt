-- ===== src/Instruction/Route/Rules.antt =====
-- The rules for a settlement route, as conditions.
use policy_pilot.Prelude.{◌≡◌, ◌⊎◌, false, Option, none, some, All}
use policy_pilot.Prelude.Text.{Text}
use policy_pilot.Instruction.Route.{
  domestic, international, iban, bban, bicfi, clearing_system, AgentWithAccount,
  BranchAndFinancialInstitutionIdentification, missing, Route,
}

-- An agent is identified by a BIC.
abbrev pub HasBic : BranchAndFinancialInstitutionIdentification → Type 0
HasBic agent = agent.financial_institution.scheme ≡ bicfi

-- An agent that may be absent, and the hops on the way.
abbrev pub HasBicIf : Option BranchAndFinancialInstitutionIdentification → Type 0
HasBicIf none = Unit
HasBicIf (some agent) = HasBic agent

abbrev pub HopHasBic : AgentWithAccount → Type 0
HopHasBic hop = HasBic hop.agent

-- Every agent of the chain has a BIC: of the debtor and of the creditor, on the way, and those that
-- instruct and are instructed.
pub record HasBics (r : Route) : Type 0 where
  pub debtor : HasBic r.debtor_agent
  pub creditor : HasBic r.creditor_agent
  pub intermediary : All HopHasBic r.intermediary_agents
  pub previous : All HopHasBic r.previous_instructing_agents
  pub instructing : HasBicIf r.instructing_agent
  pub instructed : HasBicIf r.instructed_agent

-- The funding account belongs to the profit center of the instruction. An international wire has a
-- BIC for every agent of its chain and pays to an IBAN or a BBAN; a domestic one names the clearing
-- system, if the creditor's agent is identified by it.
pub record IsRoutable (owning_lob : Text) (r : Route) : Type 0 where
  pub own_account : r.funding_account.owning_lob ≡ owning_lob
  pub bics : r.wire_scope ≡ international → HasBics r
  pub account :
      r.wire_scope ≡ international
      → (r.creditor_account.identification_scheme ≡ iban)
        ⊎ (r.creditor_account.identification_scheme ≡ bban)
  pub clearing :
      r.wire_scope ≡ domestic
      → r.creditor_agent.financial_institution.scheme ≡ clearing_system
      → missing r.creditor_agent.financial_institution.clearing_system_id ≡ false
