-- ===== src/Payment/Authorization.antt =====
-- ps/authorization.py: the evidence block that is kept of a policy decision.
use policy_pilot.Prelude.{
  String, true, false, not, Option, none, some, List, [], ◌∷◌, ◌&&◌, str_eq, if◌then◌else◌, select,
  or_empty, is_blank,
}
use Prim.Native.String.{◌++◌ as ◌<>◌}
use text.Mathlib.Text.{starts_with}
use policy_pilot.Payment.Model.{
  PaymentAction, Subject, Payment, PolicyDecision, allowed_because, denied_for, ResourceContext,
  AuthorizationBlock, Details, no_details, status_value, subject_at_decision,
}

abbrev alert_prefix : String
alert_prefix = "ALERT_"

unfoldable pub display_name : Subject → String
display_name subject =
    let given = or_empty subject.given_name in
    let family = or_empty subject.family_name in
    if not (is_blank given) && not (is_blank family)
    then family <> ", " <> given <> " (" <> subject.user_id <> ")"
    else subject.user_id

unfoldable pub payment_resource_context : Payment → String → String → ResourceContext
payment_resource_context p instruction_status instruction_end_date = record {
  payment_id = p.payment_id;
  instruction_id = p.instruction_id;
  instruction_owning_lob = p.owning_lob;
  instruction_status = if is_blank instruction_status then "APPROVED" else instruction_status;
  instruction_end_date = instruction_end_date;
  payment_amount = p.amount;
  payment_currency = p.currency;
  payment_status = status_value p.status;
  created_by_user_id = p.created_by.user_id;
}

-- The loop over the codes; `fallback` is what is returned after it.
primary_from : List String → String → String
primary_from [] fallback = fallback
primary_from (code ∷ rest) fallback =
    let later = primary_from rest fallback in if starts_with code alert_prefix then code else later

unfoldable pub primary_violation : List String → String
unfolding primary_from
primary_violation [] = "POLICY_DENIED"
primary_violation (code ∷ rest) = primary_from (code ∷ rest) code

-- The codes stand in the summary; the labels that the code prints for them are not kept.
unfoldable pub build_authorization_block :
    PolicyDecision → Subject → PaymentAction → ResourceContext → AuthorizationBlock
unfolding display_name primary_violation subject_at_decision
build_authorization_block decision subject action context =
    let actor = display_name subject in
    if decision.allowed
    then record {
      action = action;
      allow = true;
      subject_at_decision = subject_at_decision subject;
      resource_context = context;
      allow_basis = decision.allow_basis;
      violations = [];
      is_alert = false;
      summary = allowed_because actor action decision.allow_basis;
    }
    else let primary = primary_violation decision.violations in
      record {
        action = action;
        allow = false;
        subject_at_decision = subject_at_decision subject;
        resource_context = context;
        allow_basis = [];
        violations = decision.violations;
        is_alert = decision.is_alert;
        summary =
            denied_for actor action primary
              (select (λ code. not (str_eq code primary)) decision.violations);
      }

unfoldable pub details_with_authorization : Option Details → AuthorizationBlock → Details
details_with_authorization none block = record no_details { authorization = some block }
details_with_authorization (some details) block = record details { authorization = some block }
