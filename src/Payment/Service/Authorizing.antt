-- ===== src/Payment/Service/Authorizing.antt =====
-- What `_authorize` and `_evaluate_policy` have done when they return.
use policy_pilot.Prelude.{◌≡◌, String, Bool, true, false, not, arith}
use policy_pilot.Prelude.Exec.{ok, raise_if_ok, bind-ok, then-ok}
use policy_pilot.Payment.Model.{
  PaymentAction, Subject, PolicyDecision, AuthorizationBlock, Payment, to_opa_payment,
}
use policy_pilot.Payment.Errors.{policy_denied}
use policy_pilot.Ledger.Keeping.{ask_ok, call_out_ok}
use policy_pilot.Payment.Platform.{ledger, Credentials, EvaluateRequest, Platform, Store, has_token}
use policy_pilot.Payment.Client.{log_in_if}
use policy_pilot.Payment.Service.{evaluate_policy, enforce, authorize}

module _ (P : Platform) where
  abbrev pub request :
      PaymentAction → Subject → Payment → String → String → Credentials → EvaluateRequest
  request action subject p end_date status creds = record {
    action = action;
    payment = to_opa_payment p end_date status;
    instruction_end_date = end_date;
    instruction_status = status;
    credentials = creds;
    subject = subject;
  }

  -- The authorization-service, asked about this action on this payment, answered that it is allowed.
  pub record IsAllowed (action : PaymentAction) (subject : Subject) (p : Payment)
      (end_date status : String) (creds : Credentials) : Type 0 where
    pub before : P.World
    pub after : P.World
    pub decision : PolicyDecision
    pub answered :
        P.evaluate (request action subject p end_date status creds) before ≡ (ok decision, after)
    pub allowed : decision.allowed ≡ true
    pub has_user_token : has_token creds.bearer_token ≡ true

  pub log_in_ok :
      (b : Bool) (s : Store P) {u : Unit {0}} {t : Store P}
      → log_in_if P b s ≡ (ok u, t)
      → (t.items ≡ s.items) × (t.events ≡ s.events)
  unfolding log_in_if
  log_in_ok true s h = (ground arith, ground arith)
  log_in_ok false s h = (ground arith, ground arith)

  enforce_ok :
      (action : PaymentAction) (subject : Subject) (p : Payment) (decision : PolicyDecision)
      (block : AuthorizationBlock) (s : Store P) {b : AuthorizationBlock} {t : Store P}
      → enforce P action subject p decision block s ≡ (ok b, t)
      → (decision.allowed ≡ true) × (b ≡ block) × (t ≡ s)
  unfolding enforce
  enforce_ok action subject p decision block s h = then-ok _ _ s h λ _ s1 denied h1.
      then-ok _ _ s1 h1 λ _ s2 raised_ h2.
        let (allowed, same1) =
          raise_if_ok (not decision.allowed) (policy_denied block.summary) s1 raised_ in
        ground arith

  -- If an authorization returns, the policy engine was asked about this action on this payment with the
  -- caller's token and allowed it, and nothing was written.
  pub authorize_ok :
      (action : PaymentAction) (subject : Subject) (p : Payment) (end_date status : String)
      (creds : Credentials) (s : Store P) {block : AuthorizationBlock} {t : Store P}
      → authorize P action subject p end_date status creds s ≡ (ok block, t)
      → IsAllowed action subject p end_date status creds
        × (t.items ≡ s.items)
        × (t.events ≡ s.events)
  unfolding authorize evaluate_policy
  authorize_ok action subject p end_date status creds s h =
      bind-ok _ _ s h λ decision s1 evaluated h1. then-ok _ _ s evaluated λ _ s2 has_user h2.
        then-ok _ _ s2 h2 λ _ s3 logged h3. bind-ok _ _ s3 h3 λ is_in s4 read h4.
          then-ok _ _ s4 h4 λ _ s5 checked h5.
            let (has_user_token, same2) = raise_if_ok _ _ s has_user in
            let (p3, e3) = log_in_ok true s2 logged in
            let (p4, e4) = ask_ok (ledger P) (λ w. (P.logged_in w, w)) s3 read in
            let (_, same5) = raise_if_ok _ _ s4 checked in
            let (answered, (p6, e6)) =
              call_out_ok (ledger P) (P.evaluate (request action subject p end_date status creds))
                s5 h5 in
            let (allowed, _, same7) = enforce_ok action subject p decision _ s1 h1 in
            (
              record {
                before = s5.world;
                after = s1.world;
                decision = decision;
                answered = answered;
                allowed = allowed;
                has_user_token = ground arith;
              },
              ground arith,
              ground arith,
            )
