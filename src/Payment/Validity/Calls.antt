-- ===== src/Payment/Validity/Calls.antt =====
-- The operations of `PaymentService` as calls, and sequences of calls.
use policy_pilot.Prelude.{String, Option, List, [], ◌∷◌}
use policy_pilot.Prelude.Text.{Text}
use policy_pilot.Mongo.{IsLawful}
use policy_pilot.Payment.Model.{Amount, Subject}
use policy_pilot.Payment.Repository.Versions.{document_key}
use policy_pilot.Payment.Platform.{Credentials, Platform, Store}
use policy_pilot.Payment.Service.Create.{create_op}
use policy_pilot.Payment.Service.Update.{update_op}
use policy_pilot.Payment.Service.Submit.{submit_op}
use policy_pilot.Payment.Service.Approve.{approve_op}
use policy_pilot.Payment.Service.Reject.{reject_op}
use policy_pilot.Payment.Service.Cancel.{cancel_op}
use policy_pilot.Payment.Validity.{IsSound}
use policy_pilot.Payment.Validity.Operations.{
  Preserves-create_op, Preserves-update_op, Preserves-submit_op, Preserves-approve_op,
  Preserves-reject_op, Preserves-cancel_op,
}

-- The calls that change payments, with what a request carries.
pub data Call : Type 0 where
  create_call : Text → String → Amount → Subject → Credentials → Option String → Call
  update_call : Text → Text → String → Amount → Subject → Credentials → Call
  submit_call : Text → Subject → Credentials → Option String → Call
  approve_call : Text → Subject → Credentials → Option String → Call
  reject_call : Text → Subject → String → Credentials → Option String → Call
  cancel_call : Text → Subject → Option String → Credentials → Option String → Call

module _ (P : Platform) where
  -- The store after a call, whether it returned or raised.
  unfoldable pub serve : Call → Store P → Store P
  serve (create_call i v a subject creds audit) s = (create_op P i v a subject creds audit s).1
  serve (update_call id i v a subject creds) s = (update_op P id i v a subject creds s).1
  serve (submit_call id subject creds audit) s = (submit_op P id subject creds audit s).1
  serve (approve_call id subject creds audit) s = (approve_op P id subject creds audit s).1
  serve (reject_call id subject reason creds audit) s =
      (reject_op P id subject reason creds audit s).1
  serve (cancel_call id subject reason creds audit) s =
      (cancel_op P id subject reason creds audit s).1

  -- The store after a sequence of calls.
  unfoldable pub serve_all : List Call → Store P → Store P
  serve_all [] s = s
  serve_all (c ∷ cs) s = serve_all cs (serve c s)

module _ (P : Platform) (L : IsLawful document_key P.Payments) where
  serve-IsSound : (c : Call) (s : Store P) → IsSound P s → IsSound P (serve P c s)
  unfolding serve
  serve-IsSound (create_call i v a subject creds audit) =
      (Preserves-create_op P L i v a subject creds audit).at
  serve-IsSound (update_call id i v a subject creds) =
      (Preserves-update_op P L id i v a subject creds).at
  serve-IsSound (submit_call id subject creds audit) =
      (Preserves-submit_op P L id subject creds audit).at
  serve-IsSound (approve_call id subject creds audit) =
      (Preserves-approve_op P L id subject creds audit).at
  serve-IsSound (reject_call id subject reason creds audit) =
      (Preserves-reject_op P L id subject reason creds audit).at
  serve-IsSound (cancel_call id subject reason creds audit) =
      (Preserves-cancel_op P L id subject reason creds audit).at

  -- Over a lawful collection, any sequence of calls that starts with valid version chains ends with
  -- valid version chains, whichever of the calls raise.
  pub serve_all-IsSound :
      (cs : List Call) (s : Store P) → IsSound P s → IsSound P (serve_all P cs s)
  unfolding serve_all
  serve_all-IsSound [] s v = v
  serve_all-IsSound (c ∷ cs) s v = serve_all-IsSound cs (serve P c s) (serve-IsSound c s v)
