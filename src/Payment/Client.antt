-- ===== src/Payment/Client.antt =====
-- ps/instruction_client.py: the calls of the instruction-service and their errors.
use policy_pilot.Prelude.{ℕ, Bool, true, false, not, none, some, ◌&&◌, ◌==◌, leb, if◌then◌else◌}
use policy_pilot.Prelude.Text.{Text}
use policy_pilot.Prelude.Exec.{Result, ok, err, pure, raise_if, ◌>>=◌, ◌>>◌}
use policy_pilot.Payment.Errors.{
  Error, permission_error, other_error, instruction_not_found, instruction_state,
  instruction_client_error, http_status_error,
}
use policy_pilot.Payment.Instruction.{InstructionJson}
use policy_pilot.Payment.Platform.{
  Credentials, has_token, Request, get_instruction_request, use_request, release_use_request,
  Response, Platform, Svc, ask, call_out, raising, check,
}

-- `resp.raise_for_status()` of httpx: every answer but a 2xx raises.
abbrev pub is_success : ℕ → Bool
is_success status = leb 200 status && leb status 299

-- `_raise_for_instruction_status`
unfoldable pub raise_for_instruction_status : Response → Text → Result Error (Unit {0})
raise_for_instruction_status resp instruction_id =
    if resp.status_code == 403
    then err (permission_error "detail of the response")
    else if resp.status_code == 404
    then err (instruction_not_found instruction_id)
    else if is_success resp.status_code
    then ok tt
    else err (http_status_error resp.status_code)

-- `resp.json()`
abbrev pub json : Response → Result Error InstructionJson
json resp = elim resp.body [ some j ↦ ok j | none ↦ err (other_error "response is not JSON") ]

-- The checks of `mark_used` and `release_use` before the common ones.
unfoldable pub raise_for_use_status : Response → Text → Result Error (Unit {0})
raise_for_use_status resp instruction_id =
    if resp.status_code == 404
    then err (instruction_not_found instruction_id)
    else if resp.status_code == 409
    then err (instruction_state instruction_id)
    else ok tt

module _ (P : Platform) where
  -- `await service_identity.ensure_logged_in()`, if a test holds
  unfoldable pub log_in_if : Bool → Svc P (Unit {0})
  log_in_if false = pure tt
  log_in_if true = call_out P (λ w. let (e, w') = P.ensure_logged_in w in (raising e, w'))

  -- `_auth_headers`; the headers carry the service's token and the caller's credentials.
  unfoldable pub auth_headers : Credentials → Svc P (Unit {0})
  auth_headers creds = do
    before ← ask P (λ w. (P.logged_in w, w))
    log_in_if (has_token creds.bearer_token && not before)
    after ← ask P (λ w. (P.logged_in w, w))
    raise_if (not after) (instruction_client_error "payment service identity not logged in")
    raise_if (not (has_token creds.bearer_token))
        (instruction_client_error "user token is required")

  -- `client.get` and `client.post`; no answer is an exception of httpx.
  unfoldable pub exchange : Request → Credentials → Svc P Response
  exchange request creds = call_out P (λ w.
      let (answer, w') = P.send request creds w in
      (elim answer [ some resp ↦ ok resp | none ↦ err (other_error "no answer") ], w'))

  unfoldable pub get_instruction : Text → Credentials → Svc P InstructionJson
  get_instruction instruction_id creds = do
    auth_headers creds
    resp ← exchange (get_instruction_request instruction_id) creds
    check P (raise_for_instruction_status resp instruction_id)
    check P (json resp)

  unfoldable pub mark_used : Text → Text → Credentials → Svc P InstructionJson
  mark_used instruction_id payment_id creds = do
    auth_headers creds
    resp ← exchange (use_request instruction_id payment_id) creds
    check P (raise_for_use_status resp instruction_id)
    check P (raise_for_instruction_status resp instruction_id)
    check P (json resp)

  unfoldable pub release_use : Text → Text → Credentials → Svc P InstructionJson
  release_use instruction_id payment_id creds = do
    auth_headers creds
    resp ← exchange (release_use_request instruction_id payment_id) creds
    check P (raise_for_use_status resp instruction_id)
    check P (raise_for_instruction_status resp instruction_id)
    check P (json resp)
