-- ===== src/Instruction/Viewing.antt =====
-- What `InstructionService.get` and `list` return.
use policy_pilot.Prelude.{
  ◌≡◌, refl, sym, Bool, true, false, not, List, [], ◌∷◌, arith, inl, inr, Bool-cases, All, none,
  ◌&&◌,
}
use mathlib.Core.Path.{subst}
use policy_pilot.Prelude.Text.{Text}
use policy_pilot.Prelude.Exec.{Result, ok, err, bind-ok, then-ok}
use policy_pilot.Ledger.Keeping.{pure_ok}
use policy_pilot.Payment.Model.{Subject}
use policy_pilot.Instruction.Model.{cancelled, status_eq, view, AuthorizationBlock}
use policy_pilot.Instruction.Storage.{VersionedInstruction}
use policy_pilot.Instruction.Repository.{Error, InstructionQuery}
use policy_pilot.Instruction.Platform.{Caller, Platform, ledger, Store, Svc}
use policy_pilot.Instruction.Service.{should_record_view_security_event, authorize}
use policy_pilot.Instruction.Service.Read.{
  is_permission_error, view_version, get_instruction, visible_after, visible_turn, visible,
  list_instructions,
}
use policy_pilot.Instruction.Saving.{IsAllowed, authorize_ok}
use policy_pilot.Ledger.{attempt}

-- A listing shows it.
abbrev pub IsListed : (P : Platform) → Bool → Subject → Caller → VersionedInstruction → Type 0
IsListed P include_cancelled subject caller record_ =
    IsAllowed P view subject record_.instruction caller
    × (include_cancelled ≡ false → status_eq record_.instruction.status cancelled ≡ false)

module _ (P : Platform) where
  -- A read that returns was allowed to view what it returns.
  pub get_instruction-IsAllowed :
      (id : Text) (subject : Subject) (caller : Caller) (s : Store P)
      {record_ : VersionedInstruction} {t : Store P}
      → get_instruction P id subject caller s ≡ (ok record_, t)
      → IsAllowed P view subject record_.instruction caller
  unfolding get_instruction view_version
  get_instruction-IsAllowed id subject caller s {record_} h = bind-ok _ _ s h λ found s1 read h1.
      bind-ok _ _ s1 h1 λ block s2 authorized h2. then-ok _ _ s2 h2 λ _ s3 recorded h3.
        let (allowed, _) =
          authorize_ok P view subject found.instruction caller _ none s1 authorized in
        let (is, _) = pure_ok (ledger P) found s3 h3 in
        subst (λ r. IsAllowed P view subject r.instruction caller) (sym is) allowed

  attempted :
      {A : Type 0} (m : Svc P A) (s : Store P) {a : A} {t : Store P}
      → attempt (ledger P) m s ≡ (ok (ok a), t)
      → m s ≡ (ok a, t)
  unfolding attempt
  attempted m s h = ground arith

  module _ (include_cancelled : Bool) (subject : Subject) (caller : Caller) where
    turn_ok :
        (skip : Bool) (record_ : VersionedInstruction) (rest : Svc P (List VersionedInstruction))
        (s : Store P) {rs : List VersionedInstruction} {t : Store P}
        → (not include_cancelled && status_eq record_.instruction.status cancelled) ≡ skip
        → ((u : Store P) (us : List VersionedInstruction)
            → rest u ≡ (ok us, t)
            → All (IsListed P include_cancelled subject caller) us)
        → visible_turn P skip record_ subject caller rest s ≡ (ok rs, t)
        → All (IsListed P include_cancelled subject caller) rs
    unfolding visible_turn visible_after
    turn_ok true record_ rest s {rs} skipped later h = later s rs h
    turn_ok false record_ rest s {rs} {t} kept later h =
        bind-ok _ _ s h λ answer s1 tried h1. go answer s1 tried h1
      where
        go :
            (answer : Result Error AuthorizationBlock) (s1 : Store P)
            → attempt
                (ledger P)
                (authorize P view subject record_.instruction caller
                  (should_record_view_security_event P subject)
                  none)
                s
              ≡ (ok answer, s1)
            → visible_after P answer record_ subject rest s1 ≡ (ok rs, t)
            → All (IsListed P include_cancelled subject caller) rs
        go (ok block) s1 tried h1 = then-ok _ _ s1 h1 λ _ s2 recorded h2.
            bind-ok _ _ s2 h2 λ others s3 more h3.
              let (allowed, _) =
                authorize_ok P view subject record_.instruction caller _ none s (
                  attempted (authorize P view subject record_.instruction caller _ none) s tried) in
              let (is, end) = pure_ok (ledger P) (record_ ∷ others) s3 h3 in
              subst (All (IsListed P include_cancelled subject caller)) (sym is)
                ((allowed, λ all. ground arith), later s2 others (rw (sym end) at more))
        go (err e) s1 tried h1 = elim (Bool-cases (is_permission_error e)) [
          | inl denied ↦ later s1 rs (rw denied at h1)
          | inr other ↦ absurd (ground arith)
        ]

    visible_ok :
        (records : List VersionedInstruction) (s : Store P) {rs : List VersionedInstruction}
        {t : Store P}
        → visible P include_cancelled records subject caller s ≡ (ok rs, t)
        → All (IsListed P include_cancelled subject caller) rs
    unfolding visible
    visible_ok [] s h =
        let (is, _) = pure_ok (ledger P) [] s h in
        subst (All (IsListed P include_cancelled subject caller)) (sym is) tt
    visible_ok (record_ ∷ records) s h =
        turn_ok _ record_ (visible P include_cancelled records subject caller) s refl
          (λ u us r. visible_ok records u r) h

  -- A listing that returns shows only instructions that the authorization-service allowed the subject to
  -- view, and, unless the caller asks for them, no cancelled ones.
  pub list_instructions-IsListed :
      (query : InstructionQuery) (include_cancelled : Bool) (subject : Subject) (caller : Caller)
      (s : Store P) {rs : List VersionedInstruction} {t : Store P}
      → list_instructions P query include_cancelled subject caller s ≡ (ok rs, t)
      → All (IsListed P include_cancelled subject caller) rs
  unfolding list_instructions
  list_instructions-IsListed query include_cancelled subject caller s h =
      bind-ok _ _ s h
        λ records s1 read h1. visible_ok include_cancelled subject caller records s1 h1
