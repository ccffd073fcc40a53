-- ===== src/Instruction/Calls/Using.antt =====
-- `use` and `release_use` of a single-use instruction, one after the other.
use policy_pilot.Prelude.{
  ◌≡◌, refl, sym, ap, ◌∙◌, String, Bool, true, false, Option, none, some, List, [], ◌∷◌, All, arith,
  inl, inr, Bool-cases, if◌then◌else◌,
}
use mathlib.Core.Path.{subst}
use mathlib.Core.Option.{some-injective}
use policy_pilot.Prelude.Text.{Text, same, same_iff, same_refl}
use policy_pilot.Prelude.Exec.{Result, ok, err}
use policy_pilot.Mongo.{IsLawful}
use policy_pilot.Payment.Model.{Subject}
use policy_pilot.Instruction.Model.{single_use, approved, used}
use policy_pilot.Instruction.Storage.{VersionedInstruction}
use policy_pilot.Instruction.Platform.{Caller, Platform, Store}
use policy_pilot.Instruction.Machine.{
  State, Change, to_type, to_submitted, to_approved, to_rejected, to_suspended, to_reactivated,
  to_cancelled, next, to_used, to_released, use_state, IsCounted, release-use,
}
use policy_pilot.Instruction.Saving.{document_key, event_key}
use policy_pilot.Instruction.Service.Use.{use_instruction, release_instruction}
use policy_pilot.Instruction.Repository.{Error}
use policy_pilot.Instruction.Calls.{
  Call, create_call, update_call, cancel_call, submit_call, approve_call, suspend_call,
  reactivate_call, reject_call, use_call, release_call, serve, serve_all,
}
use policy_pilot.Instruction.Calls.Keeping.{serve_fails}
use policy_pilot.Instruction.Calls.Refinement.{
  View, Effect, creates, changes, effect_of, apply, after_creation, created_state, put, view,
  IsSound, serve-Refines,
}
use policy_pilot.Instruction.Calls.Replay.{applied_change, view_same}

used_from :
    (payment : Text) (x : State) {y : State}
    → next (to_used payment) x ≡ some y
    → (x.status ≡ approved) × (y ≡ use_state payment x)
used_from payment x h = (ground arith, ground arith)

used_status :
    (payment : Text) (x : State)
    → x.instruction_type ≡ single_use
    → (use_state payment x).status ≡ used
used_status payment x h = ground arith

put_back :
    (id : Text) (x y : State) (v : View) (j : Text) → v id ≡ some x → put id x (put id y v) j ≡ v j
put_back id x y v j h = elim (Bool-cases (same j id)) [
  | inl own ↦ rw own (sym h ∙ ap v (sym ((same_iff j id).0 own)))
  | inr other ↦ rw other refl
]

-- A call that releases the instruction `id`, and an effect that does.
abbrev pub releases : Text → Call → Bool
releases id (release_call i subject payment caller) = same id i
releases id _ = false

abbrev frees : Text → Effect → Bool
frees id (changes i (to_released payment)) = same id i
frees id _ = false

frees-effect_of :
    (id : Text) (call : Call) (saved : VersionedInstruction)
    → frees id (effect_of call saved) ≡ releases id call
frees-effect_of id (create_call request subject caller) saved = refl
frees-effect_of id (update_call i request subject caller) saved = refl
frees-effect_of id (cancel_call i subject reason caller) saved = refl
frees-effect_of id (submit_call i subject caller) saved = refl
frees-effect_of id (approve_call i subject caller) saved = refl
frees-effect_of id (suspend_call i subject caller) saved = refl
frees-effect_of id (reactivate_call i subject caller) saved = refl
frees-effect_of id (reject_call i subject reason caller) saved = refl
frees-effect_of id (use_call i subject payment end_to_end caller) saved = refl
frees-effect_of id (release_call i subject payment caller) saved = refl

-- The instruction `id` is USED.
abbrev IsHeld : Text → View → Type 0
IsHeld id v = (x : State) × (v id ≡ some x) × (x.status ≡ used)

-- A USED instruction is only changed by a release.
next_used :
    (id i : Text) (c : Change) (x : State) {y : State}
    → x.status ≡ used
    → next c x ≡ some y
    → same id i ≡ true
    → frees id (changes i c) ≡ true
next_used id i (to_type t) x was h own = ground arith
next_used id i to_submitted x was h own = ground arith
next_used id i to_approved x was h own = ground arith
next_used id i to_rejected x was h own = ground arith
next_used id i to_suspended x was h own = ground arith
next_used id i to_reactivated x was h own = ground arith
next_used id i to_cancelled x was h own = ground arith
next_used id i (to_used payment) x was h own = ground arith
next_used id i (to_released payment) x was h own = own

put_other :
    (id i : Text) (y : State) (v : View) → same id i ≡ false → IsHeld id v → IsHeld id (put i y v)
put_other id i y v other (x, known, was) = (x, rw other known, was)

apply-IsHeld :
    (id : Text) (e : Effect) (v : View) {w : View}
    → apply e v ≡ some w
    → frees id e ≡ false
    → IsHeld id v
    → IsHeld id w
apply-IsHeld id (creates i t) v {w} h keeps held = go (v i) refl h
  where
    go : (o : Option State) → v i ≡ o → after_creation i t v o ≡ some w → IsHeld id w
    go (some x) is k = cc
    go none is k = elim (Bool-cases (same id i)) [
      | inl own ↦
          let (x, known, was) = held in let at : v id ≡ v i = ap v ((same_iff id i).0 own) in cc
      | inr other ↦
          subst (IsHeld id) (some-injective _ _ k) (put_other id i (created_state t) v other held)
    ]
apply-IsHeld id (changes i c) v h keeps held =
    let (x, y, known, n, is) = applied_change i c v h in
    elim (Bool-cases (same id i)) [
      | inl own ↦
          let (x', known', was) = held in
          let at : v id ≡ v i = ap v ((same_iff id i).0 own) in
          let is_x : x' ≡ x = some-injective _ _ (sym known' ∙ at ∙ known) in
          let freed = next_used id i c x (rw (sym is_x) was) n own in cc
      | inr other ↦ rw is (put_other id i y v other held)
    ]

module _ (P : Platform) (L : IsLawful document_key P.Instructions)
    (M : IsLawful event_key P.Events) where
  -- If a single-use instruction with a right count of uses is used for a payment and released by the
  -- same payment, and both calls return, every instruction is in the state that it had before.
  pub release_instruction-use_instruction :
      (id payment : Text) (one two : Subject) (end_to_end : Option String) (caller other : Caller)
      (s : Store P) {x : State} {a b : VersionedInstruction} {t u : Store P}
      → IsSound P s
      → view P s id ≡ some x
      → IsCounted x
      → x.instruction_type ≡ single_use
      → use_instruction P id one payment end_to_end caller s ≡ (ok a, t)
      → release_instruction P id two payment other t ≡ (ok b, u)
      → (j : Text) → view P u j ≡ view P s j
  unfolding serve
  release_instruction-use_instruction id payment one two end_to_end caller other s {x} {t = t} valid
        seen counted single taken released j =
      let k = serve-Refines P L M (use_call id one payment end_to_end caller) s taken valid in
      let l = serve-Refines P L M (release_call id two payment other) _ released k.sound in
      let (x', y, known, n, is) = applied_change id (to_used payment) (view P s) k.applied in
      let (y', z, known', n', is') = applied_change id (to_released payment) (view P t) l.applied in
      let same_x : x' ≡ x = some-injective _ _ (sym known ∙ seen) in
      let (was, used_) = used_from payment x' n in
      let same_y : y' ≡ use_state payment x = some-injective _ _ (
        sym known'
        ∙ k.seen id
        ∙ ap (λ v. v id) is
        ∙ ap (λ b. if b then some y else view P s id) (same_refl id)
        ∙ ap some (used_ ∙ ap (use_state payment) same_x)) in
      let same_z : z ≡ x = some-injective _ _ (
        sym n'
        ∙ ap (next (to_released payment)) same_y
        ∙ release-use payment x counted single (rw (sym same_x) was)) in
      l.seen j
      ∙ ap (λ v. v j) is'
      ∙ ap (λ w. put id w (view P t) j) same_z
      ∙ ap (λ o. if same j id then some x else o) (k.seen j ∙ ap (λ v. v j) is)
      ∙ put_back id x y (view P s) j seen

  serve-IsHeld :
      (id : Text) (call : Call) (s : Store P) {saved : VersionedInstruction} {t : Store P}
      → serve P call s ≡ (ok saved, t)
      → IsSound P s
      → releases id call ≡ false
      → IsHeld id (view P s)
      → IsHeld id (view P t)
  serve-IsHeld id call s {saved} {t} h valid keeps held =
      let k = serve-Refines P L M call s h valid in
      let (x, known, was) =
        apply-IsHeld id (effect_of call saved) (view P s) k.applied
          (frees-effect_of id call saved ∙ keeps) held in
      (x, k.seen id ∙ known, was)

  serve_all-IsHeld :
      (id : Text) (calls : List Call) (s : Store P)
      → IsSound P s
      → All (λ call. releases id call ≡ false) calls
      → IsHeld id (view P s)
      → IsSound P (serve_all P calls s) × IsHeld id (view P (serve_all P calls s))
  unfolding serve_all
  serve_all-IsHeld id [] s valid keep held = (valid, held)
  serve_all-IsHeld id (call ∷ calls) s valid (keeps, keep) held =
      go (λ t sound h. serve_all-IsHeld id calls t sound keep h) (serve P call s) refl
    where
      go :
          ((t : Store P)
            → IsSound P t
            → IsHeld id (view P t)
            → IsSound P (serve_all P calls t) × IsHeld id (view P (serve_all P calls t)))
          → (r : Result Error VersionedInstruction × Store P) → serve P call s ≡ r
          → IsSound P (serve_all P calls r.1) × IsHeld id (view P (serve_all P calls r.1))
      go rest (ok saved, t) h =
          rest t (serve-Refines P L M call s h valid).sound
            (serve-IsHeld id call s h valid keeps held)
      go rest (err e, t) h =
          let kept = serve_fails P call s h in
          rest t (rw kept valid) (subst (IsHeld id) (sym (view_same P L M s t kept)) held)

  -- Once a single-use instruction has been used, it cannot be used again, whatever is called in between
  -- and whichever of those calls raise, as long as none of them releases it.
  pub use_instruction_once :
      (id payment second : Text) (one two : Subject) (end_to_end more : Option String)
      (caller other : Caller) (between : List Call) (s : Store P) {x : State}
      {a b : VersionedInstruction} {t u : Store P}
      → IsSound P s
      → view P s id ≡ some x
      → x.instruction_type ≡ single_use
      → use_instruction P id one payment end_to_end caller s ≡ (ok a, t)
      → All (λ call. releases id call ≡ false) between
      → ¬ (use_instruction P id two second more other (serve_all P between t) ≡ (ok b, u))
  unfolding serve
  use_instruction_once id payment second one two end_to_end more caller other between s {x} {t = t}
        valid seen single taken keep again =
      let k = serve-Refines P L M (use_call id one payment end_to_end caller) s taken valid in
      let (x', y, known, n, is) = applied_change id (to_used payment) (view P s) k.applied in
      let same_x : x' ≡ x = some-injective _ _ (sym known ∙ seen) in
      let (_, used_) = used_from payment x' n in
      let now_used : y.status ≡ used =
        ap (λ z. z.status) used_ ∙ used_status payment x' (rw same_x single) in
      let here : view P t id ≡ some y =
        k.seen id
        ∙ ap (λ v. v id) is
        ∙ ap (λ b. if b then some y else view P s id) (same_refl id) in
      let (sound, (x'', still, held)) =
        serve_all-IsHeld id between t k.sound keep (y, here, now_used) in
      let l = serve-Refines P L M (use_call id two second more other) _ again sound in
      let (y', z, known', n', is') =
        applied_change id (to_used second) (view P (serve_all P between t)) l.applied in
      let (was, _) = used_from second y' n' in
      let same_y : x'' ≡ y' = some-injective _ _ (sym still ∙ known') in cc
