-- ===== src/Instruction/Calls/Replay.antt =====
-- Sequences of calls of `InstructionService`, as sequences of changes of the machine.
use policy_pilot.Prelude.{
  ◌≤◌, ◌≡◌, ◌↔◌, refl, sym, ap, ◌∙◌, Option, none, some, List, [], ◌∷◌, inl, inr, Bool-cases,
}
use cubical.Cubical.Foundations.Prelude.{fun_ext}
use mathlib.Core.Path.{subst}
use mathlib.Core.Option.{some-injective}
use policy_pilot.Prelude.Text.{Text, same}
use policy_pilot.Prelude.Exec.{Result, ok, err}
use policy_pilot.Mongo.{IsLawful}
use policy_pilot.Instruction.Model.{single_use, used}
use policy_pilot.Instruction.Storage.{VersionedInstruction}
use policy_pilot.Instruction.Repository.{Error}
use policy_pilot.Instruction.Platform.{Platform, Store}
use policy_pilot.Instruction.Machine.{
  State, Change, next, IsCounted, next-IsCounted, IsCounted-single_use,
}
use policy_pilot.Instruction.Saving.{document_key, event_key}
use policy_pilot.Instruction.Calls.{Call, serve, serve_all}
use policy_pilot.Instruction.Calls.Keeping.{serve-IsFailsafe}
use policy_pilot.Instruction.Calls.Refinement.{
  View, put, created_state, Effect, creates, changes, after_creation, after_change, changed_from,
  apply, effect_of, view, IsSound, serve-Refines,
}

abbrev and_then : Option View → (View → Option View) → Option View
and_then none f = none
and_then (some v) f = f v

-- The effects, one after another, as long as the machine allows them.
unfoldable pub replay : List Effect → View → Option View
replay [] v = some v
replay (e ∷ es) v = and_then (apply e v) (λ w. replay es w)

replay-cons :
    (e : Effect) (es : List Effect) (v : View) {w : View}
    → apply e v ≡ some w
    → replay (e ∷ es) v ≡ replay es w
unfolding replay
replay-cons e es v h = ap (λ o. and_then o (λ w. replay es w)) h

-- Every state in a view obeys the count of uses.
abbrev pub AllCounted : View → Type 0
AllCounted v = (j : Text) (x : State) → v j ≡ some x → IsCounted x

put-AllCounted :
    (id : Text) (y : State) (v : View) → IsCounted y → AllCounted v → AllCounted (put id y v)
put-AllCounted id y v k all j x h = elim (Bool-cases (same j id)) [
  | inl own ↦ subst IsCounted (some-injective _ _ (rw own at h)) k
  | inr other ↦ all j x (rw other at h)
]

pub applied_change :
    (id : Text) (c : Change) (v : View) {w : View}
    → apply (changes id c) v ≡ some w
    → (x : State) × (y : State) × (v id ≡ some x) × (next c x ≡ some y) × (w ≡ put id y v)
applied_change id c v {w} h = go (v id) refl h
  where
    last :
        (x : State) (r : Option State)
        → v id ≡ some x
        → next c x ≡ r
        → after_change id v r ≡ some w
        → (x : State) × (y : State) × (v id ≡ some x) × (next c x ≡ some y) × (w ≡ put id y v)
    last x none known n k = cc
    last x (some y) known n k = (x, y, known, n, sym (some-injective _ _ k))

    go :
        (o : Option State)
        → v id ≡ o
        → after_change id v (changed_from c o) ≡ some w
        → (x : State) × (y : State) × (v id ≡ some x) × (next c x ≡ some y) × (w ≡ put id y v)
    go none known k = cc
    go (some x) known k = last x (next c x) known refl k

apply-AllCounted :
    (e : Effect) (v : View) {w : View} → apply e v ≡ some w → AllCounted v → AllCounted w
apply-AllCounted (creates id t) v {w} h all = go (v id) h
  where
    go : (o : Option State) → after_creation id t v o ≡ some w → AllCounted w
    go none k =
        subst AllCounted (some-injective _ _ k) (put-AllCounted id (created_state t) v refl all)
    go (some x) k = cc
apply-AllCounted (changes id c) v h all =
    let (x, y, known, n, is) = applied_change id c v h in
    rw is (put-AllCounted id y v (next-IsCounted c x (all id x known) n) all)

module _ (P : Platform) where
  -- The effects of the calls that return.
  abbrev pub effects_after : Call → Result Error VersionedInstruction → List Effect → List Effect
  effects_after call (ok saved) rest = effect_of call saved ∷ rest
  effects_after call (err e) rest = rest

  unfoldable pub effects : List Call → Store P → List Effect
  effects [] s = []
  effects (call ∷ calls) s =
      effects_after call (serve P call s).0 (effects calls (serve P call s).1)

  module _ (L : IsLawful document_key P.Instructions) (M : IsLawful event_key P.Events) where
    pub view_same : (s t : Store P) → t.items ≡ s.items → view P t ≡ view P s
    view_same s t h = rw h refl

    -- If the version chains are valid, the states that clients see after any calls are those that
    -- the machine reaches by the effects of the calls that returned; and the chains stay valid.
    pub serve_all-replay :
        (calls : List Call) (s : Store P)
        → IsSound P s
        → (replay (effects calls s) (view P s) ≡ some (view P (serve_all P calls s)))
          × IsSound P (serve_all P calls s)
    unfolding replay effects serve_all
    serve_all-replay [] s valid = (refl, valid)
    serve_all-replay (call ∷ calls) s valid =
        go (λ t sound. serve_all-replay calls t sound) (serve P call s) refl
      where
        go :
            ((t : Store P)
              → IsSound P t
              → (replay (effects calls t) (view P t) ≡ some (view P (serve_all P calls t)))
                × IsSound P (serve_all P calls t))
            → (r : Result Error VersionedInstruction × Store P) → serve P call s ≡ r
            → (replay (effects_after call r.0 (effects calls r.1)) (view P s)
                ≡ some (view P (serve_all P calls r.1)))
              × IsSound P (serve_all P calls r.1)
        go rest (ok saved, t) h =
            let k = serve-Refines P L M call s h valid in
            let (replayed, sound) = rest t k.sound in
            (
              replay-cons (effect_of call saved) (effects calls t) (view P s) k.applied
                  ∙ ap (replay (effects calls t)) (sym (fun_ext k.seen))
                  ∙ replayed,
              sound,
            )
        go rest (err e, t) h =
            let kept : t.items ≡ s.items = (serve-IsFailsafe P call).at s h in
            let (replayed, sound) = rest t (rw kept valid) in
            (rw (sym (view_same s t kept)) replayed, sound)

    replay-AllCounted :
        (es : List Effect) (v : View) {w : View}
        → replay es v ≡ some w
        → AllCounted v
        → AllCounted w
    unfolding replay
    replay-AllCounted [] v h all = subst AllCounted (some-injective _ _ h) all
    replay-AllCounted (e ∷ es) v {w} h all =
        go (λ u r k. replay-AllCounted es u r k) (apply e v) refl h
      where
        go :
            ((u : View) → replay es u ≡ some w → AllCounted u → AllCounted w)
            → (o : Option View) → apply e v ≡ o
            → and_then o (λ u. replay es u) ≡ some w
            → AllCounted w
        go rest none k r = cc
        go rest (some u) k r = rest u r (apply-AllCounted e v k all)

    -- If the chains are valid and every recorded count of uses is right, then after any calls, whichever
    -- of them raise, the recorded count of a single-use instruction, which a release takes back, is at
    -- most 1, and the instruction is USED exactly if that count is 1.
    pub serve_all-single_use :
        (calls : List Call) (s : Store P)
        → IsSound P s
        → AllCounted (view P s)
        → (id : Text) {x : State} → view P (serve_all P calls s) id ≡ some x
        → x.instruction_type ≡ single_use
        → (x.usage_count ≤ 1) × ((x.status ≡ used) ↔ (x.usage_count ≡ 1))
    serve_all-single_use calls s valid all id {x} seen single =
        let (replayed, _) = serve_all-replay calls s valid in
        IsCounted-single_use x
          (replay-AllCounted (effects calls s) (view P s) replayed all id x seen) single
