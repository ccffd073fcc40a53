-- ===== src/Instruction/Machine.antt =====
-- The life of an instruction as a machine: what a change of it may be, without documents, versions,
-- tokens or evidence.
use policy_pilot.Prelude.{
  ℕ, zero, suc, ◌+◌, ◌-◌, ◌≤◌, ◌≡◌, ◌↔◌, Bool, true, false, not, Option, none, some, ◌&&◌, arith,
  if◌then◌else◌,
}
use policy_pilot.Prelude.Text.{Text, same, same_refl}
use policy_pilot.Instruction.Model.{
  InstructionType, standing, single_use, type_eq, InstructionStatus, draft, submitted, approved,
  suspended, rejected, used, cancelled, CashSettlementInstruction,
}

pub record State : Type 0 where
  pub status : InstructionStatus
  pub instruction_type : InstructionType
  pub usage_count : ℕ
  pub used_by : Option Text

abbrev pub state_of : CashSettlementInstruction → State
state_of i = record {
  status = i.status;
  instruction_type = i.instruction_type;
  usage_count = i.usage_count;
  used_by = i.used_by;
}

pub data Change : Type 0 where
  to_type : InstructionType → Change
  to_submitted to_approved to_rejected to_suspended to_reactivated to_cancelled : Change
  to_used to_released : Text → Change

-- A standing instruction counts its uses; a single-use one belongs to the payment that uses it.
abbrev pub use_state : Text → State → State
use_state payment s = elim s.instruction_type [
  | standing ↦ record s { usage_count = s.usage_count + 1 }
  | single_use ↦ record s { status = used; usage_count = s.usage_count + 1; used_by = some payment }
]

abbrev pub release_state : Text → State → Option State
release_state payment s = elim s.instruction_type [
  | standing ↦ none
  | single_use ↦ elim s.used_by [
    | none ↦ none
    | some by ↦
        if same by payment
        then some (record s { status = approved; usage_count = s.usage_count - 1; used_by = none })
        else none
  ]
]

-- The next state, if the change is allowed.
abbrev pub next_state : Change → State → InstructionStatus → Option State
next_state (to_type t) s draft = some (record s { instruction_type = t })
next_state to_submitted s draft = some (record s { status = submitted })
next_state to_approved s submitted = some (record s { status = approved })
next_state to_rejected s submitted = some (record s { status = rejected })
next_state to_suspended s approved = some (record s { status = suspended })
next_state to_reactivated s suspended = some (record s { status = approved })
next_state to_cancelled s draft = some (record s { status = cancelled })
next_state to_cancelled s submitted = some (record s { status = cancelled })
next_state (to_used payment) s approved = some (use_state payment s)
next_state (to_released payment) s used = release_state payment s
next_state _ s _ = none

abbrev pub next : Change → State → Option State
next change s = next_state change s s.status

abbrev pub holds : Option Text → Bool
holds none = false
holds (some payment) = true

abbrev pub is_zero : ℕ → Bool
is_zero zero = true
is_zero (suc n) = false

abbrev pub is_one : ℕ → Bool
is_one zero = false
is_one (suc n) = is_zero n

abbrev in_force : InstructionType → ℕ → Bool
in_force standing n = true
in_force single_use n = is_zero n

abbrev counted_at : InstructionStatus → State → Bool
counted_at used s =
    type_eq s.instruction_type single_use && (is_one s.usage_count && holds s.used_by)
counted_at approved s = not (holds s.used_by) && in_force s.instruction_type s.usage_count
counted_at suspended s = not (holds s.used_by) && in_force s.instruction_type s.usage_count
counted_at _ s = not (holds s.used_by) && is_zero s.usage_count

-- A use counts once it is taken, and a single-use instruction is taken at most once: it is USED, by a
-- payment, exactly if its count is 1, and its count is 0 otherwise. Only a standing instruction that is
-- in force can count more.
abbrev pub IsCounted : State → Type 0
IsCounted s = counted_at s.status s ≡ true

next_state-IsCounted :
    (c : Change) (x : InstructionStatus) (ty : InstructionType) (n : ℕ) (by : Option Text)
    {t : State}
    → counted_at x (record { status = x; instruction_type = ty; usage_count = n; used_by = by })
      ≡ true
    → next_state c (record { status = x; instruction_type = ty; usage_count = n; used_by = by }) x
      ≡ some t
    → IsCounted t
next_state-IsCounted (to_type y) x ty n by k h = ground arith
next_state-IsCounted to_submitted x ty n by k h = ground arith
next_state-IsCounted to_approved x ty n by k h = ground arith
next_state-IsCounted to_rejected x ty n by k h = ground arith
next_state-IsCounted to_suspended x ty n by k h = ground arith
next_state-IsCounted to_reactivated x ty n by k h = ground arith
next_state-IsCounted to_cancelled x ty n by k h = ground arith
next_state-IsCounted (to_used payment) x ty n by k h = ground arith
next_state-IsCounted (to_released payment) x ty n by k h = ground arith

pub next-IsCounted :
    (c : Change) (s : State) {t : State} → IsCounted s → next c s ≡ some t → IsCounted t
next-IsCounted c s k h =
    next_state-IsCounted c s.status s.instruction_type s.usage_count s.used_by k h

-- What the invariant means for a single-use instruction.
pub IsCounted-single_use :
    (s : State)
    → IsCounted s
    → s.instruction_type ≡ single_use
    → (s.usage_count ≤ 1) × ((s.status ≡ used) ↔ (s.usage_count ≡ 1))
IsCounted-single_use s k h = (ground arith, (λ is. ground arith, λ one. ground arith))

pub release-use :
    (payment : Text) (s : State)
    → IsCounted s
    → s.instruction_type ≡ single_use
    → s.status ≡ approved
    → next (to_released payment) (use_state payment s) ≡ some s
release-use payment s k h approved_ = ground (arith, same_refl payment)
