-- ===== src/Payment/Guards/Approval/Payable.antt =====
-- When `_check_instruction_validity_for_approval` finds nothing, as conditions on the two records; and
-- when the submit check and the approval check agree on an end date.
use policy_pilot.Prelude.{
  ◌+◌, ◌≤◌, ◌↔◌, ◌≡◌, String, true, false, Option, none, some, inl, inr, arith, str_eq, str_eq_iff,
  nat_eq_iff, Bool-cases, Option-cases, or_empty, is_blank,
}
use policy_pilot.Prelude.Exec.{ok}
use policy_pilot.Payment.Model.{Time, Payment}
use policy_pilot.Payment.Instruction.{InstructionJson, version_or}
use policy_pilot.Payment.Moment.{Moment, Offset, east, west, offset_or_utc, is_before, is_after}
use policy_pilot.Payment.Guards.{validate_instruction_not_expired, end_date_of}
use policy_pilot.Payment.Guards.Approval.{
  is_backing_ok, is_type_changed, end_date_reason, effective_date_reason,
  check_instruction_validity_for_approval,
}

-- The instruction is approved, or is a single-use one that this payment's submission has used.
pub data IsBacking (p : Payment) (i : InstructionJson) : Type 0 where
  approved : or_empty i.status ≡ "APPROVED" → IsBacking p i
  used :
      or_empty i.status ≡ "USED"
      → p.instruction_type ≡ "SINGLE_USE"
      → or_empty i.instruction_type ≡ "SINGLE_USE"
      → IsBacking p i

is_backing_ok-IsBacking :
    (p : Payment) (i : InstructionJson) → (is_backing_ok p i ≡ true) ↔ IsBacking p i
is_backing_ok-IsBacking p i = (to, from)
  where
    to : is_backing_ok p i ≡ true → IsBacking p i
    to h = elim (Bool-cases (str_eq (or_empty i.status) "APPROVED")) [
      | inl is ↦ approved ((str_eq_iff _ _).0 is)
      | inr other ↦
          used ((str_eq_iff _ _).0 (ground arith)) ((str_eq_iff _ _).0 (ground arith))
            ((str_eq_iff _ _).0 (ground arith))
    ]

    from : IsBacking p i → is_backing_ok p i ≡ true
    from (approved h) = ground (arith, (str_eq_iff _ _).1 h)
    from (used h j k) =
        ground (arith, (str_eq_iff _ _).1 h, (str_eq_iff _ _).1 j, (str_eq_iff _ _).1 k)

-- A wall clock with an offset, UTC if it has none, is `now` or later; is `now` or earlier.
abbrev pub NotEarlier : Time → Option Offset → Time → Type 0
NotEarlier wall none now = now ≤ wall
NotEarlier wall (some (east o)) now = now + o ≤ wall
NotEarlier wall (some (west o)) now = now ≤ wall + o

abbrev pub NotLater : Time → Option Offset → Time → Type 0
NotLater wall none now = wall ≤ now
NotLater wall (some (east o)) now = wall ≤ now + o
NotLater wall (some (west o)) now = wall + o ≤ now

is_before-NotEarlier :
    (wall : Time) (o : Option Offset) (now : Time)
    → (is_before (record { wall = wall; offset = o }) now ≡ false) ↔ NotEarlier wall o now
is_before-NotEarlier wall none now = (λ h. ground arith, λ h. ground (arith, h))
is_before-NotEarlier wall (some (east o)) now = (λ h. ground arith, λ h. ground (arith, h))
is_before-NotEarlier wall (some (west o)) now = (λ h. ground arith, λ h. ground (arith, h))

is_after-NotLater :
    (wall : Time) (o : Option Offset) (now : Time)
    → (is_after (record { wall = wall; offset = o }) now ≡ false) ↔ NotLater wall o now
is_after-NotLater wall none now = (λ h. ground arith, λ h. ground (arith, h))
is_after-NotLater wall (some (east o)) now = (λ h. ground arith, λ h. ground (arith, h))
is_after-NotLater wall (some (west o)) now = (λ h. ground arith, λ h. ground (arith, h))

-- The instruction and the payment name no two different types.
pub data HasSameType (p : Payment) (i : InstructionJson) : Type 0 where
  instruction_unset : or_empty i.instruction_type ≡ "" → HasSameType p i
  payment_unset : p.instruction_type ≡ "" → HasSameType p i
  same_type : or_empty i.instruction_type ≡ p.instruction_type → HasSameType p i

is_type_changed-HasSameType :
    (p : Payment) (i : InstructionJson) → (is_type_changed p i ≡ false) ↔ HasSameType p i
is_type_changed-HasSameType p i = (to, from)
  where
    to : is_type_changed p i ≡ false → HasSameType p i
    to h = elim (Bool-cases (str_eq (or_empty i.instruction_type) "")) [
      | inl unset ↦ instruction_unset ((str_eq_iff _ _).0 unset)
      | inr set ↦ elim (Bool-cases (str_eq p.instruction_type "")) [
        | inl unset ↦ payment_unset ((str_eq_iff _ _).0 unset)
        | inr both ↦ same_type ((str_eq_iff _ _).0 (ground arith))
      ]
    ]

    from : HasSameType p i → is_type_changed p i ≡ false
    from (instruction_unset h) = ground (arith, (str_eq_iff _ _).1 h)
    from (payment_unset h) = ground (arith, (str_eq_iff _ _).1 h)
    from (same_type h) = ground (arith, (str_eq_iff _ _).1 h)

module _ (fromisoformat : String → Option Moment) (now : Time) where
  -- A bound that is either absent, or readable and kept.
  pub data IsKept (Holds : Time → Option Offset → Time → Type 0) (raw : String) : Type 0 where
    absent : is_blank raw ≡ true → IsKept Holds raw
    kept :
        (m : Moment)
        → is_blank raw ≡ false
        → fromisoformat raw ≡ some m
        → Holds m.wall m.offset now
        → IsKept Holds raw

  -- An instruction on which the payment may be approved now.
  pub record IsPayable (p : Payment) (i : InstructionJson) : Type 0 where
    pub unmodified : version_or 0 i.version_number ≡ p.instruction_version
    pub backing : IsBacking p i
    pub not_ended : IsKept NotEarlier (or_empty i.end_date)
    pub started : IsKept NotLater (or_empty i.effective_date)
    pub same_type : HasSameType p i

  end_date-IsKept :
      (raw : String) → (end_date_reason fromisoformat now raw ≡ none) ↔ IsKept NotEarlier raw
  end_date-IsKept raw = (to, from)
    where
      to : end_date_reason fromisoformat now raw ≡ none → IsKept NotEarlier raw
      to h = elim (Bool-cases (is_blank raw)) [
        | inl blank ↦ absent blank
        | inr given ↦ elim (Option-cases (fromisoformat raw)) [
          | inl unreadable ↦ ground arith
          | inr (m, is) ↦
              kept m given is ((is_before-NotEarlier m.wall m.offset now).0 (ground arith))
        ]
      ]

      from : IsKept NotEarlier raw → end_date_reason fromisoformat now raw ≡ none
      from (absent h) = ground arith
      from (kept m given is good) =
          ground (arith, (is_before-NotEarlier m.wall m.offset now).1 good)

  effective_date-IsKept :
      (raw : String) → (effective_date_reason fromisoformat now raw ≡ none) ↔ IsKept NotLater raw
  effective_date-IsKept raw = (to, from)
    where
      to : effective_date_reason fromisoformat now raw ≡ none → IsKept NotLater raw
      to h = elim (Bool-cases (is_blank raw)) [
        | inl blank ↦ absent blank
        | inr given ↦ elim (Option-cases (fromisoformat raw)) [
          | inl unreadable ↦ ground arith
          | inr (m, is) ↦ kept m given is ((is_after-NotLater m.wall m.offset now).0 (ground arith))
        ]
      ]

      from : IsKept NotLater raw → effective_date_reason fromisoformat now raw ≡ none
      from (absent h) = ground arith
      from (kept m given is good) = ground (arith, (is_after-NotLater m.wall m.offset now).1 good)

  -- The approval check finds no reason exactly if the payment is payable on the instruction:
  -- its version is the one the payment names, it backs the payment, its dates hold where it gives them,
  -- and its type is the payment's where both name one.
  pub check-IsPayable :
      (p : Payment) (i : InstructionJson)
      → (check_instruction_validity_for_approval fromisoformat now p i ≡ none) ↔ IsPayable p i
  unfolding check_instruction_validity_for_approval
  check-IsPayable p i = (to, from)
    where
      to : check_instruction_validity_for_approval fromisoformat now p i ≡ none → IsPayable p i
      to h = record {
        unmodified = (nat_eq_iff _ _).0 (ground arith);
        backing = (is_backing_ok-IsBacking p i).0 (ground arith);
        not_ended = (end_date-IsKept _).0 (ground arith);
        started = (effective_date-IsKept _).0 (ground arith);
        same_type = (is_type_changed-HasSameType p i).0 (ground arith);
      }

      from : IsPayable p i → check_instruction_validity_for_approval fromisoformat now p i ≡ none
      from h = ground (
        arith,
        (nat_eq_iff (version_or 0 i.version_number) p.instruction_version).1 h.unmodified,
        (is_backing_ok-IsBacking p i).1 h.backing,
        (end_date-IsKept (or_empty i.end_date)).1 h.not_ended,
        (effective_date-IsKept (or_empty i.effective_date)).1 h.started,
        (is_type_changed-HasSameType p i).1 h.same_type,
      )

  -- On an end date that is read as UTC, the check before a submission and the check before an
  -- approval give the same answer.
  pub not_expired-end_date :
      (i : InstructionJson) (m : Moment)
      → fromisoformat (end_date_of i) ≡ some m
      → offset_or_utc m.offset ≡ east 0
      → (validate_instruction_not_expired fromisoformat now i ≡ ok tt)
        ↔ (end_date_reason fromisoformat now (end_date_of i) ≡ none)
  unfolding validate_instruction_not_expired
  not_expired-end_date i m read utc = (λ h. ground arith, λ h. ground arith)
