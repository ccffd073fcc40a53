-- ===== src/Payment/Access/Rules.antt =====
-- Who may read a payment, as rules, and the reads that filter by them.
use policy_pilot.Prelude.{
  ◌↔◌, ◌≡◌, ap, String, Bool, true, false, Option, none, some, ◌&&◌, inl, inr, arith, str_eq,
  str_eq_iff, Bool-cases, if◌then◌else◌, mem,
}
use mathlib.Core.Option.{some-injective}
use policy_pilot.Payment.Model.{Subject, Payment}
use policy_pilot.Payment.Access.{
  is_platform_admin, is_middle_office, covers_payment_lob, is_compliance, lob_is, can_view_payment,
}

-- The subject's line of business covers the payment's: through the coverage list for middle office,
-- by being the same line for the others.
pub data InScope (subject : Subject) (p : Payment) : Type 0 where
  covered :
      mem "MIDDLE_OFFICE" subject.groups ≡ true
      → mem p.owning_lob subject.covering_lobs ≡ true
      → InScope subject p
  own_line :
      mem "MIDDLE_OFFICE" subject.groups ≡ false
      → subject.lob ≡ some p.owning_lob
      → InScope subject p

-- The reasons for which a subject may read a payment.
pub data MayView (subject : Subject) (p : Payment) : Type 0 where
  administrator : is_platform_admin subject ≡ true → MayView subject p
  compliance : is_compliance subject ≡ true → MayView subject p
  creator : subject.user_id ≡ p.created_by.user_id → MayView subject p
  payment_creator :
      mem "PAYMENT_CREATOR" subject.roles ≡ true → InScope subject p → MayView subject p
  funding_approver :
      mem "FUNDING_APPROVER" subject.roles ≡ true → InScope subject p → MayView subject p

lob_is_iff : (o : Option String) (lob : String) → (lob_is o lob ≡ true) ↔ (o ≡ some lob)
lob_is_iff none lob = (λ h. cc, λ h. cc)
lob_is_iff (some own) lob =
    (λ h. ap some ((str_eq_iff own lob).0 h), λ h. (str_eq_iff own lob).1 (some-injective _ _ h))

-- The last test of `_can_view_payment`.
abbrev scope : Subject → Payment → Bool
scope subject p =
    if mem "MIDDLE_OFFICE" subject.groups
    then mem "MIDDLE_OFFICE" subject.groups && mem p.owning_lob subject.covering_lobs
    else lob_is subject.lob p.owning_lob

InScope-iff : (subject : Subject) (p : Payment) → (scope subject p ≡ true) ↔ InScope subject p
InScope-iff subject p = (to, from)
  where
    to : scope subject p ≡ true → InScope subject p
    to h = elim (Bool-cases (mem "MIDDLE_OFFICE" subject.groups)) [
      | inl middle ↦ covered middle (ground arith)
      | inr other ↦ own_line other ((lob_is_iff subject.lob p.owning_lob).0 (rw other at h))
    ]

    from : InScope subject p → scope subject p ≡ true
    from (covered middle covers) = rw middle covers
    from (own_line other own) = rw other ((lob_is_iff subject.lob p.owning_lob).1 own)

-- A subject may read a payment exactly if one of the rules says so.
pub can_view_payment-MayView :
    (subject : Subject) (p : Payment) → (can_view_payment subject p ≡ true) ↔ MayView subject p
unfolding can_view_payment covers_payment_lob is_middle_office
can_view_payment-MayView subject p = (to, from)
  where
    to : can_view_payment subject p ≡ true → MayView subject p
    to h = elim (Bool-cases (is_platform_admin subject)) [
      | inl is_admin ↦ administrator is_admin
      | inr no_admin ↦ elim (Bool-cases (is_compliance subject)) [
        | inl in_compliance ↦ compliance in_compliance
        | inr not_compliance ↦ elim (Bool-cases (str_eq subject.user_id p.created_by.user_id)) [
          | inl own ↦ creator ((str_eq_iff subject.user_id p.created_by.user_id).0 own)
          | inr foreign ↦ elim (Bool-cases (mem "PAYMENT_CREATOR" subject.roles)) [
            | inl creates ↦ payment_creator creates ((InScope-iff subject p).0 (ground arith))
            | inr no_create ↦ elim (Bool-cases (mem "FUNDING_APPROVER" subject.roles)) [
              | inl approves ↦ funding_approver approves ((InScope-iff subject p).0 (ground arith))
              | inr no_approve ↦ ground arith
            ]
          ]
        ]
      ]
    ]

    from : MayView subject p → can_view_payment subject p ≡ true
    from (administrator h) = ground arith
    from (compliance h) = ground arith
    from (creator h) = ground (arith, (str_eq_iff subject.user_id p.created_by.user_id).1 h)
    from (payment_creator h s) = ground (arith, (InScope-iff subject p).1 s)
    from (funding_approver h s) = ground (arith, (InScope-iff subject p).1 s)
