-- ===== src/Payment/Access.antt =====
-- ps/service.py and platform_auth/deps.py: who may read a payment.
pub mod Rules
use policy_pilot.Prelude.{
  String, Bool, true, false, not, Option, none, some, ◌&&◌, ◌||◌, str_eq, if◌then◌else◌, mem,
}
use policy_pilot.Payment.Model.{Subject, Payment}

-- platform_auth `is_platform_admin`
unfoldable pub is_platform_admin : Subject → Bool
is_platform_admin subject = mem "PLATFORM_ADMIN" subject.roles || mem "ADMIN" subject.groups

unfoldable pub is_middle_office : Subject → Bool
is_middle_office subject = mem "MIDDLE_OFFICE" subject.groups

unfoldable pub covers_payment_lob : Subject → String → Bool
unfolding is_middle_office
covers_payment_lob subject owning_lob =
    is_middle_office subject && mem owning_lob subject.covering_lobs

unfoldable pub is_compliance : Subject → Bool
is_compliance subject =
    if mem "COMPLIANCE_ANALYST" subject.roles || mem "COMPLIANCE_OFFICER" subject.roles
    then true
    else mem "COMPLIANCE" subject.groups

-- `subject.lob == lob`
abbrev pub lob_is : Option String → String → Bool
lob_is none lob = false
lob_is (some own) lob = str_eq own lob

unfoldable pub can_view_payment : Subject → Payment → Bool
unfolding is_platform_admin is_compliance is_middle_office covers_payment_lob
can_view_payment subject p =
    if is_platform_admin subject
    then true
    else if is_compliance subject
    then true
    else if str_eq subject.user_id p.created_by.user_id
    then true
    else if not (mem "PAYMENT_CREATOR" subject.roles) && not (mem "FUNDING_APPROVER" subject.roles)
    then false
    else if is_middle_office subject
    then covers_payment_lob subject p.owning_lob
    else lob_is subject.lob p.owning_lob
