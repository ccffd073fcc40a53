-- ===== src/Payment/Service/Read/Visible.antt =====
-- What the reads of `PaymentService` return to a subject.
use policy_pilot.Prelude.{
  ℕ, ◌+◌, ◌≡◌, Bool, ◌&&◌, if◌then◌else◌, List, [], ◌∷◌, arith, select, count_if, Bool-cases, inl,
  inr, All,
}
use policy_pilot.Prelude.Text.{Text}
use policy_pilot.Prelude.Exec.{ok, raise_if_ok, bind-ok, then-ok}
use policy_pilot.Payment.Model.{
  PaymentStatus, approved, cancelled, draft, rejected, submitted, status_eq, Subject,
}
use policy_pilot.Payment.Storage.{VersionedPayment}
use policy_pilot.Payment.Repository.{Query}
use policy_pilot.Ledger.Keeping.{pure_ok}
use policy_pilot.Payment.Platform.{ledger, Platform, Store}
use policy_pilot.Payment.Access.{can_view_payment}
use policy_pilot.Payment.Access.Rules.{MayView, can_view_payment-MayView}
use policy_pilot.Payment.Service.Read.{Buckets, bump, tally, get_op, list_op}

-- The bucket of a status.
abbrev pub count_of : PaymentStatus → Buckets → ℕ
count_of approved b = b.approved_count
count_of cancelled b = b.cancelled_count
count_of draft b = b.draft_count
count_of rejected b = b.rejected_count
count_of submitted b = b.submitted_count

-- The records with a status that the subject may view.
abbrev pub is_counted : Subject → PaymentStatus → VersionedPayment → Bool
is_counted subject x r = can_view_payment subject r.payment && status_eq r.payment.status x

count_of-bump :
    (x y : PaymentStatus) (b : Buckets)
    → count_of x (bump y b) ≡ count_of x b + (if status_eq y x then 1 else 0)
count_of-bump x y b = ground arith

-- The inventory counts, for every status, the records with that status that the subject may view, and no
-- others.
pub count_of-tally :
    (x : PaymentStatus) (subject : Subject) (rs : List VersionedPayment) (b : Buckets)
    → count_of x (tally subject rs b) ≡ count_if (is_counted subject x) rs + count_of x b
unfolding tally
count_of-tally x subject [] b = omega arith
count_of-tally x subject (r ∷ rs) b = ground (
  arith,
  count_of-tally x subject rs b,
  count_of-tally x subject rs (bump r.payment.status b),
  count_of-bump x r.payment.status b,
)

selected_visible :
    (subject : Subject) (rs : List VersionedPayment)
    → All (λ r. MayView subject r.payment) (select (λ r. can_view_payment subject r.payment) rs)
selected_visible subject [] = tt
selected_visible subject (r ∷ rs) = elim (Bool-cases (can_view_payment subject r.payment)) [
  | inl may ↦
      rw may ((can_view_payment-MayView subject r.payment).0 may, selected_visible subject rs)
  | inr may_not ↦ rw may_not (selected_visible subject rs)
]

module _ (P : Platform) where
  -- A read of one payment that returns was of a payment that the subject may view.
  pub get_op-MayView :
      (id : Text) (subject : Subject) (s : Store P) {current : VersionedPayment} {t : Store P}
      → get_op P id subject s ≡ (ok current, t)
      → MayView subject current.payment
  unfolding get_op
  get_op-MayView id subject s {current} {t} h = bind-ok _ _ s h λ read s1 got h1.
      then-ok _ _ s1 h1 λ _ s2 permitted h2.
        let (may, _) = raise_if_ok _ _ s1 permitted in
        let (is, _) = pure_ok (ledger P) read s2 h2 in
        rw is ((can_view_payment-MayView subject read.payment).0 (ground arith))

  -- A listing that returns holds only payments that the subject may view.
  pub list_op-MayView :
      (subject : Subject) (query : Query) (s : Store P) {rs : List VersionedPayment} {t : Store P}
      → list_op P subject query s ≡ (ok rs, t)
      → All (λ r. MayView subject r.payment) rs
  unfolding list_op
  list_op-MayView subject query s h = bind-ok _ _ s h λ records s1 listed h1.
      let (is, _) = pure_ok (ledger P) _ s1 h1 in rw is (selected_visible subject records)
