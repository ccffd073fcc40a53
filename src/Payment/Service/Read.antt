-- ===== src/Payment/Service/Read.antt =====
-- The reads of `PaymentService`: get, list, list_versions and the scoped branch of summarize.
pub mod Visible
use policy_pilot.Prelude.{
  ℕ, ◌+◌, select, String, false, not, Option, none, List, [], ◌∷◌, if◌then◌else◌,
}
use policy_pilot.Prelude.Text.{Text}
use policy_pilot.Prelude.Exec.{pure, raise_if, ◌>>=◌, ◌>>◌}
use policy_pilot.Payment.Model.{
  PaymentStatus, draft, submitted, approved, rejected, cancelled, Subject,
}
use policy_pilot.Payment.Errors.{permission_error}
use policy_pilot.Payment.Storage.{VersionedPayment}
use policy_pilot.Payment.Repository.{Query, list_current, list_versions}
use policy_pilot.Payment.Access.{can_view_payment}
use policy_pilot.Payment.Platform.{Platform, Svc, on_payments}
use policy_pilot.Payment.Service.{get_current_or_404}

-- `by_status[status] = by_status.get(status, 0) + 1`, in the order of the statuses' names: the
-- sorted keys of the dict.
pub record Buckets : Type 0 where
  pub approved_count : ℕ
  pub cancelled_count : ℕ
  pub draft_count : ℕ
  pub rejected_count : ℕ
  pub submitted_count : ℕ

abbrev pub no_buckets : Buckets
no_buckets = record {
  approved_count = 0;
  cancelled_count = 0;
  draft_count = 0;
  rejected_count = 0;
  submitted_count = 0;
}

abbrev pub bump : PaymentStatus → Buckets → Buckets
bump approved b = record b { approved_count = b.approved_count + 1 }
bump cancelled b = record b { cancelled_count = b.cancelled_count + 1 }
bump draft b = record b { draft_count = b.draft_count + 1 }
bump rejected b = record b { rejected_count = b.rejected_count + 1 }
bump submitted b = record b { submitted_count = b.submitted_count + 1 }

-- The loop over the records.
unfoldable pub tally : Subject → List VersionedPayment → Buckets → Buckets
tally subject [] buckets = buckets
tally subject (r ∷ rs) buckets =
    tally subject rs
      (if can_view_payment subject r.payment then bump r.payment.status buckets else buckets)

abbrev pub inventory_query : Option String → Query
inventory_query owning_lob = record {
  instruction_id = none;
  status = none;
  owning_lob = owning_lob;
  created_by_user_id = none;
  limit = 10000;
  include_cancelled = false;
}

module _ (P : Platform) where
  unfoldable pub get_op : Text → Subject → Svc P VersionedPayment
  get_op payment_id subject = do
    current ← get_current_or_404 P payment_id
    raise_if (not (can_view_payment subject current.payment))
        (permission_error "not authorized to view payment")
    pure current

  unfoldable pub list_versions_op : Text → Subject → Svc P (List VersionedPayment)
  list_versions_op payment_id subject = do
    get_op payment_id subject
    on_payments P (list_versions P.Payments payment_id)

  unfoldable pub list_op : Subject → Query → Svc P (List VersionedPayment)
  list_op subject query = do
    records ← on_payments P (list_current P.Payments query)
    pure (select (λ r. can_view_payment subject r.payment) records)

  -- `summarize` for a subject that is neither an administrator nor in compliance.
  unfoldable pub summarize_scoped : Subject → Option String → Svc P Buckets
  summarize_scoped subject owning_lob = do
    records ← on_payments P (list_current P.Payments (inventory_query owning_lob))
    pure (tally subject records no_buckets)
