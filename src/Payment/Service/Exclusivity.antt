-- ===== src/Payment/Service/Exclusivity.antt =====
-- The check of `PaymentService.submit` that a SINGLE_USE instruction has no other active payment:
-- what `list_current` returns, and what the check then knows of the stored payments.
use policy_pilot.Prelude.{
  ℕ, ◌≤◌, ◌≡◌, ◌∙◌, refl, ap, Bool, true, false, str_eq_iff, ◌&&◌, List, [], ◌∷◌, arith, length,
  take_all, select, count_if, length-select, if◌then◌else◌,
}
use mathlib.Core.Path.{subst}
use cubical.Cubical.Foundations.Prelude.{fun_ext}
use policy_pilot.Prelude.Text.{Text, same}
use policy_pilot.Prelude.Exec.{ok, bind-ok}
use policy_pilot.Mongo.{Collection, IsLawful}
use policy_pilot.Payment.Model.{PaymentStatus, draft, submitted, Payment}
use policy_pilot.Payment.Storage.{
  VersionedPayment, PaymentDocument, document_to_versioned_payment, payment_current_out,
}
use policy_pilot.Versioned.{convert, reading}
use policy_pilot.Payment.Iso.{text_order}
use policy_pilot.Payment.Repository.{
  out_eq, payment_rows, Query, list_current_query, is_not_cancelled, list_current,
}
use policy_pilot.Payment.Repository.Versions.{document_key}
use policy_pilot.Ledger.Keeping.{check_ok}
use policy_pilot.Payment.Platform.{ledger, Platform, Store}
use policy_pilot.Payment.Guards.{is_active, validate_single_use_submit_exclusivity}
use policy_pilot.Payment.Service.{is_single_use}
use policy_pilot.Payment.Service.Submit.{exclusivity_query, check_exclusivity}

count_if-convert :
    (q : VersionedPayment → Bool) (ds : List PaymentDocument)
    → count_if q (convert payment_rows ds) ≡ count_if (λ d. q (document_to_versioned_payment d)) ds
unfolding convert
count_if-convert q [] = refl
count_if-convert q (d ∷ ds) = ground (arith, count_if-convert q ds)

count_if_all : {A : Type 0} (xs : List A) → count_if (λ _. true) xs ≡ length xs
count_if_all [] = refl
count_if_all (x ∷ xs) = ground (arith, count_if_all xs)

-- An active payment is not a cancelled one.
active_select :
    (rs : List VersionedPayment)
    → count_if is_active (select is_not_cancelled rs) ≡ count_if is_active rs
active_select [] = refl
active_select (r ∷ rs) = ground (arith, active_select rs)

module _ (C : Collection PaymentDocument) (L : IsLawful document_key C) where
  -- If no row is cut off by the limit, `list_current` shows all active payments that match.
  list_current_active :
      (q : Query) (c : C.Data) {rs : List VersionedPayment} {c' : C.Data}
      → list_current C q c ≡ (ok rs, c')
      → count_if (list_current_query q) (C.docs c) ≤ q.limit
      → count_if is_active rs
        ≡ count_if
            (λ d. is_active (document_to_versioned_payment d))
            (select (list_current_query q) (C.docs c))
  unfolding list_current reading
  list_current_active q c {rs} h few = bind-ok _ _ c h λ found c1 read h1.
      let (all, same, is) =
        L.find_newest_lem (list_current_query q) (λ d. text_order d.record_in) q.limit c {r = found}
          (ground arith) in
      let short : length all ≤ q.limit = omega (
        arith,
        count_if_all all,
        same (λ _. true),
        count_if_all (select (list_current_query q) (C.docs c)),
        length-select (list_current_query q) (C.docs c),
      ) in
      let whole : found ≡ all = ground (arith, take_all q.limit all) in
      let shown : rs ≡ (
          if q.include_cancelled
          then convert payment_rows found
          else select is_not_cancelled (convert payment_rows found)) =
        ground arith in
      let counted : count_if is_active rs ≡ count_if is_active (convert payment_rows found) =
        rw shown (ground (arith, active_select (convert payment_rows found))) in
      counted
      ∙ count_if-convert is_active found
      ∙ ap (count_if (λ d. is_active (document_to_versioned_payment d))) whole
      ∙ same (λ d. is_active (document_to_versioned_payment d))

-- The open versions of the payments on an instruction, and those of them that are DRAFT or SUBMITTED.
abbrev pub is_open_on : Text → PaymentDocument → Bool
is_open_on instruction_id d =
    out_eq d.record_out payment_current_out && same d.instruction_id instruction_id

abbrev is_draft_or_submitted : PaymentStatus → Bool
is_draft_or_submitted draft = true
is_draft_or_submitted submitted = true
is_draft_or_submitted _ = false

abbrev pub is_unsettled : PaymentDocument → Bool
is_unsettled d = is_draft_or_submitted d.payload.status

is_active-is_unsettled :
    (d : PaymentDocument) → is_active (document_to_versioned_payment d) ≡ is_unsettled d
unfolding document_to_versioned_payment
is_active-is_unsettled d = ground arith

-- Apart from an empty identifier, the query finds the open versions on the instruction.
exclusivity_query-is_open_on :
    (p : Payment) (c : ℕ) (cs : Text)
    → p.instruction_id ≡ c ∷ cs
    → list_current_query (exclusivity_query p) ≡ is_open_on p.instruction_id
exclusivity_query-is_open_on p c cs given = rw given (fun_ext (λ d. ground arith))

module _ (P : Platform) (L : IsLawful document_key P.Payments) where
  -- The stored payments on an instruction: their open versions.
  abbrev pub on_instruction : Text → Store P → List PaymentDocument
  on_instruction instruction_id s = select (is_open_on instruction_id) (P.Payments.docs s.items)

  abbrev found_by_query : Payment → Store P → List PaymentDocument
  found_by_query p s = select (list_current_query (exclusivity_query p)) (P.Payments.docs s.items)

  query_active :
      (p : Payment) (s : Store P) {u : Unit {0}} {t : Store P}
      → is_single_use p ≡ true
      → length (found_by_query p s) ≤ 100
      → check_exclusivity P p s ≡ (ok u, t)
      → count_if (λ d. is_active (document_to_versioned_payment d)) (found_by_query p s) ≤ 1
  unfolding check_exclusivity validate_single_use_submit_exclusivity
  query_active p s {u} {t} single few h = bind-ok _ _ s (rw single at h) λ associated s1 listed h1.
      let (passed, _) = check_ok (ledger P) _ s1 h1 in
      let few_rows : count_if (list_current_query (exclusivity_query p)) (P.Payments.docs s.items)
          ≤ 100 =
        omega (
          arith,
          length-select (list_current_query (exclusivity_query p)) (P.Payments.docs s.items),
        ) in
      let shown =
        list_current_active P.Payments L (exclusivity_query p) s.items {rs = associated}
          {c' = s1.items} (ground arith) few_rows in
      ground arith

  -- If the check of a SINGLE_USE payment with a non-empty instruction identifier passes and its
  -- instruction has at most 100 payments, at most one of them is DRAFT or SUBMITTED.
  pub check_exclusivity-active :
      (p : Payment) (c : ℕ) (cs : Text) (s : Store P) {u : Unit {0}} {t : Store P}
      → p.instruction_id ≡ c ∷ cs
      → p.instruction_type ≡ "SINGLE_USE"
      → length (on_instruction p.instruction_id s) ≤ 100
      → check_exclusivity P p s ≡ (ok u, t)
      → count_if is_unsettled (on_instruction p.instruction_id s) ≤ 1
  check_exclusivity-active p c cs s given single few h =
      let same_query = exclusivity_query-is_open_on p c cs given in
      let same_rows : found_by_query p s ≡ on_instruction p.instruction_id s =
        ap (λ q. select q (P.Payments.docs s.items)) same_query in
      let active : (λ d. is_active (document_to_versioned_payment d)) ≡ is_unsettled =
        fun_ext is_active-is_unsettled in
      let counted = query_active p s ((str_eq_iff _ _).1 single) (rw same_rows few) h in
      subst (λ xs. count_if is_unsettled xs ≤ 1) same_rows
        (subst (λ q. count_if q (found_by_query p s) ≤ 1) active counted)
