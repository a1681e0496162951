-- ===== src/Tests/Store.antt =====
-- Runs of the in-memory store.
use x402_xec.Core.InvoiceStore.{
  persist, allocated_invoice, bound_elsewhere, IssueParams, same_txid, settled_record,
  InvoiceRecord, Store, empty_store, issue, commit_paid, committed, refused, txid_reused, conflict,
  issue_with_allocation,
}
use x402_xec.Core.Canonical.{canonicalize}
use x402_xec.Core.Resource.{canonical_hash}
use x402_xec.Core.Invoice.{invoice_json, compute_invoice_hash}
use x402_xec.Core.Json.{add_one, exact_limit, safe_nonnegative, field?, only_keys, nonneg}
use x402_xec.Core.Schemas.{is_address, invoice_schema}
use x402_xec.Common.Decimal.{to_decimal, is_positive_decimal}
use x402_xec.Core.InvoiceStore.Histories.{
  Reach-IsConsistent, Reach, start, next, issues, settles, now, paid_once, nonce_once, index_once,
  settled_for_good,
}
use x402_xec.Common.{
  none, ◌<◌, Option, if◌then◌else◌, arith, text_beq_iff, to_lower_case, Text, ℕ, ◌≡◌, ◌≢◌, refl,
  true, false, some, text_beq, text_eq, nat_eq,
}
use x402_xec.Tests.Fixtures.{
  repeat, flat_platform, invoice_a, invoice_b, hash_a, hash_b, txid_1, address_q,
}
use x402_xec.Common.Dict.{get, set}
use x402_xec.Core.InvoiceStore.Addresses.{address_once, AllocatedReach}
use x402_xec.Core.InvoiceStore.Settling.{commit_paid_frame, commit_paid_refused, settled_conflict}

abbrev pub two_issued : Store
two_issued = (issue invoice_b (issue invoice_a empty_store).0).0

abbrev pub settled : Store
settled = (commit_paid hash_a txid_1 120 two_issued).0

abbrev paid_a : InvoiceRecord
paid_a = settled_record txid_1 120 invoice_a

two_reached : Reach flat_platform two_issued
two_reached = next (next start (issues invoice_a refl)) (issues invoice_b refl)

settled_reached : Reach flat_platform settled
settled_reached = next two_reached (settles hash_a txid_1 120)

settled_a : get settled.records hash_a ≡ some paid_a
unfolding commit_paid issue get set to_lower_case text_beq
settled_a = refl

settled_b : get settled.records hash_b ≡ some invoice_b
unfolding commit_paid issue get set to_lower_case text_beq
settled_b = refl

commits_a : (commit_paid hash_a txid_1 120 two_issued).1 ≡ committed false paid_a
unfolding commit_paid issue get set to_lower_case text_beq
commits_a = refl

a_is_not_b : hash_a ≢ hash_b
unfolding text_beq
a_is_not_b =
    λ e. let h : text_beq hash_a hash_b ≡ true = (text_beq_iff hash_a hash_b).1 e in ground arith

paid_once_example : hash_a ≡ hash_a
paid_once_example = paid_once settled_reached paid_a paid_a settled_a settled_a refl refl refl

nonce_once_example : hash_b ≡ hash_b
nonce_once_example = nonce_once settled_reached invoice_b invoice_b settled_b settled_b refl

counted_exactly : settled.next_derivation_index < exact_limit
unfolding commit_paid get issue set text_beq add_one
counted_exactly = omega arith

index_once_example : hash_a ≡ hash_a
index_once_example =
    index_once settled_reached paid_a paid_a settled_a settled_a counted_exactly 0 refl refl

settled_for_good_example :
    ((again : ℕ) → commit_paid hash_a txid_1 again settled ≡ (settled, committed true paid_a))
    × ((other : Text) (x : InvoiceRecord) (again : ℕ)
        → get settled.records other ≡ some x
        → hash_a ≢ other
        → commit_paid other txid_1 again settled ≡ (settled, refused txid_reused))
settled_for_good_example = settled_for_good two_reached hash_a txid_1 120 false paid_a commits_a now

commit_paid_frame_example : get settled.records hash_b ≡ get two_issued.records hash_b
commit_paid_frame_example = commit_paid_frame hash_a txid_1 120 two_issued hash_b a_is_not_b

conflict_refused : (commit_paid hash_b txid_1 130 settled).1 ≡ refused txid_reused
unfolding commit_paid issue get set to_lower_case text_beq
conflict_refused = refl

commit_paid_refused_example : (commit_paid hash_b txid_1 130 settled).0 ≡ settled
commit_paid_refused_example = commit_paid_refused hash_b txid_1 130 settled conflict_refused

abbrev txid_2 : Text
txid_2 = repeat 64 b'2'

other_txid : to_lower_case txid_2 ≢ to_lower_case txid_1
unfolding text_beq to_lower_case
other_txid =
    λ e. let h : text_beq txid_2 txid_1 ≡ true = (text_beq_iff txid_2 txid_1).1 e in ground arith

settled_by : same_txid paid_a.settled_txid (to_lower_case txid_1) ≡ true
unfolding text_beq to_lower_case
settled_by = refl

settled_conflict_example : commit_paid hash_a txid_2 130 settled ≡ (
  settled,
  refused (
      if bound_elsewhere (get settled.txid_to_invoice (to_lower_case txid_2)) hash_a
      then txid_reused
      else conflict),
)
settled_conflict_example =
    settled_conflict (Reach-IsConsistent settled_reached) hash_a txid_1 settled_a refl settled_by
      txid_2 130 other_txid

abbrev params : IssueParams
params = record {
  nonce = repeat 22 b'n';
  resource_hash = hash_b;
  amount_sats = 1000;
  network = none;
  scheme = none;
  issued_at = nonneg 100;
  expires_at = nonneg 160;
  state = none;
}

abbrev derived : ℕ → Option Text
derived i = some address_q

abbrev allocated : Store
allocated = (issue_with_allocation flat_platform derived params empty_store).0

abbrev record_q : InvoiceRecord
record_q = record invoice_a { invoice_hash = hash_a; pay_to = address_q }

allocated_a : get allocated.records hash_a ≡ some record_q
unfolding issue_with_allocation get set to_lower_case text_beq allocated_invoice invoice_schema
    only_keys field? is_positive_decimal to_decimal is_address safe_nonnegative compute_invoice_hash
    invoice_json canonical_hash canonicalize persist
allocated_a = refl

address_once_example : hash_a ≡ hash_a
address_once_example =
    address_once (AllocatedReach.allocates derived params AllocatedReach.start) hash_a hash_a
      record_q record_q allocated_a allocated_a refl
