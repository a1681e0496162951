-- ===== src/Tests/Sqlite.antt =====
-- Runs of the store on a table, and of the contract that both stores keep.
use x402_xec.Core.Json.{nonneg}
use x402_xec.Core.InvoiceStore.{
  committed, refused, txid_reused, settled_record, IssueParams, IssueError,
}
use x402_xec.Common.{
  refl, ok, err, some, none, sym, Option, Text, ℕ, ◌≢◌, ◌∙◌, inl, inr, true, false, arith, ◌≡◌,
  if◌then◌else◌, text_beq, to_lower_case, Bool-cases, [],
}
use x402_xec.Common.Decimal.{of_decimal, to_decimal}
use x402_xec.Core.SqliteStore.{
  commit_in_transaction, commit_row, issue, insert_row, issue_with_allocation, commit_paid,
  get_by_invoice_hash, store_error,
}
use x402_xec.Core.SqliteStore.Rows.{
  row_to_record, update_settled, Row, Table, Engine, Column, InsertAnswer, inserted, unique_failed,
  is_taken, row_of, select, agree,
}
use x402_xec.Core.SqliteStore.Unique.{IsTable}
use x402_xec.Core.SqliteStore.Calls.{
  Reach, created, Reach-IsTable, issue_with_allocation_index_is_free,
}
use x402_xec.Core.SqliteStore.Contract.{view, answer_of, sqlite-commit_paid_refines}
use x402_xec.Core.SqliteStore.Settled.{sqlite_settled_for_good, then_commits, now}
use x402_xec.Core.SettlementContract.{Commits}
use x402_xec.Tests.Fixtures.{
  repeat, address_q, flat_platform, invoice_a, invoice_b, hash_a, hash_b, txid_1,
}

-- An engine that runs every statement, and reports the first UNIQUE column that is taken.
checked : Column → Row → Table → InsertAnswer → InsertAnswer
checked c r t rest = if is_taken c r t then unique_failed c else rest

checked_insert : Row → Table → InsertAnswer
unfolding checked
checked_insert r t = checked Column.invoice_hash_column r t (
    checked Column.nonce_column r t (
      checked Column.pay_to_column r t (
        checked Column.derivation_index_column r t
          (checked Column.settled_txid_column r t inserted))))

checked-inserted :
    (c : Column) (r : Row) (t : Table) (rest : InsertAnswer)
    → checked c r t rest ≡ inserted
    → (is_taken c r t ≡ false) × (rest ≡ inserted)
unfolding checked
checked-inserted c r t rest h = ground arith

checked-failed :
    (c d : Column) (r : Row) (t : Table) (rest : InsertAnswer)
    → checked c r t rest ≡ unique_failed d
    → (rest ≡ unique_failed d → is_taken d r t ≡ true)
    → is_taken d r t ≡ true
unfolding checked
checked-failed c d r t rest h later = elim (Bool-cases (is_taken c r t)) [
  | inl taken ↦
      let named : unique_failed c ≡ unique_failed d = sym (rw taken refl) ∙ h in
      let same : c ≡ d = cc in rw (← same) taken
  | inr free ↦ later (rw free at h)
]

checked_keeps :
    (r : Row) (t : Table) (c : Column) → checked_insert r t ≡ inserted → is_taken c r t ≡ false
unfolding checked_insert
checked_keeps r t c h =
    let (f1, k1) = checked-inserted Column.invoice_hash_column r t _ h in
    let (f2, k2) = checked-inserted Column.nonce_column r t _ k1 in
    let (f3, k3) = checked-inserted Column.pay_to_column r t _ k2 in
    let (f4, k4) = checked-inserted Column.derivation_index_column r t _ k3 in
    let (f5, k5) = checked-inserted Column.settled_txid_column r t _ k4 in
    elim c as (λ d. is_taken d r t ≡ false) [
      | Column.invoice_hash_column ↦ f1
      | Column.nonce_column ↦ f2
      | Column.pay_to_column ↦ f3
      | Column.derivation_index_column ↦ f4
      | Column.settled_txid_column ↦ f5
    ]

checked_reports :
    (r : Row) (t : Table) (c : Column)
    → checked_insert r t ≡ unique_failed c
    → is_taken c r t ≡ true
unfolding checked_insert
checked_reports r t c h = checked-failed Column.invoice_hash_column c r t _ h (λ h1.
    checked-failed Column.nonce_column c r t _ h1 (λ h2.
      checked-failed Column.pay_to_column c r t _ h2 (λ h3.
        checked-failed Column.derivation_index_column c r t _ h3
          (λ h4. checked-failed Column.settled_txid_column c r t inserted h4 (λ h5. cc)))))

abbrev engine : Engine
engine = record {
  begins = λ t. true;
  insert = checked_insert;
  updates = λ t. true;
  insert_keeps = checked_keeps;
  insert_reports = checked_reports;
}

abbrev two_rows : Table
two_rows = (issue engine invoice_b [] (issue engine invoice_a [] []).0).0

both_reached : Reach engine two_rows
both_reached = Reach.issues invoice_b [] (Reach.issues invoice_a [] created)

Reach-IsTable_example : IsTable two_rows
Reach-IsTable_example = Reach-IsTable engine both_reached

abbrev asked : IssueParams
asked = record {
  nonce = repeat 22 b'o';
  resource_hash = hash_b;
  amount_sats = 1000;
  network = none;
  scheme = none;
  issued_at = nonneg 100;
  expires_at = nonneg 160;
  state = none;
}

abbrev derived : ℕ → Option Text
derived i = some address_q

issue_with_allocation_index_is_free_example :
    (issue_with_allocation engine flat_platform derived asked two_rows).1
    ≢ err (store_error IssueError.derivation_index_already_used)
issue_with_allocation_index_is_free_example =
    issue_with_allocation_index_is_free engine flat_platform derived asked two_rows

sqlite-commit_paid_refines_example :
    Commits
      (view two_rows)
      hash_a
      (to_lower_case txid_1)
      120
      (view (commit_paid engine hash_a txid_1 120 two_rows).0)
      (answer_of (commit_paid engine hash_a txid_1 120 two_rows).1)
sqlite-commit_paid_refines_example =
    sqlite-commit_paid_refines engine hash_a txid_1 120 two_rows (Reach-IsTable engine both_reached)

-- The run does settle the invoice.
settles_a :
    get_by_invoice_hash hash_a (commit_paid engine hash_a txid_1 120 two_rows).0
    ≡ some (settled_record txid_1 120 invoice_a)
unfolding checked_insert get_by_invoice_hash select commit_paid commit_in_transaction issue
    insert_row agree text_beq row_of commit_row row_to_record update_settled of_decimal
    to_lower_case to_decimal
settles_a = refl

a_commits :
    (commit_paid engine hash_a txid_1 120 two_rows).1
    ≡ ok (committed false (settled_record txid_1 120 invoice_a))
unfolding checked_insert select commit_paid commit_in_transaction issue insert_row agree text_beq
    row_of commit_row row_to_record of_decimal to_lower_case to_decimal
a_commits = refl

-- The transaction is offered for the other invoice in between.
abbrev tried_again : Table
tried_again =
    (commit_paid engine hash_b txid_1 130 (commit_paid engine hash_a txid_1 120 two_rows).0).0

sqlite_settled_for_good_example :
    ((again : ℕ)
      → commit_paid engine hash_a txid_1 again tried_again
        ≡ (tried_again, ok (committed true (settled_record txid_1 120 invoice_a))))
    × ((other : Text) (again : ℕ)
        → hash_a ≢ other
        → commit_paid engine other txid_1 again tried_again
          ≡ (tried_again, ok (refused txid_reused)))
sqlite_settled_for_good_example =
    sqlite_settled_for_good engine both_reached hash_a txid_1 120 false
      (settled_record txid_1 120 invoice_a) a_commits (then_commits hash_b txid_1 130 now) refl
