-- ===== src/Core/SqliteStore/Settled.antt =====
-- A settlement in sqlite-invoice-store.ts lasts, whatever calls follow.
use x402_xec.Common.{nat_eq}
use x402_xec.Common.{
  ℕ, ◌≡◌, ◌≢◌, refl, ap, true, false, not, some, ok, Bool, Option, Text, [], ◌∷◌, ◌++◌, ◌==◌,
  text_eq, text_beq_iff, arith, Option-cases, Bool-cases, inl, inr, to_lower_case,
}
use x402_xec.Core.InvoiceStore.{
  CommitPaidResult, InvoiceRecord, IssueParams, committed, refused, txid_reused, is_paid, same_txid,
  allocated_invoice,
}
use x402_xec.Core.SettlementContract.{Commits, View}
use x402_xec.Core.SettlementContract.Clients.{Commits-keeps}
use x402_xec.Core.SqliteStore.{
  Platform, insert_row, issue, allocate, issue_with_allocation, commit_row, commit_in_transaction,
  commit_paid, get_by_invoice_hash,
}
use x402_xec.Core.SqliteStore.Rows.{
  Row, Table, Engine, select, has_hash, is_settled_by, row_to_record, settled_txid_column,
  next_index,
}
use x402_xec.Core.SqliteStore.Rows.Select.{select-append, select-none, select-holds, select-by-hash}
use x402_xec.Core.SqliteStore.Unique.{IsTable, settled_agree}
use x402_xec.Core.SqliteStore.Calls.{
  Reach, Reach-IsTable, InsertAnswer-cases, commits, issues, issues_with_allocation,
}
use x402_xec.Core.SqliteStore.Contract.{view, answer_of, sqlite-commit_paid_refines}

-- What a commitment that succeeds leaves behind.
Commits-leaves :
    {f g : View} {h txid : Text} {at : ℕ} {answer : Option CommitPaidResult} {fresh : Bool}
    {r : InvoiceRecord}
    → Commits f h txid at g answer
    → answer ≡ some (committed fresh r)
    → (g h ≡ some r) × (is_paid r.state ≡ true) × (same_txid r.settled_txid txid ≡ true)
Commits-leaves (Commits.unknown same e) is = cc
Commits-leaves (Commits.reused same k x e p ne) is = cc
Commits-leaves (Commits.conflicts same x e p q) is = cc
Commits-leaves (Commits.throws same) is = cc
Commits-leaves {h = h} (Commits.retried same x e p q) is =
    (ground (arith, same h, e, is), ground (arith, is, p), ground (arith, is, q))
Commits-leaves {h = h} {txid} (Commits.settles x e unpaid free set) is = (
  ground (arith, set h, text_beq_iff h h, is),
  ground (arith, is),
  ground (arith, is, text_beq_iff txid txid),
)

module _ (engine : Engine) where
  -- The tables that calls of the store make of `t`.
  pub data Later (t : Table) : Table → Type 0 where
    now : Later t t
    then_issues :
        {u : Table} (r : InvoiceRecord) (read : Table)
        → Later t u
        → Later t (issue engine r read u).0
    then_issues_with_allocation :
        {u : Table} (p : Platform) (derive_address : ℕ → Option Text) (params : IssueParams)
        → Later t u
        → Later t (issue_with_allocation engine p derive_address params u).0
    then_commits :
        {u : Table} (h txid : Text) (at : ℕ)
        → Later t u
        → Later t (commit_paid engine h txid at u).0

  Later-Reach : {t u : Table} → Reach engine t → Later t u → Reach engine u
  Later-Reach reached now = reached
  Later-Reach reached (then_issues r read calls) = issues r read (Later-Reach reached calls)
  Later-Reach reached (then_issues_with_allocation p derive_address params calls) =
      issues_with_allocation p derive_address params (Later-Reach reached calls)
  Later-Reach reached (then_commits h txid at calls) = commits h txid at (Later-Reach reached calls)

  module _ (h : Text) (r : InvoiceRecord) where
    append_keeps : (t : Table) (x : Row) → view t h ≡ some r → view (t ++ x ∷ []) h ≡ some r
    unfolding get_by_invoice_hash
    append_keeps t x there = ground (arith, select-append (has_hash h) t x, there)

    insert_row_keeps :
        {A : Type 0} (x : Row) (a : A) (t : Table)
        → view t h ≡ some r
        → view (insert_row engine x a t).0 h ≡ some r
    unfolding insert_row
    insert_row_keeps x a t there = elim (InsertAnswer-cases (engine.insert x t)) [
      | inl e ↦ rw (e, insert_row) (append_keeps t x there)
      | inr (inl (c, e)) ↦ rw (e, insert_row) there
      | inr (inr e) ↦ rw (e, insert_row) there
    ]

    issue_keeps :
        (x : InvoiceRecord) (read t : Table)
        → view t h ≡ some r
        → view (issue engine x read t).0 h ≡ some r
    unfolding issue
    issue_keeps x read t there = elim (Bool-cases (engine.begins t)) [
      | inl e ↦ rw (e, issue) (insert_row_keeps _ _ t there)
      | inr e ↦ rw (e, issue) there
    ]

    allocation_keeps :
        (p : Platform) (derive_address : ℕ → Option Text) (params : IssueParams) (t : Table)
        → view t h ≡ some r
        → view (issue_with_allocation engine p derive_address params t).0 h ≡ some r
    unfolding issue_with_allocation allocate
    allocation_keeps p derive_address params t there = elim (Bool-cases (engine.begins t)) [
      | inl e ↦ elim (Option-cases (derive_address (next_index t))) [
        | inl e1 ↦ rw (e, issue_with_allocation, allocate, e1) there
        | inr (pay_to, e1) ↦ elim (Option-cases (allocated_invoice p params pay_to)) [
          | inl e2 ↦ rw (e, issue_with_allocation, allocate, e1, e2) there
          | inr ((invoice, hash), e2) ↦
              rw (e, issue_with_allocation, allocate, e1, e2) (insert_row_keeps _ _ t there)
        ]
      ]
      | inr e ↦ rw (e, issue_with_allocation) there
    ]

    -- A record that is paid stays as it is.
    Later_keeps :
        {t u : Table}
        → Reach engine t
        → is_paid r.state ≡ true
        → view t h ≡ some r
        → Later t u
        → view u h ≡ some r
    Later_keeps reached paid there now = there
    Later_keeps reached paid there (then_issues {u} x read calls) =
        issue_keeps x read u (Later_keeps reached paid there calls)
    Later_keeps reached paid there (then_issues_with_allocation {u} p derive_address params calls) =
        allocation_keeps p derive_address params u (Later_keeps reached paid there calls)
    Later_keeps reached paid there (then_commits {u} k txid at calls) =
        Commits-keeps h r
          (sqlite-commit_paid_refines engine k txid at u
            (Reach-IsTable engine (Later-Reach reached calls)))
          (Later_keeps reached paid there calls) paid

-- On a table where the row of `h` is paid by the transaction.
module _ (engine : Engine) (h txid : Text) (r : InvoiceRecord) (u : Table) (good : IsTable u)
    (there : view u h ≡ some r) (paid : is_paid r.state ≡ true)
    (by : same_txid r.settled_txid txid ≡ true) where
  paid_row : (row : Row) × (select (has_hash h) u ≡ some row) × (row_to_record row ≡ r)
  unfolding get_by_invoice_hash
  paid_row = elim (Option-cases (select (has_hash h) u)) [
    | inl missing ↦ cc (rw (get_by_invoice_hash, missing) at there)
    | inr (row, found) ↦ (row, found, ground (arith, rw (get_by_invoice_hash, found) at there))
  ]

  by_the_row : (row : Row) → row_to_record row ≡ r → is_settled_by txid row ≡ true
  unfolding row_to_record
  by_the_row row e = ground (arith, ap (λ (x : InvoiceRecord). x.settled_txid) e, by)

  -- What the transaction is found to have settled is under `h`.
  settled_row_is : (x : Row) × (select (is_settled_by txid) u ≡ some x) × (x.invoice_hash ≡ h)
  settled_row_is =
      let (row, found, e) = paid_row in
      let settles = by_the_row row e in
      elim (Option-cases (select (is_settled_by txid) u)) [
        | inl missing ↦ cc (select-none (is_settled_by txid) (has_hash h) u missing found, settles)
        | inr (x, first) ↦ (
          x,
          first,
          good.unique settled_txid_column x.invoice_hash h x row
              (select-by-hash (is_settled_by txid) u good.distinct first) found
              (settled_agree txid x row (select-holds (is_settled_by txid) u first) settles),
        )
      ]

  retry_in_transaction :
      (again : ℕ) → commit_in_transaction engine h txid again u ≡ (u, ok (committed true r))
  unfolding commit_in_transaction commit_row
  retry_in_transaction again =
      let (row, found, e) = paid_row in
      let (x, first, x_is) = settled_row_is in
      let same : not (x.invoice_hash == h) ≡ false =
        ground (arith, text_beq_iff x.invoice_hash h, x_is) in
      rw (commit_in_transaction, first, same, found, commit_row, e, paid, by) refl

  reused_in_transaction :
      (other : Text) (again : ℕ)
      → h ≢ other
      → commit_in_transaction engine other txid again u ≡ (u, ok (refused txid_reused))
  unfolding commit_in_transaction
  reused_in_transaction other again apart =
      let (x, first, x_is) = settled_row_is in
      let differs : not (x.invoice_hash == other) ≡ true =
        ground (arith, text_beq_iff x.invoice_hash other, x_is, apart) in
      rw (commit_in_transaction, first, differs) refl

module _ (engine : Engine) {t u : Table} (reached : Reach engine t) (h txid : Text) (at : ℕ)
    (fresh : Bool) (r : InvoiceRecord)
    (done : (commit_paid engine h txid at t).1 ≡ ok (committed fresh r))
    (later : Later engine (commit_paid engine h txid at t).0 u)
    (running : engine.begins u ≡ true) where
  -- On a table that calls of the SQLite store have made of a new one, once commitPaid has answered
  -- that an invoice is bound to a transaction, then after any further calls, while the engine runs,
  -- a retry at any time is an idempotent success with the same record and no effect, and commitPaid
  -- of the same transaction for any other invoice is refused as TXID_REUSED, without an effect.
  pub sqlite_settled_for_good :
      ((again : ℕ) → commit_paid engine h txid again u ≡ (u, ok (committed true r)))
      × ((other : Text) (again : ℕ)
          → h ≢ other
          → commit_paid engine other txid again u ≡ (u, ok (refused txid_reused)))
  unfolding commit_paid
  sqlite_settled_for_good =
      let good = Reach-IsTable engine reached in
      let (found, paid, by) =
        Commits-leaves (sqlite-commit_paid_refines engine h txid at t good) (ap answer_of done) in
      let after : Reach engine (commit_paid engine h txid at t).0 = commits h txid at reached in
      let kept = Later_keeps engine h r after paid found later in
      let table = Reach-IsTable engine (Later-Reach engine after later) in
      (
        λ again.
            rw (commit_paid, running)
              (retry_in_transaction engine h (to_lower_case txid) r u table kept paid by again),
        λ other again apart.
            rw (commit_paid, running)
              (reused_in_transaction engine h (to_lower_case txid) r u table kept paid by other
                again apart),
      )
