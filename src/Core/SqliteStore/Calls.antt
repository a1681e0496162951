-- ===== src/Core/SqliteStore/Calls.antt =====
-- Any calls of the methods of sqlite-invoice-store.ts, of any processes: BEGIN IMMEDIATE puts the
-- transactions one behind the other.
use x402_xec.Core.SqliteStore.Rows.{
  is_taken, derivation_index_column, agree, Row, Table, Engine, Column, InsertAnswer, inserted,
  unique_failed, insert_fails,
}
use x402_xec.Core.SqliteStore.{
  allocated_row, code_of, is_other, Platform, insert_row, issue, allocate, issue_with_allocation,
  commit_row, commit_in_transaction, commit_paid, store_error,
}
use x402_xec.Core.SqliteStore.Rows.{row_to_record, has_hash, is_settled_by, next_index, select}
use x402_xec.Core.InvoiceStore.{is_paid, allocated_invoice, IssueError, InvoiceRecord, IssueParams}
use x402_xec.Core.SqliteStore.Rows.Select.{select-lt-next_index, select-holds, Distinct}
use x402_xec.Common.{
  refl, err, Option-cases, to_lower_case, ◌⊎◌, ℕ, ◌≡◌, Text, [], Bool-cases, arith, Option, none,
  ◌≢◌, inl, inr, false, true,
}
use x402_xec.Core.SqliteStore.Unique.{IsTable, append-IsTable, update-IsTable}

pub InsertAnswer-cases :
    (a : InsertAnswer)
    → (a ≡ inserted) ⊎ (((c : Column) × (a ≡ unique_failed c)) ⊎ (a ≡ insert_fails))
InsertAnswer-cases inserted = inl refl
InsertAnswer-cases (unique_failed c) = inr (inl (c, refl))
InsertAnswer-cases insert_fails = inr (inr refl)

module _ (engine : Engine) where
  -- The tables that calls of the store make of a new one. The table `read` is any that `issue` has
  -- read the next index of.
  pub data Reach : Table → Type 0 where
    created : Reach []
    issues :
        {t : Table} (r : InvoiceRecord) (read : Table) → Reach t → Reach (issue engine r read t).0
    issues_with_allocation :
        {t : Table} (p : Platform) (derive_address : ℕ → Option Text) (params : IssueParams)
        → Reach t
        → Reach (issue_with_allocation engine p derive_address params t).0
    commits :
        {t : Table} (h txid : Text) (at : ℕ) → Reach t → Reach (commit_paid engine h txid at t).0

  insert_row-IsTable :
      {A : Type 0} (r : Row) (a : A) (t : Table) → IsTable t → IsTable (insert_row engine r a t).0
  unfolding insert_row
  insert_row-IsTable r a t good = elim (InsertAnswer-cases (engine.insert r t)) [
    | inl e ↦ rw (e, insert_row) (append-IsTable t good r (λ c. engine.insert_keeps r t c e))
    | inr (inl (c, e)) ↦ rw (e, insert_row) good
    | inr (inr e) ↦ rw (e, insert_row) good
  ]

  issue-IsTable :
      (r : InvoiceRecord) (read t : Table) → IsTable t → IsTable (issue engine r read t).0
  unfolding issue
  issue-IsTable r read t good = elim (Bool-cases (engine.begins t)) [
    | inl e ↦ rw (e, issue) (insert_row-IsTable _ _ t good)
    | inr e ↦ rw (e, issue) good
  ]

  module _ (p : Platform) (derive_address : ℕ → Option Text) (params : IssueParams)
      (t : Table) where
    issue_with_allocation-IsTable :
        IsTable t → IsTable (issue_with_allocation engine p derive_address params t).0
    unfolding issue_with_allocation allocate
    issue_with_allocation-IsTable good = elim (Bool-cases (engine.begins t)) [
      | inl e ↦ elim (Option-cases (derive_address (next_index t))) [
        | inl e1 ↦ rw (e, issue_with_allocation, allocate, e1) good
        | inr (pay_to, e1) ↦ elim (Option-cases (allocated_invoice p params pay_to)) [
          | inl e2 ↦ rw (e, issue_with_allocation, allocate, e1, e2) good
          | inr ((invoice, hash), e2) ↦
              rw (e, issue_with_allocation, allocate, e1, e2) (insert_row-IsTable _ _ t good)
        ]
      ]
      | inr e ↦ rw (e, issue_with_allocation) good
    ]

  module _ (h txid : Text) (at : ℕ) (t : Table) (good : IsTable t) where
    commit_row-IsTable :
        (row : Row)
        → is_other h (select (is_settled_by txid) t) ≡ false
        → IsTable (commit_row engine h txid at row t).0
    unfolding commit_row
    commit_row-IsTable row free = elim (Bool-cases (is_paid (row_to_record row).state)) [
      | inl paid ↦ rw (paid, commit_row) good
      | inr unpaid ↦ elim (Bool-cases (engine.updates t)) [
        | inl e ↦ rw (unpaid, commit_row, e) (update-IsTable txid h at t good free)
        | inr e ↦ rw (unpaid, commit_row, e) good
      ]
    ]

    commit_in_transaction-IsTable : IsTable (commit_in_transaction engine h txid at t).0
    unfolding commit_in_transaction
    commit_in_transaction-IsTable = elim (Bool-cases (is_other h (select (is_settled_by txid) t))) [
      | inl other ↦ rw (other, commit_in_transaction) good
      | inr free ↦ elim (Option-cases (select (has_hash h) t)) [
        | inl missing ↦ rw (free, commit_in_transaction, missing) good
        | inr (row, found) ↦ rw (free, commit_in_transaction, found) (commit_row-IsTable row free)
      ]
    ]

  pub commit_paid-IsTable :
      (h txid : Text) (at : ℕ) (t : Table) → IsTable t → IsTable (commit_paid engine h txid at t).0
  unfolding commit_paid
  commit_paid-IsTable h txid at t good = elim (Bool-cases (engine.begins t)) [
    | inl e ↦ rw (e, commit_paid) (commit_in_transaction-IsTable h (to_lower_case txid) at t good)
    | inr e ↦ rw (e, commit_paid) good
  ]

  -- After any calls of issue, issueWithAllocation and commitPaid on a new table, of any processes
  -- and with whatever index issue read before its transaction, two rows that agree in the hash, the
  -- nonce, the address, the derivation index or the transaction are one.
  pub Reach-IsTable : {t : Table} → Reach t → IsTable t
  unfolding Distinct select
  Reach-IsTable created = record { distinct = tt; unique = λ c h k r s at_h at_k same. cc }
  Reach-IsTable (issues {t} r read calls) = issue-IsTable r read t (Reach-IsTable calls)
  Reach-IsTable (issues_with_allocation {t} p derive_address params calls) =
      issue_with_allocation-IsTable p derive_address params t (Reach-IsTable calls)
  Reach-IsTable (commits {t} h txid at calls) =
      commit_paid-IsTable h txid at t (Reach-IsTable calls)

  -- No row has the next index.
  next_index_free :
      (r : Row) (t : Table)
      → r.derivation_index ≡ next_index t
      → select (agree derivation_index_column r) t ≡ none
  unfolding agree
  next_index_free r t e = elim (Option-cases (select (agree derivation_index_column r) t)) [
    | inl missing ↦ missing
    | inr (x, found) ↦ ground (
      arith,
      e,
      select-holds (agree derivation_index_column r) t found,
      select-lt-next_index (agree derivation_index_column r) t found,
    )
  ]

  index_not_reported :
      (c : Column) (r : Row) (t : Table)
      → r.derivation_index ≡ next_index t
      → is_taken c r t ≡ true
      → code_of c ≢ IssueError.derivation_index_already_used
  unfolding code_of
  index_not_reported Column.invoice_hash_column r t e taken q = cc
  index_not_reported Column.nonce_column r t e taken q = cc
  index_not_reported Column.pay_to_column r t e taken q = cc
  index_not_reported Column.derivation_index_column r t e taken q =
      ground (arith, taken, next_index_free r t e)
  index_not_reported Column.settled_txid_column r t e taken q = cc

  insert_row_at_next_index :
      {A : Type 0} (r : Row) (a : A) (t : Table)
      → r.derivation_index ≡ next_index t
      → (insert_row engine r a t).1 ≢ err (store_error IssueError.derivation_index_already_used)
  unfolding insert_row
  insert_row_at_next_index r a t e = elim (InsertAnswer-cases (engine.insert r t)) [
    | inl f ↦ rw (f, insert_row) (λ p. cc)
    | inr (inl (c, f)) ↦
        rw (f, insert_row)
          (λ q.
            let named : code_of c ≡ IssueError.derivation_index_already_used = cc in
            index_not_reported c r t e (engine.insert_reports r t c f) named)
    | inr (inr f) ↦ rw (f, insert_row) (λ p. cc)
  ]

  module _ (p : Platform) (derive_address : ℕ → Option Text) (params : IssueParams)
      (t : Table) where
    -- issueWithAllocation on a table never fails because its derivation index is taken, since it
    -- reads the next index in the transaction that inserts it.
    pub issue_with_allocation_index_is_free :
        (issue_with_allocation engine p derive_address params t).1
        ≢ err (store_error IssueError.derivation_index_already_used)
    unfolding issue_with_allocation allocate
    issue_with_allocation_index_is_free = elim (Bool-cases (engine.begins t)) [
      | inl e ↦ elim (Option-cases (derive_address (next_index t))) [
        | inl e1 ↦ rw (e, issue_with_allocation, allocate, e1) (λ q. cc)
        | inr (pay_to, e1) ↦ elim (Option-cases (allocated_invoice p params pay_to)) [
          | inl e2 ↦ rw (e, issue_with_allocation, allocate, e1, e2) (λ q. cc)
          | inr ((invoice, hash), e2) ↦
              rw (e, issue_with_allocation, allocate, e1, e2)
                (insert_row_at_next_index (allocated_row params invoice hash pay_to (next_index t))
                  _ t refl)
        ]
      ]
      | inr e ↦ rw (e, issue_with_allocation) (λ q. cc)
    ]
