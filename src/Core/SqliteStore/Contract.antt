-- ===== src/Core/SqliteStore/Contract.antt =====
-- The SQLite store (sqlite-invoice-store.ts) keeps the contract of commitPaid.
use x402_xec.Common.{
  ◌∙◌, sym, refl, ◌≡◌, if◌then◌else◌, inl, inr, ok, err, none, some, true, false, ◌==◌, text_eq,
  text_beq_iff, arith, Option-cases, Bool-cases,
}
use x402_xec.Core.SqliteStore.Rows.Select.{select-update, select-holds, select-by-hash}
use x402_xec.Core.SqliteStore.Unique.{settled_here, IsTable}
use x402_xec.Core.InvoiceStore.{
  txid_reused, InvoiceRecord, CommitPaidResult, settled_record, is_paid, same_txid,
}
use x402_xec.Core.SqliteStore.{
  to_lower_case, Option, ℕ, Result, Text, get_by_invoice_hash, commit_row, commit_in_transaction,
  commit_paid, SqliteError, is_other,
}
use x402_xec.Core.SqliteStore.Rows.{
  Row, Table, Engine, select, has_hash, is_settled_by, row_to_record, update_settled,
}
use x402_xec.Core.SqliteStore.Calls.{commit_paid-IsTable}
use x402_xec.Core.SettlementContract.{Commits, SettlementStore, View}

abbrev pub view : Table → View
view t h = get_by_invoice_hash h t

-- What the caller awaits: an error rejects the promise.
abbrev pub answer_of : Result SqliteError CommitPaidResult → Option CommitPaidResult
answer_of (ok answer) = some answer
answer_of (err e) = none

module _ (h txid : Text) (at : ℕ) (t : Table) (good : IsTable t) where
  view_row :
      (k : Text) (row : Row)
      → select (has_hash k) t ≡ some row
      → view t k ≡ some (row_to_record row)
  unfolding get_by_invoice_hash
  view_row k row found = rw (found, get_by_invoice_hash) refl

  view_none : (k : Text) → select (has_hash k) t ≡ none → view t k ≡ none
  unfolding get_by_invoice_hash
  view_none k missing = rw (missing, get_by_invoice_hash) refl

  -- What is settled by the transaction is under `h`.
  view_settled :
      is_other h (select (is_settled_by txid) t) ≡ false
      → (k : Text) (x : InvoiceRecord) → view t k ≡ some x
      → is_paid x.state ≡ true
      → same_txid x.settled_txid txid ≡ true
      → k ≡ h
  unfolding get_by_invoice_hash row_to_record
  view_settled free k x there paid by = elim (Option-cases (select (has_hash k) t)) [
    | inl missing ↦ cc (view_none k missing)
    | inr (y, found) ↦ sym (
        settled_here txid h at t good free k y found
          (ground (arith, sym (view_row k y found) ∙ there, by)))
  ]

  view_update :
      (row : Row)
      → select (has_hash h) t ≡ some row
      → (k : Text)
      → view (update_settled txid h at t) k
        ≡ (if h == k then some (settled_record txid at (row_to_record row)) else view t k)
  unfolding get_by_invoice_hash row_to_record
  view_update row found k = elim (Bool-cases (h == k)) [
    | inl same ↦
        let there : select (has_hash k) t ≡ some row = rw (← (text_beq_iff h k).0 same) found in
        ground (arith, select-update txid h at k t, same, there)
    | inr other ↦ ground (arith, select-update txid h at k t, other)
  ]

  commit_row_lem :
      (row : Row)
      → select (has_hash h) t ≡ some row
      → is_other h (select (is_settled_by txid) t) ≡ false
      → (engine : Engine)
      → Commits
          (view t)
          h
          txid
          at
          (view (commit_row engine h txid at row t).0)
          (answer_of (commit_row engine h txid at row t).1)
  unfolding commit_row
  commit_row_lem row found free engine = elim (Bool-cases (is_paid (row_to_record row).state)) [
    | inl paid ↦ elim (Bool-cases (same_txid (row_to_record row).settled_txid txid)) [
      | inl same ↦
          rw (commit_row, paid, same)
            (Commits.retried (λ k. refl) (row_to_record row) (view_row h row found) paid same)
      | inr other ↦
          rw (commit_row, paid, other)
            (Commits.conflicts (λ k. refl) (row_to_record row) (view_row h row found) paid other)
    ]
    | inr unpaid ↦ elim (Bool-cases (engine.updates t)) [
      | inl e ↦
          rw (commit_row, unpaid, e)
            (Commits.settles (row_to_record row) (view_row h row found) unpaid (view_settled free)
              (view_update row found))
      | inr e ↦ rw (commit_row, unpaid, e) (Commits.throws (λ k. refl))
    ]
  ]

  reused_lem :
      (x : Row)
      → select (is_settled_by txid) t ≡ some x
      → is_other h (some x) ≡ true
      → Commits (view t) h txid at (view t) (some (CommitPaidResult.refused txid_reused))
  unfolding row_to_record
  reused_lem x found other =
      Commits.reused (λ k. refl) x.invoice_hash (row_to_record x)
        (view_row x.invoice_hash x (select-by-hash (is_settled_by txid) t good.distinct found))
        (select-holds (is_settled_by txid) t found)
        (λ e. ground (arith, other, text_beq_iff x.invoice_hash h))

  commit_in_transaction_lem :
      (engine : Engine)
      → Commits
          (view t)
          h
          txid
          at
          (view (commit_in_transaction engine h txid at t).0)
          (answer_of (commit_in_transaction engine h txid at t).1)
  unfolding commit_in_transaction
  commit_in_transaction_lem engine =
      elim (Bool-cases (is_other h (select (is_settled_by txid) t))) [
        | inl other ↦ elim (Option-cases (select (is_settled_by txid) t)) [
          | inl missing ↦ cc (rw missing at other)
          | inr (x, found) ↦
              rw (other, commit_in_transaction) (reused_lem x found (rw (found) at other))
        ]
        | inr free ↦ elim (Option-cases (select (has_hash h) t)) [
          | inl missing ↦
              rw (free, commit_in_transaction, missing)
                (Commits.unknown (λ k. refl) (view_none h missing))
          | inr (row, found) ↦
              rw (free, commit_in_transaction, found) (commit_row_lem row found free engine)
        ]
      ]

module _ (engine : Engine) (h txid : Text) (at : ℕ) (t : Table) (good : IsTable t) where
  -- On a table whose UNIQUE columns hold, commitPaid of the SQLite store is a commitment that the
  -- contract allows, or rejects and changes nothing that can be looked up, whatever statements the
  -- engine lets run.
  pub sqlite-commit_paid_refines :
      Commits
        (view t)
        h
        (to_lower_case txid)
        at
        (view (commit_paid engine h txid at t).0)
        (answer_of (commit_paid engine h txid at t).1)
  unfolding commit_paid
  sqlite-commit_paid_refines = elim (Bool-cases (engine.begins t)) [
    | inl e ↦
        rw (e, commit_paid) (commit_in_transaction_lem h (to_lower_case txid) at t good engine)
    | inr e ↦ rw (e, commit_paid) (Commits.throws (λ k. refl))
  ]

-- The store behind the contract's interface.
abbrev pub sqlite_store : Engine → SettlementStore
sqlite_store engine = record {
  State = Table;
  IsGood = IsTable;
  view = view;
  commit = λ h txid at t. let (u, answer) = commit_paid engine h txid at t in (u, answer_of answer);
  commit_keeps = commit_paid-IsTable engine;
  commit_lem = sqlite-commit_paid_refines engine;
}
