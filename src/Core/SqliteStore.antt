-- ===== src/Core/SqliteStore.antt =====
-- sqlite-invoice-store.ts: the authoritative store on a table. A method is a transaction that
-- BEGIN IMMEDIATE runs alone, so a function of the table; ROLLBACK gives the table back.
pub mod Calls
pub mod Contract
pub mod Settled
pub mod Rows
pub mod Unique
use x402_xec.Common.{
  ℕ, Bool, true, false, not, Option, none, some, List, [], ◌∷◌, ◌++◌, Text, to_lower_case, ◌==◌,
  text_eq, nat_eq, Result, ok, err, if◌then◌else◌,
}
use x402_xec.Common.Maybe.{◌>>=◌}
use x402_xec.Common.Decimal.{to_decimal}
use x402_xec.Core.Schemas.{Invoice, xec_mainnet, xec_scheme}
use x402_xec.Core.Resource.{Platform}
use x402_xec.Core.InvoiceStore.{
  InvoiceRecord, conflict, txid_reused, invoice_not_found, IssueError, IssueParams, IssueResult,
  issued, or_else, allocated_invoice, is_paid, same_txid, settled_record, CommitPaidResult,
}
use x402_xec.Core.SqliteStore.Rows.{
  Row, Table, Engine, Column, row_to_record, row_of, select, has_hash, is_settled_by, next_index,
  update_settled, inserted, unique_failed, insert_fails,
}

-- An `InvoiceStoreError`, or what the engine throws.
pub data SqliteError : Type 0 where
  store_error : IssueError → SqliteError
  engine_error : SqliteError

-- The code for "UNIQUE constraint failed: invoices.<column>".
unfoldable pub code_of : Column → IssueError
code_of Column.nonce_column = IssueError.nonce_already_used
code_of Column.pay_to_column = IssueError.pay_to_already_used
code_of Column.derivation_index_column = IssueError.derivation_index_already_used
code_of Column.invoice_hash_column = IssueError.invoice_already_exists
code_of Column.settled_txid_column = IssueError.invoice_already_exists

unfoldable pub get_by_invoice_hash : Text → Table → Option InvoiceRecord
get_by_invoice_hash h t = do r ← select (has_hash h) t; some (row_to_record r)

unfoldable pub get_by_settled_txid : Text → Table → Option InvoiceRecord
get_by_settled_txid txid t = do
  r ← select (is_settled_by (to_lower_case txid)) t
  some (row_to_record r)

unfoldable pub get_by_pay_to : Text → Table → Option InvoiceRecord
get_by_pay_to pay_to t = do r ← select (λ (r : Row). r.pay_to == pay_to) t; some (row_to_record r)

-- The invoice of another hash.
abbrev pub is_other : Text → Option Row → Bool
is_other h none = false
is_other h (some r) = not (r.invoice_hash == h)

abbrev pub allocated_row : IssueParams → Invoice → Text → Text → ℕ → Row
allocated_row params invoice hash pay_to i = record {
  invoice_hash = hash;
  nonce = params.nonce;
  resource_hash = params.resource_hash;
  amount_sats = to_decimal params.amount_sats;
  pay_to = pay_to;
  network = or_else params.network xec_mainnet;
  scheme = or_else params.scheme xec_scheme;
  issued_at = invoice.issued_at;
  expires_at = invoice.expires_at;
  state = or_else params.state issued;
  settled_txid = none;
  settled_at = none;
  derivation_index = i;
}

-- The record that is returned has the values of the parameters.
abbrev pub returned_record : IssueParams → Invoice → Text → Text → ℕ → InvoiceRecord
returned_record params invoice hash pay_to i = record {
  invoice_hash = hash;
  nonce = params.nonce;
  resource_hash = params.resource_hash;
  amount_sats = params.amount_sats;
  pay_to = pay_to;
  network = or_else params.network xec_mainnet;
  scheme = or_else params.scheme xec_scheme;
  issued_at = invoice.issued_at;
  expires_at = invoice.expires_at;
  state = or_else params.state issued;
  settled_txid = none;
  settled_at = none;
  derivation_index = some i;
}

module _ (engine : Engine) where
  -- INSERT, COMMIT, and what is caught.
  unfoldable pub insert_row : {A : Type 0} → Row → A → Table → Table × Result SqliteError A
  insert_row r a t = elim (engine.insert r t) [
    | inserted ↦ (t ++ r ∷ [], ok a)
    | unique_failed c ↦ (t, err (store_error (code_of c)))
    | insert_fails ↦ (t, err engine_error)
  ]

  -- The next index is read before the transaction, when the table may have been `read`.
  unfoldable pub issue : InvoiceRecord → Table → Table → Table × Result SqliteError (Unit {0})
  issue r read t =
      if engine.begins t
      then insert_row (row_of r (or_else r.derivation_index (next_index read))) tt t
      else (t, err engine_error)

  unfoldable pub allocate :
      Platform → (ℕ → Option Text) → IssueParams → Table → Table × Result SqliteError IssueResult
  allocate p derive_address params t =
      let i = next_index t in
      elim (derive_address i) [
        | none ↦ (t, err (store_error IssueError.derivation_failed))
        | some pay_to ↦ elim (allocated_invoice p params pay_to) [
          | none ↦ (t, err (store_error IssueError.invalid_invoice))
          | some (invoice, hash) ↦
              insert_row (allocated_row params invoice hash pay_to i)
                (record {
                  record_issued = returned_record params invoice hash pay_to i;
                  invoice = invoice;
                })
                t
        ]
      ]

  unfoldable pub issue_with_allocation :
      Platform → (ℕ → Option Text) → IssueParams → Table → Table × Result SqliteError IssueResult
  issue_with_allocation p derive_address params t =
      if engine.begins t then allocate p derive_address params t else (t, err engine_error)

  -- The steps 3 and 4, on the row of the invoice.
  unfoldable pub commit_row :
      Text → Text → ℕ → Row → Table → Table × Result SqliteError CommitPaidResult
  commit_row h txid paid_at row t =
      let existing = row_to_record row in
      if is_paid existing.state
      then (
        t,
        ok (
            if same_txid existing.settled_txid txid
            then CommitPaidResult.committed true existing
            else CommitPaidResult.refused conflict),
      )
      else if engine.updates t
      then (
        update_settled txid h paid_at t,
        ok (CommitPaidResult.committed false (settled_record txid paid_at existing)),
      )
      else (t, err engine_error)

  unfoldable pub commit_in_transaction :
      Text → Text → ℕ → Table → Table × Result SqliteError CommitPaidResult
  commit_in_transaction h txid paid_at t =
      if is_other h (select (is_settled_by txid) t)
      then (t, ok (CommitPaidResult.refused txid_reused))
      else elim (select (has_hash h) t) [
        | none ↦ (t, ok (CommitPaidResult.refused invoice_not_found))
        | some row ↦ commit_row h txid paid_at row t
      ]

  unfoldable pub commit_paid : Text → Text → ℕ → Table → Table × Result SqliteError CommitPaidResult
  commit_paid h txid paid_at t =
      if engine.begins t
      then commit_in_transaction h (to_lower_case txid) paid_at t
      else (t, err engine_error)
