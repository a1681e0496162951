-- ===== src/Core/SqliteStore/Rows.antt =====
-- The table of sqlite-invoice-store.ts: its rows, and the SQL that its methods run on them. The
-- engine decides whether a statement runs, and which UNIQUE constraint it reports.
pub mod Select
use x402_xec.Common.{
  ℕ, ◌+◌, max, ◌≡◌, Bool, true, false, Option, none, some, List, [], ◌∷◌, ◌++◌, Text, ◌==◌, text_eq,
  nat_eq, if◌then◌else◌, is_some,
}
use x402_xec.Common.Decimal.{to_decimal, of_decimal}
use x402_xec.Core.InvoiceStore.{InvoiceRecord, InvoiceState, paid, same_txid}

-- A row as CREATE TABLE declares it. A bigint is stored as its decimal text.
pub record Row : Type 0 where
  pub invoice_hash : Text
  pub nonce : Text
  pub resource_hash : Text
  pub amount_sats : Text
  pub pay_to : Text
  pub network : Text
  pub scheme : Text
  pub issued_at : ℕ
  pub expires_at : ℕ
  pub state : InvoiceState
  pub settled_txid : Option Text
  pub settled_at : Option ℕ
  pub derivation_index : ℕ

abbrev pub Table : Type 0
Table = List Row

-- `rowToRecord`
unfoldable pub row_to_record : Row → InvoiceRecord
row_to_record r = record {
  invoice_hash = r.invoice_hash;
  nonce = r.nonce;
  resource_hash = r.resource_hash;
  amount_sats = of_decimal r.amount_sats;
  pay_to = r.pay_to;
  network = r.network;
  scheme = r.scheme;
  issued_at = r.issued_at;
  expires_at = r.expires_at;
  state = r.state;
  settled_txid = r.settled_txid;
  settled_at = r.settled_at;
  derivation_index = some r.derivation_index;
}

-- The values that `issue` binds to its INSERT.
unfoldable pub row_of : InvoiceRecord → ℕ → Row
row_of r derivation_index = record {
  invoice_hash = r.invoice_hash;
  nonce = r.nonce;
  resource_hash = r.resource_hash;
  amount_sats = to_decimal r.amount_sats;
  pay_to = r.pay_to;
  network = r.network;
  scheme = r.scheme;
  issued_at = r.issued_at;
  expires_at = r.expires_at;
  state = r.state;
  settled_txid = r.settled_txid;
  settled_at = r.settled_at;
  derivation_index = derivation_index;
}

-- `SELECT * ... WHERE` with `get`: the first row that passes the test.
unfoldable pub select : (Row → Bool) → Table → Option Row
select p [] = none
select p (r ∷ t) = let rest = select p t in if p r then some r else rest

abbrev pub has_hash : Text → Row → Bool
has_hash h r = r.invoice_hash == h

abbrev pub is_settled_by : Text → Row → Bool
is_settled_by txid r = same_txid r.settled_txid txid

-- `SELECT COALESCE(MAX(derivation_index), -1) + 1`
unfoldable pub next_index : Table → ℕ
next_index [] = 0
next_index (r ∷ t) = max (r.derivation_index + 1) (next_index t)

-- `UPDATE ... SET state = 'PAID', settled_txid = ?, settled_at = ? WHERE invoice_hash = ?`
abbrev pub settled_row : Text → ℕ → Row → Row
settled_row txid paid_at r = record r {
  state = paid;
  settled_txid = some txid;
  settled_at = some paid_at;
}

unfoldable pub update_settled : Text → Text → ℕ → Table → Table
update_settled txid h paid_at [] = []
update_settled txid h paid_at (r ∷ t) =
    (if has_hash h r then settled_row txid paid_at r else r) ∷ update_settled txid h paid_at t

-- The columns that are UNIQUE.
pub data Column : Type 0 where
  invoice_hash_column nonce_column pay_to_column : Column
  derivation_index_column settled_txid_column : Column

-- The rows agree in the column; NULL agrees with nothing.
unfoldable pub agree : Column → Row → Row → Bool
agree invoice_hash_column r s = has_hash r.invoice_hash s
agree nonce_column r s = r.nonce == s.nonce
agree pay_to_column r s = r.pay_to == s.pay_to
agree derivation_index_column r s = r.derivation_index == s.derivation_index
agree settled_txid_column r s = elim r.settled_txid [
  | none ↦ false
  | some txid ↦ is_settled_by txid s
]

abbrev pub is_taken : Column → Row → Table → Bool
is_taken c r t = is_some (select (agree c r) t)

-- What INSERT and its COMMIT answer.
pub data InsertAnswer : Type 0 where
  inserted : InsertAnswer
  unique_failed : Column → InsertAnswer
  insert_fails : InsertAnswer

-- SQLite: `begins` tells whether BEGIN IMMEDIATE and the SELECTs behind it run, and `updates`
-- whether UPDATE and its COMMIT do. An INSERT keeps the UNIQUE constraints, and a constraint that
-- is reported is one that fails.
pub record Engine : Type 0 where
  pub begins : Table → Bool
  pub insert : Row → Table → InsertAnswer
  pub updates : Table → Bool
  pub insert_keeps :
      (r : Row) (t : Table) (c : Column) → insert r t ≡ inserted → is_taken c r t ≡ false
  pub insert_reports :
      (r : Row) (t : Table) (c : Column) → insert r t ≡ unique_failed c → is_taken c r t ≡ true
