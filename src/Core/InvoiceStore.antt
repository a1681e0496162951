-- ===== src/Core/InvoiceStore.antt =====
-- invoice-store.ts: the server's invoice records, and the in-memory store. The lock runs each
-- method alone, so a method is a function from the store to the store and its result; what was
-- written before a throw stays written.
pub mod Invariant
pub mod Issuing
pub mod Adding
pub mod Histories
pub mod Addresses
pub mod Settling
pub mod Contract
use x402_xec.Common.{
  ℕ, ◌+◌, max, Bool, true, false, Option, none, some, [], Text, to_lower_case, ◌==◌, text_eq,
  nat_eq, Result, not, ok, err, if◌then◌else◌,
}
use x402_xec.Common.Dict.{Dict, get, has, set}
use x402_xec.Common.Maybe.{◌>>=◌}
use x402_xec.Common.Decimal.{to_decimal}
use x402_xec.Core.Json.{Number, add_one}
use x402_xec.Core.Schemas.{Invoice, invoice_schema, x402_version, xec_mainnet, xec_scheme}
use x402_xec.Core.Resource.{Platform}
use x402_xec.Core.Invoice.{invoice_object, compute_invoice_hash}

pub data InvoiceState : Type 0 where
  issued verifying paid : InvoiceState

-- An amount is a bigint that the schema demands to be positive: a natural number. So are the
-- times, which the schema demands to be safe and not negative. A derivation index is an integer that
-- is not negative, but a JavaScript number: `add_one` counts it up.
pub record InvoiceRecord : Type 0 where
  pub invoice_hash : Text
  pub nonce : Text
  pub resource_hash : Text
  pub amount_sats : ℕ
  pub pay_to : Text
  pub network : Text
  pub scheme : Text
  pub issued_at : ℕ
  pub expires_at : ℕ
  pub state : InvoiceState
  pub settled_txid : Option Text
  pub settled_at : Option ℕ
  pub derivation_index : Option ℕ

-- The codes of `InvoiceStoreError`, and the two throws that issueWithAllocation passes on: of the
-- allocator, and of the schema.
pub data IssueError : Type 0 where
  invoice_already_exists nonce_already_used pay_to_already_used : IssueError
  derivation_index_already_used : IssueError
  derivation_failed invalid_invoice : IssueError

pub data CommitCode : Type 0 where
  invoice_not_found conflict txid_reused : CommitCode

pub data CommitPaidResult : Type 0 where
  committed : Bool → InvoiceRecord → CommitPaidResult
  refused : CommitCode → CommitPaidResult

pub record Store : Type 0 where
  pub records : Dict Text InvoiceRecord
  pub nonce_to_invoice : Dict Text Text
  pub txid_to_invoice : Dict Text Text
  pub pay_to_to_invoice : Dict Text Text
  pub index_to_invoice : Dict ℕ Text
  pub next_derivation_index : ℕ

abbrev pub empty_store : Store
empty_store = record {
  records = [];
  nonce_to_invoice = [];
  txid_to_invoice = [];
  pay_to_to_invoice = [];
  index_to_invoice = [];
  next_derivation_index = 0;
}

-- The two writes that end both ways to issue.
abbrev add_record : InvoiceRecord → Store → Store
add_record r s = record s {
  records = set s.records r.invoice_hash r;
  nonce_to_invoice = set s.nonce_to_invoice r.nonce r.invoice_hash;
}

abbrev bind_pay_to : InvoiceRecord → Store → Store
bind_pay_to r s = record s { pay_to_to_invoice = set s.pay_to_to_invoice r.pay_to r.invoice_hash }

abbrev bind_index : ℕ → InvoiceRecord → Store → Store
bind_index i r s = record s { index_to_invoice = set s.index_to_invoice i r.invoice_hash }

-- `issue` behind its first two tests, by the record's derivation index.
issue_at : Option ℕ → InvoiceRecord → Store → Store × Result IssueError (Unit {0})
issue_at none r s = (add_record r (bind_pay_to r s), ok tt)
issue_at (some i) r s =
    if has s.pay_to_to_invoice r.pay_to
    then (s, err pay_to_already_used)
    else if has s.index_to_invoice i
    then (s, err derivation_index_already_used)
    else (
      add_record r (record (bind_index i r (bind_pay_to r s)) {
        next_derivation_index = max s.next_derivation_index (add_one i);
      }),
      ok tt,
    )

unfoldable pub issue : InvoiceRecord → Store → Store × Result IssueError (Unit {0})
unfolding issue_at
issue r s =
    if has s.records r.invoice_hash
    then (s, err invoice_already_exists)
    else if has s.nonce_to_invoice r.nonce
    then (s, err nonce_already_used)
    else issue_at r.derivation_index r s

pub record IssueParams : Type 0 where
  pub nonce : Text
  pub resource_hash : Text
  pub amount_sats : ℕ
  pub network : Option Text
  pub scheme : Option Text
  pub issued_at : Number
  pub expires_at : Number
  pub state : Option InvoiceState

pub record IssueResult : Type 0 where
  pub record_issued : InvoiceRecord
  pub invoice : Invoice

abbrev pub or_else {ℓ} : {A : Type ℓ} → Option A → A → A
or_else none d = d
or_else (some a) d = a

-- The record of an invoice that was allocated the index `i`.
unfoldable pub allocated_record : IssueParams → Invoice → Text → Text → ℕ → InvoiceRecord
allocated_record params invoice hash pay_to i = record {
  invoice_hash = hash;
  nonce = invoice.nonce;
  resource_hash = invoice.resource_hash;
  amount_sats = params.amount_sats;
  pay_to = pay_to;
  network = or_else params.network xec_mainnet;
  scheme = or_else params.scheme xec_scheme;
  issued_at = invoice.issued_at;
  expires_at = invoice.expires_at;
  state = or_else params.state issued;
  settled_txid = none;
  settled_at = none;
  derivation_index = some i;
}

-- The invoice is stored under its hash, its nonce, its address and its index.
unfoldable pub persist :
    IssueParams → Invoice → Text → Text → ℕ → Store → Store × Result IssueError IssueResult
unfolding allocated_record
persist params invoice hash pay_to i s =
    let r = allocated_record params invoice hash pay_to i in
    if has s.records hash then (s, err invoice_already_exists) else (
      bind_index i r (bind_pay_to r (add_record r s)),
      ok (record { record_issued = r; invoice = invoice }),
    )

module _ (p : Platform) where
  -- The canonical invoice for an allocated address, and its hash.
  unfoldable pub allocated_invoice : IssueParams → Text → Option (Invoice × Text)
  allocated_invoice params pay_to = do
    invoice ← invoice_schema (
        invoice_object x402_version (or_else params.scheme xec_scheme)
          (or_else params.network xec_mainnet) params.resource_hash (to_decimal params.amount_sats)
          pay_to params.nonce params.issued_at params.expires_at)
    hash ← compute_invoice_hash p invoice
    some (invoice, hash)

  -- What follows the allocator's answer.
  issue_to : IssueParams → Option Text → ℕ → Store → Store × Result IssueError IssueResult
  issue_to params none i s = (s, err derivation_failed)
  issue_to params (some pay_to) i s =
      if has s.pay_to_to_invoice pay_to
      then (s, err pay_to_already_used)
      else elim (allocated_invoice params pay_to) [
        | none ↦ (s, err invalid_invoice)
        | some (invoice, hash) ↦ persist params invoice hash pay_to i s
      ]

  -- `derive_address` is the allocator's method; `none` is its throw. The index is taken before
  -- the steps that may throw, and stays taken.
  unfoldable pub issue_with_allocation :
      (ℕ → Option Text) → IssueParams → Store → Store × Result IssueError IssueResult
  unfolding issue_to
  issue_with_allocation derive_address params s =
      if has s.nonce_to_invoice params.nonce
      then (s, err nonce_already_used)
      else let i = s.next_derivation_index in
        issue_to params (derive_address i) i (record s { next_derivation_index = add_one i })

unfoldable pub get_by_invoice_hash : Text → Store → Option InvoiceRecord
get_by_invoice_hash invoice_hash s = get s.records invoice_hash

unfoldable pub get_by_settled_txid : Text → Store → Option InvoiceRecord
get_by_settled_txid txid s = do
  invoice_hash ← get s.txid_to_invoice (to_lower_case txid)
  get s.records invoice_hash

unfoldable pub get_by_pay_to : Text → Store → Option InvoiceRecord
get_by_pay_to pay_to s = do
  invoice_hash ← get s.pay_to_to_invoice pay_to
  get s.records invoice_hash

abbrev pub get_next_derivation_index : Store → ℕ
get_next_derivation_index s = s.next_derivation_index

abbrev pub settled_record : Text → ℕ → InvoiceRecord → InvoiceRecord
settled_record txid paid_at r = record r {
  state = paid;
  settled_txid = some txid;
  settled_at = some paid_at;
}

abbrev pub same_txid : Option Text → Text → Bool
same_txid none txid = false
same_txid (some t) txid = t == txid

-- `txidToInvoice` holds another invoice for the transaction.
abbrev pub bound_elsewhere : Option Text → Text → Bool
bound_elsewhere none invoice_hash = false
bound_elsewhere (some bound) invoice_hash = not (bound == invoice_hash)

abbrev pub is_paid : InvoiceState → Bool
is_paid paid = true
is_paid _ = false

commit_record : Text → Text → ℕ → InvoiceRecord → Store → Store × CommitPaidResult
commit_record invoice_hash txid paid_at existing s =
    if bound_elsewhere (get s.txid_to_invoice txid) invoice_hash
    then (s, refused txid_reused)
    else if is_paid existing.state
    then (
      s,
      if same_txid existing.settled_txid txid then committed true existing else refused conflict,
    )
    else let updated = settled_record txid paid_at existing in
      (
        record s {
          records = set s.records invoice_hash updated;
          txid_to_invoice = set s.txid_to_invoice txid invoice_hash;
        },
        committed false updated,
      )

unfoldable pub commit_paid : Text → Text → ℕ → Store → Store × CommitPaidResult
unfolding commit_record
commit_paid invoice_hash txid paid_at s = elim (get s.records invoice_hash) [
  | none ↦ (s, refused invoice_not_found)
  | some existing ↦ commit_record invoice_hash (to_lower_case txid) paid_at existing s
]
