-- ===== src/Core/SettlementContract.antt =====
-- What AuthoritativeInvoiceStore (invoice-store.ts) promises of commitPaid, for every store: a
-- relation between what can be looked up before and after, and the answer.
pub mod Clients
use x402_xec.Common.{
  ℕ, ◌≡◌, ◌≢◌, Bool, true, false, Option, none, some, Text, to_lower_case, ◌==◌, text_eq,
  if◌then◌else◌,
}
use x402_xec.Core.InvoiceStore.{
  InvoiceRecord, CommitPaidResult, committed, refused, invoice_not_found, conflict, txid_reused,
  is_paid, same_txid, settled_record,
}

-- What getByInvoiceHash finds.
abbrev pub View : Type 0
View = Text → Option InvoiceRecord

abbrev pub SameView : View → View → Type 0
SameView f g = (k : Text) → g k ≡ f k

-- `Commits f h txid at g answer`: the store that reads as `f` may answer so to commitPaid of the
-- invoice `h` by the transaction, and then reads as `g`. `none` is a rejected promise.
pub data Commits (f : View) (h txid : Text) (at : ℕ) (g : View)
    : Option CommitPaidResult → Type 0 where
  unknown : SameView f g → f h ≡ none → Commits f h txid at g (some (refused invoice_not_found))
  reused :
      SameView f g
      → (k : Text) (r : InvoiceRecord) → f k ≡ some r
      → same_txid r.settled_txid txid ≡ true
      → k ≢ h
      → Commits f h txid at g (some (refused txid_reused))
  retried :
      SameView f g
      → (r : InvoiceRecord) → f h ≡ some r
      → is_paid r.state ≡ true
      → same_txid r.settled_txid txid ≡ true
      → Commits f h txid at g (some (committed true r))
  conflicts :
      SameView f g
      → (r : InvoiceRecord) → f h ≡ some r
      → is_paid r.state ≡ true
      → same_txid r.settled_txid txid ≡ false
      → Commits f h txid at g (some (refused conflict))
  settles :
      (r : InvoiceRecord)
      → f h ≡ some r
      → is_paid r.state ≡ false
      → ((k : Text) (x : InvoiceRecord)
          → f k ≡ some x
          → is_paid x.state ≡ true
          → same_txid x.settled_txid txid ≡ true
          → k ≡ h)
      → ((k : Text) → g k ≡ (if h == k then some (settled_record txid at r) else f k))
      → Commits f h txid at g (some (committed false (settled_record txid at r)))
  throws : SameView f g → Commits f h txid at g none

-- A store whose commitPaid keeps the promise in the states that it can be in.
pub record SettlementStore : Type 1 where
  pub State : Type 0
  pub IsGood : State → Type 0
  pub view : State → View
  pub commit : Text → Text → ℕ → State → State × Option CommitPaidResult
  pub commit_keeps : (h txid : Text) (at : ℕ) (s : State) → IsGood s → IsGood (commit h txid at s).0
  pub commit_lem :
      (h txid : Text) (at : ℕ) (s : State)
      → IsGood s
      → Commits
          (view s)
          h
          (to_lower_case txid)
          at
          (view (commit h txid at s).0)
          (commit h txid at s).1
