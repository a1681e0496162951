-- ===== src/Core/InvoiceStore/Histories.antt =====
-- The stores that a server can be in: what any order of the methods of invoice-store.ts leads to.
use x402_xec.Common.{◌<◌}
use x402_xec.Core.InvoiceStore.{
  txid_reused, refused, committed, allocated_record, Invoice, allocated_invoice, issue_to, persist,
  InvoiceRecord, Store, empty_store, IssueParams, issue, issue_at, commit_record, settled_record,
  issue_with_allocation, commit_paid, is_paid, or_else, issued,
}
use x402_xec.Common.{
  Bool, ◌≢◌, to_lower_case, text_beq_iff, ℕ, ◌≡◌, false, true, Option, some, Text, arith,
  Option-cases, inl, inr, ap, text_eq, nat_eq,
}
use x402_xec.Common.Dict.{get, get_beq, get-set}
use x402_xec.Core.Json.{exact_limit, add_one}
use x402_xec.Core.Resource.{Platform}
use x402_xec.Core.InvoiceStore.Invariant.{
  IsConsistent, empty_store-IsConsistent, commit_paid-IsConsistent, settled_invoice,
}
use x402_xec.Core.InvoiceStore.Settling.{commit_paid_bound, settled_retry, settled_replay}
use x402_xec.Core.InvoiceStore.Issuing.{issue-IsConsistent, issue_with_allocation-IsConsistent}

-- One call. No caller issues an invoice that is marked as paid.
pub data Step (p : Platform) (s : Store) : Store → Type 0 where
  issues : (r : InvoiceRecord) → is_paid r.state ≡ false → Step p s (issue r s).0
  allocates :
      (derive_address : ℕ → Option Text) (params : IssueParams)
      → is_paid (or_else params.state issued) ≡ false
      → Step p s (issue_with_allocation p derive_address params s).0
  settles :
      (invoice_hash txid : Text) (paid_at : ℕ)
      → Step p s (commit_paid invoice_hash txid paid_at s).0

pub data Reach (p : Platform) : Store → Type 0 where
  start : Reach p empty_store
  next : {s t : Store} → Reach p s → Step p s t → Reach p t

Step-IsConsistent : {p : Platform} {s t : Store} → Step p s t → IsConsistent s → IsConsistent t
Step-IsConsistent (issues r unpaid) c = issue-IsConsistent c r unpaid
Step-IsConsistent {p} (allocates derive_address params unpaid) c =
    issue_with_allocation-IsConsistent p derive_address params c unpaid
Step-IsConsistent (settles invoice_hash txid paid_at) c =
    commit_paid-IsConsistent c invoice_hash txid paid_at

-- Every store that the methods lead to is consistent.
pub Reach-IsConsistent : {p : Platform} {s : Store} → Reach p s → IsConsistent s
Reach-IsConsistent start = empty_store-IsConsistent
Reach-IsConsistent (next r step) = Step-IsConsistent step (Reach-IsConsistent r)

module _ {p : Platform} {s : Store} (reached : Reach p s) {h k : Text} (x y : InvoiceRecord)
    (at_h : get s.records h ≡ some x) (at_k : get s.records k ≡ some y) where
  -- Whatever calls of issue, issueWithAllocation and commitPaid are made on the in-memory store and
  -- in whatever order, where no invoice is issued that is already marked as paid, two records that
  -- are paid by one transaction are one invoice.
  pub paid_once :
      is_paid x.state ≡ true → is_paid y.state ≡ true → x.settled_txid ≡ y.settled_txid → h ≡ k
  paid_once paid_x paid_y same =
      let c = Reach-IsConsistent reached in
      cc (c.settled h x at_h paid_x, c.settled k y at_k paid_y, ap (settled_invoice s) same)

  -- Whatever calls are made on the in-memory store from the empty one, where no invoice is issued
  -- that is already marked as paid, two records with one nonce are one invoice.
  pub nonce_once : x.nonce ≡ y.nonce → h ≡ k
  nonce_once same =
      let c = Reach-IsConsistent reached in
      cc (c.nonces h x at_h, c.nonces k y at_k, ap (get s.nonce_to_invoice) same)

  -- Whatever calls are made on the in-memory store from the empty one, where no invoice is issued
  -- that is already marked as paid, two records with one derivation index are one invoice, as long
  -- as the next index is below 2^53, to where JavaScript counts exactly.
  pub index_once :
      s.next_derivation_index < exact_limit
      → (i : ℕ) → x.derivation_index ≡ some i
      → y.derivation_index ≡ some i
      → h ≡ k
  index_once exact i at_x at_y =
      let c = Reach-IsConsistent reached in
      cc (c.indexed exact h x i at_h at_x, c.indexed exact k y i at_k at_y)

-- The stores that calls lead to from `s`.
pub data Later (p : Platform) (s : Store) : Store → Type 0 where
  now : Later p s s
  after : {t u : Store} → Later p s t → Step p t u → Later p s u

pub Later-Reach : {p : Platform} {s t : Store} → Reach p s → Later p s t → Reach p t
Later-Reach r now = r
Later-Reach r (after l step) = next (Later-Reach r l) step

module _ (h : Text) (r : InvoiceRecord) (paid : is_paid r.state ≡ true) where
  commit_keeps :
      (k txid : Text) (at : ℕ) (s : Store)
      → get s.records h ≡ some r
      → get (commit_paid k txid at s).0.records h ≡ some r
  unfolding commit_paid commit_record
  commit_keeps k txid at s e = elim (Option-cases (get s.records k)) [
    | inl missing ↦ rw (missing, commit_paid) e
    | inr (x, found) ↦
        rw (found, commit_paid)
          (ground (
            arith,
            text_beq_iff k h,
            get_beq s.records k h,
            get-set s.records k (settled_record (to_lower_case txid) at x) h,
          ))
  ]

  issue_keeps :
      (x : InvoiceRecord) (s : Store)
      → get s.records h ≡ some r
      → get (issue x s).0.records h ≡ some r
  unfolding issue issue_at
  issue_keeps x s e =
      ground (arith, get_beq s.records x.invoice_hash h, get-set s.records x.invoice_hash x h)

  persist_keeps :
      (params : IssueParams) (invoice : Invoice) (hash pay_to : Text) (i : ℕ) (s : Store)
      → get s.records h ≡ some r
      → get (persist params invoice hash pay_to i s).0.records h ≡ some r
  unfolding persist
  persist_keeps params invoice hash pay_to i s e = ground (
    arith,
    get_beq s.records hash h,
    get-set s.records hash (allocated_record params invoice hash pay_to i) h,
  )

  allocation_keeps :
      (p : Platform) (derive_address : ℕ → Option Text) (params : IssueParams) (s : Store)
      → get s.records h ≡ some r
      → get (issue_with_allocation p derive_address params s).0.records h ≡ some r
  unfolding issue_with_allocation issue_to
  allocation_keeps p derive_address params s e =
      elim (Option-cases (derive_address s.next_derivation_index)) [
        | inl failed ↦ rw (failed, issue_with_allocation, issue_to) (ground arith)
        | inr (pay_to, derived) ↦ elim (Option-cases (allocated_invoice p params pay_to)) [
          | inl invalid ↦ rw (derived, issue_with_allocation, issue_to, invalid) (ground arith)
          | inr ((invoice, hash), made) ↦
              rw (derived, issue_with_allocation, issue_to, made)
                (ground (
                  arith,
                  persist_keeps params invoice hash pay_to s.next_derivation_index
                      (record s { next_derivation_index = add_one s.next_derivation_index }),
                ))
        ]
      ]

  Later_keeps :
      {p : Platform} {s t : Store}
      → get s.records h ≡ some r
      → Later p s t
      → get t.records h ≡ some r
  Later_keeps e now = e
  Later_keeps e (after {t} l (issues x unpaid)) = issue_keeps x t (Later_keeps e l)
  Later_keeps {p} e (after {t} l (allocates derive_address params unpaid)) =
      allocation_keeps p derive_address params t (Later_keeps e l)
  Later_keeps e (after {t} l (settles k txid at)) = commit_keeps k txid at t (Later_keeps e l)

module _ {p : Platform} {s t : Store} (reached : Reach p s) (invoice_hash txid : Text) (at : ℕ)
    (fresh : Bool) (r : InvoiceRecord)
    (committed_r : (commit_paid invoice_hash txid at s).1 ≡ committed fresh r)
    (later : Later p (commit_paid invoice_hash txid at s).0 t) where
  -- In a store that calls lead to from the empty one, where no invoice is issued that is already
  -- marked as paid, before or after, once commitPaid has bound an invoice to a transaction, then
  -- after any further calls a retry at any time is an idempotent success with the same record and
  -- no effect, and commitPaid of the same transaction for any other known invoice is refused as
  -- TXID_REUSED, without an effect.
  pub settled_for_good :
      ((again : ℕ) → commit_paid invoice_hash txid again t ≡ (t, committed true r))
      × ((other : Text) (x : InvoiceRecord) (again : ℕ)
          → get t.records other ≡ some x
          → invoice_hash ≢ other
          → commit_paid other txid again t ≡ (t, refused txid_reused))
  settled_for_good =
      let (found, paid, by) = commit_paid_bound invoice_hash txid at s fresh r committed_r in
      let c =
        Reach-IsConsistent (Later-Reach (next reached (settles invoice_hash txid at)) later) in
      let kept = Later_keeps invoice_hash r paid found later in
      (
        settled_retry c invoice_hash txid kept paid by,
        λ other x again there ne.
            settled_replay c invoice_hash txid kept paid by other again there ne,
      )
