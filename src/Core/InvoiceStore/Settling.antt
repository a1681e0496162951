-- ===== src/Core/InvoiceStore/Settling.antt =====
-- What commitPaid of invoice-store.ts promises: retries, conflicts, replays, and what it leaves.
use x402_xec.Common.{
  ℕ, ◌≡◌, ◌≢◌, true, Bool, some, Text, to_lower_case, arith, Option-cases, inl, inr, text_eq,
  text_beq_iff, if◌then◌else◌,
}
use x402_xec.Common.Dict.{get, get-set, get_beq}
use x402_xec.Core.InvoiceStore.{
  InvoiceRecord, Store, CommitCode, committed, refused, conflict, txid_reused, commit_paid,
  commit_record, settled_record, is_paid, bound_elsewhere, same_txid,
}
use x402_xec.Core.InvoiceStore.Invariant.{IsConsistent}

module _ (invoice_hash txid : Text) (paid_at : ℕ) (s : Store) where
  -- A refusal, of whatever kind, leaves the store as it was.
  pub commit_paid_refused :
      {code : CommitCode}
      → (commit_paid invoice_hash txid paid_at s).1 ≡ refused code
      → (commit_paid invoice_hash txid paid_at s).0 ≡ s
  unfolding commit_paid commit_record
  commit_paid_refused h = ground arith

  -- commitPaid changes the record of no invoice but the one it names.
  pub commit_paid_frame :
      (other : Text)
      → invoice_hash ≢ other
      → get (commit_paid invoice_hash txid paid_at s).0.records other ≡ get s.records other
  unfolding commit_paid commit_record
  commit_paid_frame other ne = elim (Option-cases (get s.records invoice_hash)) [
    | inl missing ↦ rw (missing, commit_paid)
    | inr (x, found) ↦
        rw (found, commit_paid)
          (ground (
            arith,
            text_beq_iff invoice_hash other,
            get-set s.records invoice_hash (settled_record (to_lower_case txid) paid_at x) other,
          ))
  ]

  module _ (fresh : Bool) (r : InvoiceRecord)
      (paid : (commit_paid invoice_hash txid paid_at s).1 ≡ committed fresh r) where
    -- What a commitment that succeeds leaves: the record is paid by the transaction.
    pub commit_paid_bound :
        (get (commit_paid invoice_hash txid paid_at s).0.records invoice_hash ≡ some r)
        × (is_paid r.state ≡ true)
        × (same_txid r.settled_txid (to_lower_case txid) ≡ true)
    unfolding commit_paid commit_record
    commit_paid_bound = elim (Option-cases (get s.records invoice_hash)) [
      | inl missing ↦ cc (rw (missing, commit_paid) at paid)
      | inr (x, found) ↦
          rw (found, commit_paid)
            (ground (
              arith,
              rw (found, commit_paid) at paid,
              text_beq_iff invoice_hash invoice_hash,
              text_beq_iff (to_lower_case txid) (to_lower_case txid),
              get-set s.records invoice_hash (settled_record (to_lower_case txid) paid_at x)
                  invoice_hash,
            ))
    ]

-- A consistent store in which an invoice is paid by a transaction.
module _ {s : Store} (c : IsConsistent s) (invoice_hash txid : Text) {r : InvoiceRecord}
    (found : get s.records invoice_hash ≡ some r) (paid : is_paid r.state ≡ true)
    (by : same_txid r.settled_txid (to_lower_case txid) ≡ true) where
  txid_bound : get s.txid_to_invoice (to_lower_case txid) ≡ some invoice_hash
  txid_bound = elim (Option-cases r.settled_txid) [
    | inl no_txid ↦ ground (arith, by)
    | inr (t, at) ↦
        ground (arith, c.settled invoice_hash r, get_beq s.txid_to_invoice t (to_lower_case txid))
  ]

  -- The same call again is a success that changes nothing.
  pub settled_retry : (at : ℕ) → commit_paid invoice_hash txid at s ≡ (s, committed true r)
  unfolding commit_paid commit_record
  settled_retry at =
      rw (found, commit_paid) (ground (arith, txid_bound, text_beq_iff invoice_hash invoice_hash))

  -- In a consistent store in which an invoice is paid by a transaction, commitPaid of another
  -- transaction for it is refused without an effect, as TXID_REUSED if that one is bound to another
  -- invoice and as CONFLICT otherwise.
  pub settled_conflict :
      (other : Text) (at : ℕ)
      → to_lower_case other ≢ to_lower_case txid
      → commit_paid invoice_hash other at s ≡ (
        s,
        refused (
            if bound_elsewhere (get s.txid_to_invoice (to_lower_case other)) invoice_hash
            then txid_reused
            else conflict),
      )
  unfolding commit_paid commit_record
  settled_conflict other at ne = elim (Option-cases r.settled_txid) [
    | inl no_txid ↦ ground (arith, by)
    | inr (t, e) ↦
        rw (found, commit_paid)
          (ground
            (arith, text_beq_iff t (to_lower_case txid), text_beq_iff t (to_lower_case other)))
  ]

  -- The transaction pays no other invoice.
  pub settled_replay :
      (other : Text) (at : ℕ) {x : InvoiceRecord}
      → get s.records other ≡ some x
      → invoice_hash ≢ other
      → commit_paid other txid at s ≡ (s, refused txid_reused)
  unfolding commit_paid commit_record
  settled_replay other at there ne =
      rw (there, commit_paid) (ground (arith, txid_bound, text_beq_iff invoice_hash other))
