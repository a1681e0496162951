-- ===== src/Core/InvoiceStore/Contract.antt =====
-- The in-memory store (invoice-store.ts) keeps the contract of commitPaid.
use x402_xec.Core.InvoiceStore.{
  settled_record, txid_reused, same_txid, bound_elsewhere, is_paid, refused, InvoiceRecord,
  commit_record, commit_paid, Store,
}
use x402_xec.Common.{
  ℕ, ◌≡◌, true, false, not, some, Text, to_lower_case, ◌==◌, text_eq, text_beq_iff, arith,
  Bool-cases, Option-cases, inl, inr, refl,
}
use x402_xec.Common.Dict.{get, get-set, get_beq}
use x402_xec.Core.SettlementContract.{Commits, SettlementStore, View}
use x402_xec.Core.InvoiceStore.Invariant.{IsConsistent, commit_paid-IsConsistent}

abbrev pub view : Store → View
view s k = get s.records k

-- What is paid by a transaction is what the store holds for it.
paid_bound :
    {s : Store} (c : IsConsistent s) (k txid : Text) (y : InvoiceRecord)
    → get s.records k ≡ some y
    → is_paid y.state ≡ true
    → same_txid y.settled_txid txid ≡ true
    → get s.txid_to_invoice txid ≡ some k
paid_bound {s} c k txid y there paid by = elim (Option-cases y.settled_txid) [
  | inl no_txid ↦ ground (arith, by)
  | inr (t, at) ↦ ground (arith, c.settled k y there paid, get_beq s.txid_to_invoice t txid)
]

module _ (h txid : Text) (at : ℕ) (s : Store) (c : IsConsistent s) where
  -- The answer where the transaction is bound to another invoice.
  reused_lem :
      (k : Text)
      → get s.txid_to_invoice txid ≡ some k
      → not (k == h) ≡ true
      → Commits (view s) h txid at (view s) (some (refused txid_reused))
  reused_lem k bound other = elim (Option-cases (get s.records k)) [
    | inl missing ↦ ground (arith, c.bound txid k bound)
    | inr (y, there) ↦
        Commits.reused (λ j. refl) k y there (ground (arith, c.bound txid k bound))
          (λ e. ground (arith, text_beq_iff k h))
  ]

  -- The answer where it is not.
  unbound_lem :
      (x : InvoiceRecord)
      → get s.records h ≡ some x
      → bound_elsewhere (get s.txid_to_invoice txid) h ≡ false
      → Commits
          (view s)
          h
          txid
          at
          (view (commit_record h txid at x s).0)
          (some (commit_record h txid at x s).1)
  unfolding commit_record
  unbound_lem x found free = elim (Bool-cases (is_paid x.state)) [
    | inl paid ↦ elim (Bool-cases (same_txid x.settled_txid txid)) [
      | inl same ↦
          rw (free, paid, same, commit_record) (Commits.retried (λ k. refl) x found paid same)
      | inr other ↦
          rw (free, paid, other, commit_record) (Commits.conflicts (λ k. refl) x found paid other)
    ]
    | inr unpaid ↦
        rw (free, unpaid, commit_record)
          (Commits.settles x found unpaid
            (λ k y there paid by.
              ground (arith, free, paid_bound c k txid y there paid by, text_beq_iff k h))
            (λ k. get-set s.records h (settled_record txid at x) k))
  ]

  commit_record_lem :
      (x : InvoiceRecord)
      → get s.records h ≡ some x
      → Commits
          (view s)
          h
          txid
          at
          (view (commit_record h txid at x s).0)
          (some (commit_record h txid at x s).1)
  unfolding commit_record
  commit_record_lem x found = elim (Option-cases (get s.txid_to_invoice txid)) [
    | inl free ↦ unbound_lem x found (rw free refl)
    | inr (k, bound) ↦ elim (Bool-cases (not (k == h))) [
      | inl other ↦ rw (bound, other, commit_record) (reused_lem k bound other)
      | inr same ↦ unbound_lem x found (rw (bound) same)
    ]
  ]

module _ (h txid : Text) (at : ℕ) (s : Store) (c : IsConsistent s) where
  -- In a consistent store commitPaid of InMemoryAuthoritativeInvoiceStore is a commitment that the
  -- contract allows.
  pub memory-commit_paid_refines :
      Commits
        (view s)
        h
        (to_lower_case txid)
        at
        (view (commit_paid h txid at s).0)
        (some (commit_paid h txid at s).1)
  unfolding commit_paid
  memory-commit_paid_refines = elim (Option-cases (get s.records h)) [
    | inl missing ↦ rw (missing, commit_paid) (Commits.unknown (λ k. refl) missing)
    | inr (x, found) ↦
        rw (found, commit_paid) (commit_record_lem h (to_lower_case txid) at s c x found)
  ]

-- The store behind the contract's interface.
abbrev pub memory_store : SettlementStore
memory_store = record {
  State = Store;
  IsGood = IsConsistent;
  view = view;
  commit = λ h txid at s. let (t, answer) = commit_paid h txid at s in (t, some answer);
  commit_keeps = λ h txid at s c. commit_paid-IsConsistent c h txid at;
  commit_lem = memory-commit_paid_refines;
}
