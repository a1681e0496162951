-- ===== src/Core/SettlementContract/Clients.antt =====
-- What every client of a store that keeps the contract (invoice-store.ts) can rely on.
use x402_xec.Common.{
  ◌⊎◌, ℕ, ◌≡◌, ◌∙◌, sym, true, Option, some, Text, ◌==◌, text_eq, text_beq_iff, if◌then◌else◌,
  arith, Bool-cases, inl, inr,
}
use x402_xec.Core.SettlementContract.{
  settled_record, same_txid, Commits, is_paid, CommitPaidResult, InvoiceRecord, SameView, View,
  SettlementStore,
}

-- A transaction pays one invoice.
abbrev pub PaidOnce : View → Type 0
PaidOnce f =
    (h k txid : Text) (x y : InvoiceRecord)
    → f h ≡ some x
    → f k ≡ some y
    → is_paid x.state ≡ true
    → is_paid y.state ≡ true
    → same_txid x.settled_txid txid ≡ true
    → same_txid y.settled_txid txid ≡ true
    → h ≡ k

SameView-PaidOnce : {f g : View} → SameView f g → PaidOnce f → PaidOnce g
SameView-PaidOnce same once h k txid x y at_h at_k =
    once h k txid x y (sym (same h) ∙ at_h) (sym (same k) ∙ at_k)

module _ (f g : View) (h txid : Text) (at : ℕ) (r : InvoiceRecord)
    (set : (k : Text) → g k ≡ (if h == k then some (settled_record txid at r) else f k)) where
  -- What is found after a settlement is the new record, or was there before.
  found_after :
      (k : Text) (x : InvoiceRecord)
      → g k ≡ some x
      → ((h ≡ k) × (x ≡ settled_record txid at r)) ⊎ (f k ≡ some x)
  found_after k x e = elim (Bool-cases (h == k)) [
    | inl same ↦ inl ((text_beq_iff h k).0 same, ground (arith, set k, same, e))
    | inr other ↦ inr (ground (arith, set k, other, e))
  ]

  settles_PaidOnce :
      PaidOnce f
      → ((k : Text) (x : InvoiceRecord)
          → f k ≡ some x
          → is_paid x.state ≡ true
          → same_txid x.settled_txid txid ≡ true
          → k ≡ h)
      → PaidOnce g
  settles_PaidOnce once free a b t x y at_a at_b paid_x paid_y by_x by_y =
      elim (found_after a x at_a) [
        | inl (a_is, x_is) ↦ elim (found_after b y at_b) [
          | inl (b_is, y_is) ↦ sym a_is ∙ b_is
          | inr before ↦
              let t_is : txid ≡ t = (text_beq_iff txid t).0 (rw (x_is) at by_x) in
              sym a_is ∙ sym (free b y before paid_y (rw t_is by_y))
        ]
        | inr before ↦ elim (found_after b y at_b) [
          | inl (b_is, y_is) ↦
              let t_is : txid ≡ t = (text_beq_iff txid t).0 (rw (y_is) at by_y) in
              free a x before paid_x (rw t_is by_x) ∙ b_is
          | inr before' ↦ once a b t x y before before' paid_x paid_y by_x by_y
        ]
      ]

Commits-PaidOnce :
    {f g : View} {h txid : Text} {at : ℕ} {answer : Option CommitPaidResult}
    → Commits f h txid at g answer
    → PaidOnce f
    → PaidOnce g
Commits-PaidOnce (Commits.unknown same e) once = SameView-PaidOnce same once
Commits-PaidOnce (Commits.reused same k r e p ne) once = SameView-PaidOnce same once
Commits-PaidOnce (Commits.retried same r e p q) once = SameView-PaidOnce same once
Commits-PaidOnce (Commits.conflicts same r e p q) once = SameView-PaidOnce same once
Commits-PaidOnce {f} {g} {h} {txid} {at} (Commits.settles r e unpaid free set) once =
    settles_PaidOnce f g h txid at r set once free
Commits-PaidOnce (Commits.throws same) once = SameView-PaidOnce same once

-- A record that is paid stays as it is.
pub Commits-keeps :
    {f g : View} {h txid : Text} {at : ℕ} {answer : Option CommitPaidResult} (k : Text)
    (r : InvoiceRecord)
    → Commits f h txid at g answer
    → f k ≡ some r
    → is_paid r.state ≡ true
    → g k ≡ some r
Commits-keeps k r (Commits.unknown same e) there paid = same k ∙ there
Commits-keeps k r (Commits.reused same j x e p ne) there paid = same k ∙ there
Commits-keeps k r (Commits.retried same x e p q) there paid = same k ∙ there
Commits-keeps k r (Commits.conflicts same x e p q) there paid = same k ∙ there
Commits-keeps {f} {g} {h} k r (Commits.settles x e unpaid free set) there paid =
    ground (arith, set k, there, e, unpaid, paid, text_beq_iff h k)
Commits-keeps k r (Commits.throws same) there paid = same k ∙ there

module _ (store : SettlementStore) where
  open store use {State, IsGood, view, commit, commit_keeps, commit_lem}

  -- Calls of commitPaid, one behind the other.
  pub data Settlements (s : State) : State → Type 0 where
    no_settlement : Settlements s s
    commits :
        {t : State} (h txid : Text) (at : ℕ)
        → Settlements s t
        → Settlements s (commit h txid at t).0

  Settlements-IsGood : {s t : State} → IsGood s → Settlements s t → IsGood t
  Settlements-IsGood good no_settlement = good
  Settlements-IsGood good (commits {t} h txid at calls) =
      commit_keeps h txid at t (Settlements-IsGood good calls)

  -- With any store that keeps the contract of commitPaid, where a transaction pays at most one
  -- invoice it does so after any calls of commitPaid.
  pub contract-PaidOnce :
      {s t : State} → IsGood s → Settlements s t → PaidOnce (view s) → PaidOnce (view t)
  contract-PaidOnce good no_settlement once = once
  contract-PaidOnce good (commits {t} h txid at calls) once =
      Commits-PaidOnce (commit_lem h txid at t (Settlements-IsGood good calls))
        (contract-PaidOnce good calls once)

  -- With any store that keeps the contract of commitPaid, a record that is paid is found as it was
  -- after any calls of commitPaid.
  pub contract_settled :
      {s t : State}
      → IsGood s
      → Settlements s t
      → (k : Text) (r : InvoiceRecord) → view s k ≡ some r
      → is_paid r.state ≡ true
      → view t k ≡ some r
  contract_settled good no_settlement k r there paid = there
  contract_settled good (commits {t} h txid at calls) k r there paid =
      Commits-keeps k r (commit_lem h txid at t (Settlements-IsGood good calls))
        (contract_settled good calls k r there paid) paid
