-- ===== src/Core/InvoiceStore/Invariant.antt =====
-- What the five maps of the in-memory store (invoice-store.ts) say of one another.
use x402_xec.Common.{
  ℕ, ◌<◌, ◌≡◌, ◌&&◌, Bool, true, false, Option, none, some, Text, to_lower_case, text_eq, nat_eq,
  subst, text_beq_iff, arith, Option-cases, inl, inr,
}
use x402_xec.Common.Dict.{get, get-set, get_beq}
use x402_xec.Core.Json.{exact_limit}
use x402_xec.Core.InvoiceStore.{
  InvoiceRecord, Store, empty_store, commit_paid, commit_record, settled_record, is_paid, same_txid,
}

-- The invoice that the store holds for the record's transaction.
abbrev pub settled_invoice : Store → Option Text → Option Text
settled_invoice s none = none
settled_invoice s (some txid) = get s.txid_to_invoice txid

-- The invoice that the store holds for the record's derivation index.
abbrev pub index_invoice : Store → Option ℕ → Option Text
index_invoice s none = none
index_invoice s (some i) = get s.index_to_invoice i

abbrev pub is_settled_by : Text → Option InvoiceRecord → Bool
is_settled_by txid none = false
is_settled_by txid (some r) = is_paid r.state && same_txid r.settled_txid txid

-- The next index is still one that is counted exactly.
abbrev pub IsExact : Store → Type 0
IsExact s = s.next_derivation_index < exact_limit

pub record IsConsistent (s : Store) : Type 0 where
  pub keyed : (h : Text) (r : InvoiceRecord) → get s.records h ≡ some r → r.invoice_hash ≡ h
  pub nonces :
      (h : Text) (r : InvoiceRecord)
      → get s.records h ≡ some r
      → get s.nonce_to_invoice r.nonce ≡ some h
  pub settled :
      (h : Text) (r : InvoiceRecord)
      → get s.records h ≡ some r
      → is_paid r.state ≡ true
      → settled_invoice s r.settled_txid ≡ some h
  pub bound :
      (txid h : Text)
      → get s.txid_to_invoice txid ≡ some h
      → is_settled_by txid (get s.records h) ≡ true
  pub indexed :
      IsExact s
      → (h : Text) (r : InvoiceRecord) (i : ℕ) → get s.records h ≡ some r
      → r.derivation_index ≡ some i
      → get s.index_to_invoice i ≡ some h
  pub index_used :
      IsExact s
      → (i : ℕ) (h : Text) → get s.index_to_invoice i ≡ some h
      → i < s.next_derivation_index

pub empty_store-IsConsistent : IsConsistent empty_store
unfolding get
empty_store-IsConsistent = record {
  keyed = λ h r e. cc;
  nonces = λ h r e. cc;
  settled = λ h r e. cc;
  bound = λ txid h e. cc;
  indexed = λ exact h r i e. cc;
  index_used = λ exact i h e. cc;
}

module _ {s : Store} (c : IsConsistent s) where
  module _ (invoice_hash txid : Text) (paid_at : ℕ) (x : InvoiceRecord)
      (found : get s.records invoice_hash ≡ some x) where
    abbrev after : Store
    after = (commit_record invoice_hash txid paid_at x s).0

    commit-keyed :
        (h : Text) (r : InvoiceRecord) → get after.records h ≡ some r → r.invoice_hash ≡ h
    unfolding commit_record
    commit-keyed h r e = ground (
      arith,
      c.keyed h r,
      c.keyed invoice_hash x found,
      get-set s.records invoice_hash (settled_record txid paid_at x) h,
      text_beq_iff invoice_hash h,
    )

    commit-nonces :
        (h : Text) (r : InvoiceRecord)
        → get after.records h ≡ some r
        → get after.nonce_to_invoice r.nonce ≡ some h
    unfolding commit_record
    commit-nonces h r e = ground (
      arith,
      c.nonces h r,
      c.nonces invoice_hash x found,
      get-set s.records invoice_hash (settled_record txid paid_at x) h,
      text_beq_iff invoice_hash h,
    )

    commit-next : after.next_derivation_index ≡ s.next_derivation_index
    unfolding commit_record
    commit-next = ground arith

    commit-indexed :
        IsExact s
        → (h : Text) (r : InvoiceRecord) (i : ℕ) → get after.records h ≡ some r
        → r.derivation_index ≡ some i
        → get after.index_to_invoice i ≡ some h
    unfolding commit_record
    commit-indexed exact h r i e d = ground (
      arith,
      c.indexed exact h r i,
      c.indexed exact invoice_hash x i found,
      get-set s.records invoice_hash (settled_record txid paid_at x) h,
      text_beq_iff invoice_hash h,
    )

    commit-settled :
        (h : Text) (r : InvoiceRecord)
        → get after.records h ≡ some r
        → is_paid r.state ≡ true
        → settled_invoice after r.settled_txid ≡ some h
    unfolding commit_record
    commit-settled h r e q = elim (Option-cases r.settled_txid) [
      | inl no_txid ↦ ground (
        arith,
        c.settled h r,
        get-set s.records invoice_hash (settled_record txid paid_at x) h,
        text_beq_iff invoice_hash h,
        get-set s.txid_to_invoice txid invoice_hash txid,
        text_beq_iff txid txid,
      )
      | inr (t, at) ↦ ground (
        arith,
        c.settled h r,
        text_beq_iff h invoice_hash,
        get_beq s.txid_to_invoice txid t,
        get-set s.records invoice_hash (settled_record txid paid_at x) h,
        text_beq_iff invoice_hash h,
        get-set s.txid_to_invoice txid invoice_hash t,
        text_beq_iff txid t,
        get-set s.txid_to_invoice txid invoice_hash txid,
        text_beq_iff txid txid,
      )
    ]

    commit-bound :
        (t h : Text)
        → get after.txid_to_invoice t ≡ some h
        → is_settled_by t (get after.records h) ≡ true
    unfolding commit_record
    commit-bound t h e = ground (
      arith,
      c.bound t h,
      c.bound t invoice_hash,
      get-set s.records invoice_hash (settled_record txid paid_at x) h,
      text_beq_iff invoice_hash h,
      get-set s.txid_to_invoice txid invoice_hash t,
      text_beq_iff txid t,
    )

    commit-index_used :
        IsExact s
        → (i : ℕ) (h : Text) → get after.index_to_invoice i ≡ some h
        → i < after.next_derivation_index
    unfolding commit_record
    commit-index_used exact i h e = ground (arith, c.index_used exact i h)

    commit_record-IsConsistent : IsConsistent (commit_record invoice_hash txid paid_at x s).0
    commit_record-IsConsistent = record {
      keyed = commit-keyed;
      nonces = commit-nonces;
      settled = commit-settled;
      bound = commit-bound;
      indexed = λ exact. commit-indexed (subst (λ (n : ℕ). n < exact_limit) commit-next exact);
      index_used =
          λ exact. commit-index_used (subst (λ (n : ℕ). n < exact_limit) commit-next exact);
    }

  -- Settling an invoice keeps the store consistent, whatever the outcome.
  pub commit_paid-IsConsistent :
      (invoice_hash txid : Text) (paid_at : ℕ)
      → IsConsistent (commit_paid invoice_hash txid paid_at s).0
  unfolding commit_paid
  commit_paid-IsConsistent invoice_hash txid paid_at =
      elim (Option-cases (get s.records invoice_hash)) [
        | inl missing ↦ rw (missing, commit_paid) c
        | inr (x, found) ↦
            rw (found, commit_paid)
              (commit_record-IsConsistent invoice_hash (to_lower_case txid) paid_at x found)
      ]
