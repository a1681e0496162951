-- ===== src/Core/InvoiceStore/Adding.antt =====
-- A new record keeps the in-memory store (invoice-store.ts) consistent.
use x402_xec.Common.{
  ℕ, ◌<◌, ◌≡◌, true, false, none, some, Text, text_eq, nat_eq, text_beq_iff, nat_beq_iff, arith,
  ◌≤◌,
}
use x402_xec.Common.Dict.{Dict, get, set, get-set, get_beq}
use x402_xec.Core.InvoiceStore.{InvoiceRecord, Store, is_paid, add_record}
use x402_xec.Core.Json.{exact_limit}
use x402_xec.Core.InvoiceStore.Invariant.{IsConsistent, settled_invoice, is_settled_by}

-- A record that neither its hash nor its nonce nor its index clashes with.
module _ {s : Store} (c : IsConsistent s) (r : InvoiceRecord) (addresses : Dict Text Text)
    (index : Dict ℕ Text) (next : ℕ) (new_hash : get s.records r.invoice_hash ≡ none)
    (new_nonce : get s.nonce_to_invoice r.nonce ≡ none) (unpaid : is_paid r.state ≡ false) where
  abbrev added : Store
  added = record (add_record r s) {
    pay_to_to_invoice = addresses;
    index_to_invoice = index;
    next_derivation_index = next;
  }

  added-keyed : (h : Text) (x : InvoiceRecord) → get added.records h ≡ some x → x.invoice_hash ≡ h
  added-keyed h x e =
      ground
        (arith, c.keyed h x, get-set s.records r.invoice_hash r h, text_beq_iff r.invoice_hash h)

  added-nonces :
      (h : Text) (x : InvoiceRecord)
      → get added.records h ≡ some x
      → get added.nonce_to_invoice x.nonce ≡ some h
  added-nonces h x e = ground (
    arith,
    c.nonces h x,
    get-set s.records r.invoice_hash r h,
    text_beq_iff r.invoice_hash h,
    get-set s.nonce_to_invoice r.nonce r.invoice_hash x.nonce,
    text_beq_iff r.nonce x.nonce,
    get_beq s.nonce_to_invoice r.nonce x.nonce,
  )

  added-settled :
      (h : Text) (x : InvoiceRecord)
      → get added.records h ≡ some x
      → is_paid x.state ≡ true
      → settled_invoice added x.settled_txid ≡ some h
  added-settled h x e q = ground (arith, c.settled h x, get-set s.records r.invoice_hash r h)

  added-bound :
      (txid h : Text)
      → get added.txid_to_invoice txid ≡ some h
      → is_settled_by txid (get added.records h) ≡ true
  added-bound txid h e = ground (
    arith,
    c.bound txid h,
    get-set s.records r.invoice_hash r h,
    text_beq_iff r.invoice_hash h,
    get_beq s.records r.invoice_hash h,
  )

  pub added-IsConsistent :
      s.next_derivation_index ≤ next
      → (next < exact_limit
          → (i : ℕ) (h : Text) → get s.index_to_invoice i ≡ some h
          → get index i ≡ some h)
      → ((i : ℕ) → r.derivation_index ≡ some i → get index i ≡ some r.invoice_hash)
      → (next < exact_limit → (i : ℕ) (h : Text) → get index i ≡ some h → i < next)
      → IsConsistent added
  added-IsConsistent grows keeps binds used = record {
    keyed = added-keyed;
    nonces = added-nonces;
    settled = added-settled;
    bound = added-bound;
    indexed = λ exact h x i e d. ground (
      arith,
      c.indexed (omega (arith, grows, exact)) h x i,
      keeps exact i h,
      binds i,
      get-set s.records r.invoice_hash r h,
      text_beq_iff r.invoice_hash h,
    );
    index_used = used;
  }

-- With the index `i` bound to the new record.
module _ {s : Store} (c : IsConsistent s) (r : InvoiceRecord) (addresses : Dict Text Text)
    (i next : ℕ) (new_hash : get s.records r.invoice_hash ≡ none)
    (new_nonce : get s.nonce_to_invoice r.nonce ≡ none) (unpaid : is_paid r.state ≡ false)
    (at : r.derivation_index ≡ some i)
    (new_index : next < exact_limit → get s.index_to_invoice i ≡ none)
    (fits : next < exact_limit → i < next) (grows : s.next_derivation_index ≤ next) where
  pub added_at-IsConsistent :
      IsConsistent (
        added c r addresses
          (set s.index_to_invoice i r.invoice_hash)
          next
          new_hash
          new_nonce
          unpaid)
  added_at-IsConsistent =
      added-IsConsistent c r addresses (set s.index_to_invoice i r.invoice_hash) next new_hash
        new_nonce unpaid grows
        (λ exact j h e. ground (
          arith,
          new_index exact,
          get-set s.index_to_invoice i r.invoice_hash j,
          nat_beq_iff i j,
          get_beq s.index_to_invoice i j,
        ))
        (λ j e. ground (arith, get-set s.index_to_invoice i r.invoice_hash j, nat_beq_iff i j))
        (λ exact j h e. ground (
          arith,
          fits exact,
          c.index_used (omega (arith, grows, exact)) j h,
          get-set s.index_to_invoice i r.invoice_hash j,
          nat_beq_iff i j,
        ))
