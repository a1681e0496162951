-- ===== src/Core/InvoiceStore/Addresses.antt =====
-- Where every invoice is allocated its address, as the production middleware demands, no two
-- invoices of the in-memory store (invoice-store.ts) share one.
use x402_xec.Common.{
  ℕ, ◌≡◌, ap, Option, none, some, Text, text_eq, nat_eq, arith, Option-cases, inl, inr,
  text_beq_iff, to_lower_case,
}
use x402_xec.Common.Dict.{get, get-set, get_beq}
use x402_xec.Core.Schemas.{Invoice}
use x402_xec.Core.Json.{add_one}
use x402_xec.Core.Resource.{Platform}
use x402_xec.Core.InvoiceStore.{
  persist, allocated_record, issue_to, allocated_invoice, commit_record, settled_record,
}
use x402_xec.Core.InvoiceStore.{
  InvoiceRecord, Store, empty_store, IssueParams, issue_with_allocation, commit_paid,
}

-- Every invoice is the one that its address leads to.
abbrev pub HasAddresses : Store → Type 0
HasAddresses s =
    (h : Text) (r : InvoiceRecord)
    → get s.records h ≡ some r
    → get s.pay_to_to_invoice r.pay_to ≡ some h

persist-HasAddresses :
    (params : IssueParams) (invoice : Invoice) (hash pay_to : Text) (i : ℕ) (s : Store)
    → HasAddresses s
    → get s.pay_to_to_invoice pay_to ≡ none
    → HasAddresses (persist params invoice hash pay_to i s).0
unfolding persist
persist-HasAddresses params invoice hash pay_to i s a new h r e = ground (
  arith,
  a h r,
  get_beq s.pay_to_to_invoice pay_to r.pay_to,
  text_beq_iff hash h,
  get-set s.records hash (allocated_record params invoice hash pay_to i) h,
  get-set s.pay_to_to_invoice pay_to hash r.pay_to,
  text_beq_iff pay_to pay_to,
)

allocation-HasAddresses :
    (p : Platform) (derive_address : ℕ → Option Text) (params : IssueParams) (s : Store)
    → HasAddresses s
    → HasAddresses (issue_with_allocation p derive_address params s).0
unfolding issue_with_allocation issue_to
allocation-HasAddresses p derive_address params s a =
    let i = s.next_derivation_index in
    elim (Option-cases (get s.nonce_to_invoice params.nonce)) [
      | inr (x, old) ↦ rw (old, issue_with_allocation) a
      | inl new_nonce ↦ elim (Option-cases (derive_address i)) [
        | inl failed ↦ rw (new_nonce, failed, issue_with_allocation, issue_to) a
        | inr (pay_to, derived) ↦ elim (Option-cases (get s.pay_to_to_invoice pay_to)) [
          | inr (x, old) ↦ rw (new_nonce, derived, issue_with_allocation, issue_to, old) a
          | inl new_address ↦ elim (Option-cases (allocated_invoice p params pay_to)) [
            | inl invalid ↦
                rw (new_nonce, derived, issue_with_allocation, issue_to, new_address, invalid) a
            | inr ((invoice, hash), made) ↦
                rw (new_nonce, derived, issue_with_allocation, issue_to, new_address, made)
                  (persist-HasAddresses params invoice hash pay_to i
                    (record s { next_derivation_index = add_one i }) a new_address)
          ]
        ]
      ]
    ]

commit-HasAddresses :
    (invoice_hash txid : Text) (at : ℕ) (s : Store)
    → HasAddresses s
    → HasAddresses (commit_paid invoice_hash txid at s).0
unfolding commit_paid commit_record
commit-HasAddresses invoice_hash txid at s a h r e =
    elim (Option-cases (get s.records invoice_hash)) [
      | inl missing ↦ rw (missing, commit_paid) (a h r (rw (missing, commit_paid) at e))
      | inr (x, found) ↦
          rw (found, commit_paid)
            (ground (
              arith,
              rw (found, commit_paid) at e,
              a h r,
              a invoice_hash x,
              text_beq_iff invoice_hash h,
              get-set s.records invoice_hash (settled_record (to_lower_case txid) at x) h,
            ))
    ]

-- Calls of the two methods that the production middleware makes.
pub data AllocatedReach (p : Platform) : Store → Type 0 where
  start : AllocatedReach p empty_store
  allocates :
      {s : Store} (derive_address : ℕ → Option Text) (params : IssueParams)
      → AllocatedReach p s
      → AllocatedReach p (issue_with_allocation p derive_address params s).0
  settles :
      {s : Store} (invoice_hash txid : Text) (paid_at : ℕ)
      → AllocatedReach p s
      → AllocatedReach p (commit_paid invoice_hash txid paid_at s).0

AllocatedReach-HasAddresses : {p : Platform} {s : Store} → AllocatedReach p s → HasAddresses s
unfolding get
AllocatedReach-HasAddresses start = λ h r e. cc
AllocatedReach-HasAddresses {p} (allocates {s} derive_address params r) =
    allocation-HasAddresses p derive_address params s (AllocatedReach-HasAddresses r)
AllocatedReach-HasAddresses (settles {s} invoice_hash txid at r) =
    commit-HasAddresses invoice_hash txid at s (AllocatedReach-HasAddresses r)

-- After any calls of issueWithAllocation and commitPaid from the empty store, whatever the
-- allocator derives, two records with one payment address are one invoice.
pub address_once :
    {p : Platform} {s : Store}
    → AllocatedReach p s
    → (h k : Text) (x y : InvoiceRecord) → get s.records h ≡ some x
    → get s.records k ≡ some y
    → x.pay_to ≡ y.pay_to
    → h ≡ k
address_once {s} reached h k x y at_h at_k same =
    let a = AllocatedReach-HasAddresses reached in
    cc (a h x at_h, a k y at_k, ap (get s.pay_to_to_invoice) same)
