-- ===== src/Core/InvoiceStore/Issuing.antt =====
-- Issuing an invoice keeps the in-memory store (invoice-store.ts) consistent.
use x402_xec.Core.InvoiceStore.Adding.{added-IsConsistent, added_at-IsConsistent}
use x402_xec.Common.{
  ℕ, ◌<◌, ◌≡◌, refl, ap, ◌∙◌, false, Option, none, some, Text, text_eq, max, nat_eq, arith,
  Option-cases, inl, inr,
}
use x402_xec.Common.Dict.{get, set}
use x402_xec.Core.InvoiceStore.{
  InvoiceRecord, Store, is_paid, issue, issue_at, persist, allocated_record, issue_with_allocation,
  issue_to, allocated_invoice, IssueParams, or_else, issued,
}
use x402_xec.Common.Maybe.{◌>>=◌, >>=-eq-some}
use x402_xec.Common.Decimal.{to_decimal}
use x402_xec.Core.Schemas.{Invoice, invoice_schema, x402_version, xec_mainnet, xec_scheme}
use x402_xec.Core.Json.{exact_limit, add_one, le-add_one, add_one-exact}
use x402_xec.Core.Resource.{Platform}
use x402_xec.Core.Invoice.{invoice_object, compute_invoice_hash}
use x402_xec.Core.Invoice.Laws.{invoice_schema-parts}
use x402_xec.Core.InvoiceStore.Invariant.{IsConsistent}

fits_max : (n i : ℕ) → max n (add_one i) < exact_limit → i < max n (add_one i)
fits_max n i exact =
    let more = le-add_one i in ground (arith, add_one-exact i (omega (arith, exact, more)))

issue_at-IsConsistent :
    {s : Store} (c : IsConsistent s) (r : InvoiceRecord) (d : Option ℕ)
    → r.derivation_index ≡ d
    → get s.records r.invoice_hash ≡ none
    → get s.nonce_to_invoice r.nonce ≡ none
    → is_paid r.state ≡ false
    → IsConsistent (issue_at d r s).0
unfolding issue_at
issue_at-IsConsistent {s} c r none at new_hash new_nonce unpaid =
    added-IsConsistent c r (set s.pay_to_to_invoice r.pay_to r.invoice_hash) s.index_to_invoice
      s.next_derivation_index new_hash new_nonce unpaid (omega arith) (λ exact i h e. e) (λ i e. cc)
      c.index_used
issue_at-IsConsistent {s} c r (some i) at new_hash new_nonce unpaid =
    elim (Option-cases (get s.pay_to_to_invoice r.pay_to)) [
      | inr (x, old) ↦ rw (old, issue_at) c
      | inl new_address ↦ elim (Option-cases (get s.index_to_invoice i)) [
        | inr (x, old) ↦ rw (new_address, old, issue_at) c
        | inl new_index ↦
            rw (new_address, new_index, issue_at)
              (added_at-IsConsistent c r (set s.pay_to_to_invoice r.pay_to r.invoice_hash) i
                (max s.next_derivation_index (add_one i)) new_hash new_nonce unpaid at
                (λ exact. new_index) (λ exact. fits_max s.next_derivation_index i exact)
                (omega arith))
      ]
    ]

-- `issue` keeps the store consistent, for a record that is not marked as paid.
pub issue-IsConsistent :
    {s : Store} (c : IsConsistent s) (r : InvoiceRecord)
    → is_paid r.state ≡ false
    → IsConsistent (issue r s).0
unfolding issue
issue-IsConsistent {s} c r unpaid = elim (Option-cases (get s.records r.invoice_hash)) [
  | inr (x, old) ↦ rw (old, issue) c
  | inl new_hash ↦ elim (Option-cases (get s.nonce_to_invoice r.nonce)) [
    | inr (x, old) ↦ rw (new_hash, old, issue) c
    | inl new_nonce ↦
        rw (new_hash, new_nonce, issue)
          (issue_at-IsConsistent c r r.derivation_index refl new_hash new_nonce unpaid)
  ]
]

fits_next : (i : ℕ) → add_one i < exact_limit → i < add_one i
fits_next i exact = ground (arith, add_one-exact i (omega (arith, exact, le-add_one i)))

-- A store that has taken the next index, for an invoice that is about to be made.
abbrev taken : Store → Store
taken s = record s { next_derivation_index = add_one s.next_derivation_index }

earlier : (n : ℕ) → add_one n < exact_limit → n < exact_limit
earlier n exact = omega (arith, le-add_one n, exact)

taken-IsConsistent : {s : Store} → IsConsistent s → IsConsistent (taken s)
taken-IsConsistent {s} c = record {
  keyed = c.keyed;
  nonces = c.nonces;
  settled = c.settled;
  bound = c.bound;
  indexed = λ exact. c.indexed (earlier _ exact);
  index_used = λ exact i h e.
      omega (arith, c.index_used (earlier _ exact) i h e, le-add_one s.next_derivation_index);
}

next_index_is_free :
    {s : Store}
    → IsConsistent s
    → add_one s.next_derivation_index < exact_limit
    → get s.index_to_invoice s.next_derivation_index ≡ none
next_index_is_free {s} c exact =
    elim (Option-cases (get s.index_to_invoice s.next_derivation_index)) [
      | inl free ↦ free
      | inr (h, used) ↦
          absurd (omega (arith, c.index_used (earlier _ exact) s.next_derivation_index h used))
    ]

persist-IsConsistent :
    {s : Store} (c : IsConsistent s) (params : IssueParams) (invoice : Invoice) (hash pay_to : Text)
    → get s.nonce_to_invoice invoice.nonce ≡ none
    → is_paid (or_else params.state issued) ≡ false
    → IsConsistent (persist params invoice hash pay_to s.next_derivation_index (taken s)).0
unfolding persist
persist-IsConsistent {s} c params invoice hash pay_to new_nonce unpaid =
    let i = s.next_derivation_index in
    let r = allocated_record params invoice hash pay_to i in
    elim (Option-cases (get s.records hash)) [
      | inr (x, old) ↦ rw (old, persist) (taken-IsConsistent c)
      | inl new_hash ↦
          rw (new_hash, persist)
            (added_at-IsConsistent c r (set s.pay_to_to_invoice pay_to hash) i (add_one i) new_hash
              new_nonce unpaid refl (next_index_is_free c) (fits_next i) (le-add_one i))
    ]

-- The parsed invoice keeps the nonce of the request for it.
pub allocated_invoice-nonce :
    (p : Platform) (params : IssueParams) (pay_to : Text) {invoice : Invoice} {hash : Text}
    → allocated_invoice p params pay_to ≡ some (invoice, hash)
    → invoice.nonce ≡ params.nonce
unfolding allocated_invoice
allocated_invoice-nonce p params pay_to h =
    let (parsed_invoice, parsed, rest) =
      >>=-eq-some
        (invoice_schema (
          invoice_object x402_version (or_else params.scheme xec_scheme)
            (or_else params.network xec_mainnet) params.resource_hash
            (to_decimal params.amount_sats) pay_to params.nonce params.issued_at params.expires_at))
        (λ invoice. compute_invoice_hash p invoice >>= λ hash. some (invoice, hash)) h in
    let (hash', hashed, same) =
      >>=-eq-some (compute_invoice_hash p parsed_invoice) (λ hash. some (parsed_invoice, hash))
        rest in
    let parts =
      invoice_schema-parts x402_version (or_else params.scheme xec_scheme)
        (or_else params.network xec_mainnet) params.resource_hash (to_decimal params.amount_sats)
        pay_to params.nonce params.issued_at params.expires_at parsed in
    ground (arith, parts.3)

-- `issueWithAllocation` keeps the store consistent on every path, whatever the allocator derives,
-- unless it is asked for a record that is marked as paid.
pub issue_with_allocation-IsConsistent :
    (p : Platform) (derive_address : ℕ → Option Text) (params : IssueParams) {s : Store}
    → IsConsistent s
    → is_paid (or_else params.state issued) ≡ false
    → IsConsistent (issue_with_allocation p derive_address params s).0
unfolding issue_with_allocation issue_to
issue_with_allocation-IsConsistent p derive_address params {s} c unpaid =
    elim (Option-cases (get s.nonce_to_invoice params.nonce)) [
      | inr (x, old) ↦ rw (old, issue_with_allocation) c
      | inl new_nonce ↦ elim (Option-cases (derive_address s.next_derivation_index)) [
        | inl failed ↦
            rw (new_nonce, failed, issue_with_allocation, issue_to) (taken-IsConsistent c)
        | inr (pay_to, derived) ↦ elim (Option-cases (get s.pay_to_to_invoice pay_to)) [
          | inr (x, old) ↦
              rw (new_nonce, derived, issue_with_allocation, issue_to, old) (taken-IsConsistent c)
          | inl new_address ↦ elim (Option-cases (allocated_invoice p params pay_to)) [
            | inl invalid ↦
                rw (new_nonce, derived, issue_with_allocation, issue_to, new_address, invalid)
                  (taken-IsConsistent c)
            | inr ((invoice, hash), made) ↦
                rw (new_nonce, derived, issue_with_allocation, issue_to, new_address, made)
                  (persist-IsConsistent c params invoice hash pay_to
                    (ap (get s.nonce_to_invoice) (allocated_invoice-nonce p params pay_to made)
                      ∙ new_nonce)
                    unpaid)
          ]
        ]
      ]
    ]
