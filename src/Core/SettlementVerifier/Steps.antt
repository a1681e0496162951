-- ===== src/Core/SettlementVerifier/Steps.antt =====
-- What the steps of settlement-verifier.ts before the commitment have established.
use x402_xec.Core.Chronik.{
  ChronikBlock, TxOutput, RawTx, RawBlock, TxProvider, Answer, answered, rejected,
  valid_chronik_block,
}
use x402_xec.Common.{
  suc, zero, ℕ, ◌+◌, ◌≤◌, ◌<◌, ◌≡◌, ◌⊎◌, inl, inr, refl, true, false, Option, none, some, List,
  Text, to_lower_case, text_eq, nat_eq, arith, ok, Option-cases, is_some, text_beq_iff,
}
use x402_xec.Core.Json.{Json, Number, safe_nonnegative}
use x402_xec.Core.Schemas.{settlement_proof_schema, SettlementProof}
use x402_xec.Core.Resource.{Platform, ResourceRequest, compute_resource_hash}
use x402_xec.Core.CashAddr.{AddressCodec, is_valid_cash_address, cash_address_to_output_script_hex}
use x402_xec.Core.InvoiceStore.{InvoiceRecord, Store, get_by_invoice_hash, is_paid, same_txid}
use x402_xec.Core.SettlementVerifier.{
  VerifyOptions, load_invoice, check_resource, check_window, fetch_transaction, check_finality,
  check_history, expected_script, temporal_fence_tolerance,
}

-- The script of the address, by the caller's converter where there is one.
abbrev pub converted : AddressCodec → Option (Text → Option Text) → Text → Option Text
converted codec none pay_to = cash_address_to_output_script_hex codec pay_to
converted codec (some convert) pay_to = convert pay_to

-- Final by Avalanche, or in a well-formed block.
abbrev pub IsFinal : RawTx → Type 0
IsFinal tx =
    (tx.is_final ≡ some true)
    ⊎ ((raw : RawBlock) × (tx.block ≡ some raw) × (is_some (valid_chronik_block raw) ≡ true))

pub load_invoice_lem :
    (untrusted : Json) (s : Store) {proof : SettlementProof} {invoice : InvoiceRecord}
    → load_invoice untrusted s ≡ ok (proof, invoice)
    → (settlement_proof_schema untrusted ≡ some proof)
      × (get_by_invoice_hash proof.invoice_hash s ≡ some invoice)
unfolding load_invoice
load_invoice_lem untrusted s h = ground arith

pub check_resource_lem :
    (p : Platform) (resource : Option ResourceRequest) (invoice : InvoiceRecord) {u : Unit {0}}
    → check_resource p resource invoice ≡ ok u
    → (r : ResourceRequest) → resource ≡ some r
    → compute_resource_hash p r ≡ some invoice.resource_hash
unfolding check_resource
check_resource_lem p none invoice h r e = cc
check_resource_lem p (some resource) invoice h r e =
    elim (Option-cases (compute_resource_hash p resource)) [
      | inl failed ↦ ground arith
      | inr (hash, made) ↦ ground (arith, text_beq_iff hash invoice.resource_hash)
    ]

pub check_window_lem :
    (clock : Number) (txid : Text) (invoice : InvoiceRecord) {now : ℕ}
    → check_window clock txid invoice ≡ ok now
    → (safe_nonnegative clock ≡ some now)
      × (invoice.issued_at ≤ now)
      × ((is_paid invoice.state ≡ false) × (now < invoice.expires_at)
          ⊎ (is_paid invoice.state ≡ true) × (same_txid invoice.settled_txid txid ≡ true))
unfolding check_window
check_window_lem clock txid invoice h = ground arith

fetched_answer :
    (provider : TxProvider) (txid : Text) (a : Answer) {tx : RawTx} {outputs : List TxOutput}
    → provider txid ≡ a
    → fetch_transaction provider txid ≡ ok (tx, outputs)
    → (a ≡ answered (some tx))
      × (tx.outputs ≡ some outputs)
      × ((t : Text) × (tx.txid ≡ some t) × (to_lower_case t ≡ to_lower_case txid))
unfolding fetch_transaction
fetched_answer provider txid (answered none) e h = cc (rw (e, fetch_transaction) at h)
fetched_answer provider txid (answered (some raw)) e h = elim (Option-cases raw.txid) [
  | inl missing ↦ ground (arith, rw (e, fetch_transaction) at h)
  | inr (t, at) ↦ (
    ground (arith, rw (e, fetch_transaction) at h),
    ground (arith, rw (e, fetch_transaction) at h),
    (
      t,
      ground (arith, rw (e, fetch_transaction) at h),
      ground (
        arith,
        rw (e, fetch_transaction) at h,
        text_beq_iff (to_lower_case t) (to_lower_case txid),
      ),
    ),
  )
]
fetched_answer provider txid (rejected reason) e h = ground (arith, rw (e, fetch_transaction) at h)

pub fetch_transaction_lem :
    (provider : TxProvider) (txid : Text) {tx : RawTx} {outputs : List TxOutput}
    → fetch_transaction provider txid ≡ ok (tx, outputs)
    → (provider txid ≡ answered (some tx))
      × (tx.outputs ≡ some outputs)
      × ((t : Text) × (tx.txid ≡ some t) × (to_lower_case t ≡ to_lower_case txid))
fetch_transaction_lem provider txid h = fetched_answer provider txid (provider txid) refl h

pub check_finality_lem :
    (tx : RawTx) {observed_at : ℕ} → check_finality tx ≡ ok observed_at → IsFinal tx
unfolding check_finality
check_finality_lem tx h = elim (Option-cases tx.block) [
  | inl unconfirmed ↦ inl (ground arith)
  | inr (raw, confirmed) ↦ inr (raw, confirmed, ground arith)
]

-- When the transaction was seen: when the index first saw it, if that is known, and otherwise when
-- its block was made.
abbrev pub IsObserved : RawTx → ℕ → Type 0
IsObserved tx at =
    (first_seen : ℕ) × (safe_nonnegative tx.time_first_seen ≡ some first_seen)
    × ((0 < first_seen) × (at ≡ first_seen)
        ⊎ (first_seen ≡ 0)
          × ((raw : RawBlock) × (block : ChronikBlock) × (tx.block ≡ some raw)
              × (valid_chronik_block raw ≡ some block)
              × (at ≡ block.timestamp)))

pub check_finality-IsObserved :
    (tx : RawTx) {observed_at : ℕ} → check_finality tx ≡ ok observed_at → IsObserved tx observed_at
unfolding check_finality
check_finality-IsObserved tx h = elim (Option-cases (safe_nonnegative tx.time_first_seen)) [
  | inl unsafe ↦ ground arith
  | inr (suc n, at) ↦ (suc n, at, inl (ground arith, ground arith))
  | inr (zero, at) ↦ elim (Option-cases tx.block) [
    | inl unconfirmed ↦ ground arith
    | inr (raw, confirmed) ↦ elim (Option-cases (valid_chronik_block raw)) [
      | inl malformed ↦ ground arith
      | inr (block, valid) ↦ (zero, at, inr (refl, (raw, block, confirmed, valid, ground arith)))
    ]
  ]
]

pub check_history_lem :
    (observed_at : ℕ) (invoice : InvoiceRecord) {u : Unit {0}}
    → check_history observed_at invoice ≡ ok u
    → invoice.issued_at ≤ observed_at + temporal_fence_tolerance
unfolding check_history
check_history_lem observed_at invoice h = ground arith

pub expected_script_lem :
    (p : Platform) (codec : AddressCodec) (options : VerifyOptions) (pay_to : Text) {script : Text}
    → expected_script p codec options pay_to ≡ ok script
    → (is_valid_cash_address codec pay_to ≡ true)
      × ((raw : Text) × (converted codec options.address_to_script pay_to ≡ some raw)
          × (script ≡ to_lower_case raw))
unfolding expected_script
expected_script_lem p codec options pay_to h =
    elim (Option-cases (converted codec options.address_to_script pay_to)) [
      | inl failed ↦ ground arith
      | inr (raw, at) ↦ (ground arith, (raw, at, ground arith))
    ]
