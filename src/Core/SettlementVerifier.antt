-- ===== src/Core/SettlementVerifier.antt =====
-- settlement-verifier.ts: the proof of a payment against the server's invoices and the chain. The
-- steps between two returns are a function each, in the order of the source; messages are left
-- out. The invoice is read and later committed by two calls of the store, and other requests may
-- run in between, so the store is given twice: as it is read, and as it is at the commitment.
pub mod Outputs
pub mod Steps
pub mod Safety
use x402_xec.Common.{
  ℕ, zero, suc, ◌+◌, Bool, true, false, not, Option, none, some, List, [], ◌∷◌, ◌++◌, ◌&&◌, ◌||◌,
  Text, leb, ltb, to_lower_case, ◌==◌, text_eq, nat_eq, Result, ok, err, ◌>>=◌, ◌>>◌, reject,
  require, if◌then◌else◌,
}
use x402_xec.Core.Json.{Number, Json, safe_nonnegative}
use x402_xec.Core.Schemas.{SettlementProof, settlement_proof_schema, x402_version, xec_mainnet}
use x402_xec.Core.Resource.{Platform, ResourceRequest, compute_resource_hash}
use x402_xec.Core.CashAddr.{
  AddressCodec, decode_cash_address, is_valid_cash_address, cash_address_to_output_script_hex,
}
use x402_xec.Core.Chronik.{
  TxOutput, RawTx, RawBlock, ChronikBlock, TxProvider, Answer, answered, rejected,
  tx_not_found_error, tx_not_found_code, other_error, valid_chronik_block, is_true, has_token,
  same_text,
}
use x402_xec.Core.InvoiceStore.{
  InvoiceRecord, Store, CommitPaidResult, CommitCode, committed, refused, conflict, txid_reused,
  invoice_not_found, get_by_invoice_hash, commit_paid, is_paid, same_txid,
}

pub data ErrorCode : Type 0 where
  malformed_proof unknown_invoice resource_mismatch network_mismatch version_mismatch : ErrorCode
  invoice_expired invoice_not_yet_valid invalid_server_time tx_not_found : ErrorCode
  transaction_not_final transaction_time_unknown historical_transaction pay_to_mismatch : ErrorCode
  amount_mismatch token_output_disallowed output_not_found txid_conflict reused_txid : ErrorCode
  chronik_unavailable malformed_chronik_tx : ErrorCode

-- A result with `ok: false`, or the TypeError that an expected resource may cause.
pub data Failure : Type 0 where
  failure : ℕ → ErrorCode → Failure
  thrown : Failure

abbrev pub Step {ℓ} : Type ℓ → Type ℓ
Step A = Result Failure A

pub record VerifyOptions : Type 0 where
  pub proof : Json
  pub tx_provider : TxProvider
  pub expected_resource : Option ResourceRequest
  pub now : Number
  -- a converter that may throw
  pub address_to_script : Option (Text → Option Text)

-- `TEMPORAL_FENCE_TOLERANCE_SECONDS`
abbrev pub temporal_fence_tolerance : ℕ
temporal_fence_tolerance = 10

-- Steps 1 to 3: the proof's schema, the issued invoice, the network and the version.
unfoldable pub load_invoice : Json → Store → Step (SettlementProof × InvoiceRecord)
load_invoice untrusted s = do
  proof ← require (settlement_proof_schema untrusted) (failure 400 malformed_proof)
  invoice ← require (get_by_invoice_hash proof.invoice_hash s) (failure 402 unknown_invoice)
  reject (not (invoice.network == xec_mainnet) || not (proof.network == xec_mainnet))
      (failure 400 network_mismatch)
  reject (not (proof.version == x402_version)) (failure 400 version_mismatch)
  ok (proof, invoice)

-- Step 4: the resource that the caller expects.
unfoldable pub check_resource : Platform → Option ResourceRequest → InvoiceRecord → Step (Unit {0})
check_resource p none invoice = ok tt
check_resource p (some resource) invoice = do
  hash ← require (compute_resource_hash p resource) thrown
  reject (not (hash == invoice.resource_hash)) (failure 400 resource_mismatch)

-- Step 5: the clock, the invoice's window, and a payment by another transaction.
unfoldable pub check_window : Number → Text → InvoiceRecord → Step ℕ
check_window clock txid invoice = do
  now ← require (safe_nonnegative clock) (failure 500 invalid_server_time)
  reject (ltb now invoice.issued_at) (failure 400 invoice_not_yet_valid)
  let is_idempotent_retry = is_paid invoice.state && same_txid invoice.settled_txid txid
  reject (not is_idempotent_retry && not (is_paid invoice.state) && leb invoice.expires_at now)
      (failure 402 invoice_expired)
  reject (is_paid invoice.state && not (same_txid invoice.settled_txid txid))
      (failure 409 txid_conflict)
  ok now

-- Step 6: the answer of the server's own provider.
unfoldable pub received : Answer → Step (Option RawTx)
received (answered tx) = ok tx
received (rejected tx_not_found_error) = err (failure 402 tx_not_found)
received (rejected tx_not_found_code) = err (failure 402 tx_not_found)
received (rejected other_error) = err (failure 502 chronik_unavailable)

-- Steps 6 and 7: the transaction, with its outputs, under the txid of the proof.
unfoldable pub fetch_transaction : TxProvider → Text → Step (RawTx × List TxOutput)
unfolding received
fetch_transaction provider txid = do
  answer ← received (provider txid)
  tx ← require answer (failure 502 malformed_chronik_tx)
  tx_txid ← require tx.txid (failure 502 malformed_chronik_tx)
  outputs ← require tx.outputs (failure 502 malformed_chronik_tx)
  reject (not (to_lower_case tx_txid == to_lower_case txid)) (failure 502 malformed_chronik_tx)
  ok (tx, outputs)

-- The confirming block, if there is one. A malformed one is refused.
unfoldable pub confirmed_block : Option RawBlock → Step (Option ChronikBlock)
confirmed_block none = ok none
confirmed_block (some raw) = do
  block ← require (valid_chronik_block raw) (failure 502 malformed_chronik_tx)
  ok (some block)

abbrev observed_by : ℕ → Option ChronikBlock → Step ℕ
observed_by (suc n) block = ok (suc n)
observed_by zero (some block) = ok block.timestamp
observed_by zero none = err (failure 502 transaction_time_unknown)

-- Steps 8 to 8c: finality, and the time at which the transaction was seen.
unfoldable pub check_finality : RawTx → Step ℕ
unfolding confirmed_block
check_finality tx = do
  final ← require tx.is_final (failure 502 malformed_chronik_tx)
  block ← confirmed_block tx.block
  time_first_seen ← require (safe_nonnegative tx.time_first_seen) (failure 502 malformed_chronik_tx)
  reject (elim block [ none ↦ not final | some b ↦ false ]) (failure 402 transaction_not_final)
  observed_by time_first_seen block

-- Step 8d. `observedAt < issuedAt - tolerance`, with the difference moved to the other side, where
-- it cannot be negative.
unfoldable pub check_history : ℕ → InvoiceRecord → Step (Unit {0})
check_history observed_at invoice =
    reject (ltb (observed_at + temporal_fence_tolerance) invoice.issued_at)
      (failure 402 historical_transaction)

-- The variables of the loop over the outputs.
pub record Matching : Type 0 where
  pub matched_output_index : Option ℕ
  pub has_script_match : Bool
  pub has_token_output : Bool
  pub wrong_amount_seen : Option ℕ

-- The loop, from the output at `idx` on. A match ends it.
unfoldable pub match_outputs : Text → ℕ → ℕ → List TxOutput → Matching → Matching
match_outputs script amount idx [] m = m
match_outputs script amount idx (output ∷ outputs) m =
    let skip = match_outputs script amount (idx + 1) outputs m in
    let token =
      match_outputs script amount (idx + 1) outputs
        (record m { has_script_match = true; has_token_output = true }) in
    let wrong =
      match_outputs script amount (idx + 1) outputs
        (record m { has_script_match = true; wrong_amount_seen = some output.sats }) in
    if not (to_lower_case output.output_script == script)
    then skip
    else if has_token output.token
    then token
    else if output.sats == amount
    then record m { matched_output_index = some idx; has_script_match = true }
    else wrong

abbrev pub unmatched : Matching
unmatched = record {
  matched_output_index = none;
  has_script_match = false;
  has_token_output = false;
  wrong_amount_seen = none;
}

-- What the loop found, as the index or the failure.
unfoldable pub select_output : Matching → Step ℕ
select_output m = do
  reject (not m.has_script_match) (failure 402 pay_to_mismatch)
  elim m.matched_output_index [
    | some idx ↦ ok idx
    | none ↦
        if m.has_token_output
        then err (failure 402 token_output_disallowed)
        else elim m.wrong_amount_seen [
          | some sats ↦ err (failure 402 amount_mismatch)
          | none ↦ err (failure 402 output_not_found)
        ]
  ]

pub record Success : Type 0 where
  pub invoice : InvoiceRecord
  pub proof : SettlementProof
  pub matched_output_index : ℕ
  pub transaction : RawTx
  pub idempotent : Bool

-- What the steps before the commitment find.
pub record Evidence : Type 0 where
  pub proof : SettlementProof
  pub invoice : InvoiceRecord
  pub now : ℕ
  pub transaction : RawTx
  pub outputs : List TxOutput
  pub observed_at : ℕ
  pub script : Text
  pub index : ℕ

-- Step 10: the result of the commitment.
unfoldable pub settle : Evidence → CommitPaidResult → Step Success
settle e (committed idempotent r) = ok (record {
  invoice = r;
  proof = e.proof;
  matched_output_index = e.index;
  transaction = e.transaction;
  idempotent = idempotent;
})
settle e (refused conflict) = err (failure 409 txid_conflict)
settle e (refused txid_reused) = err (failure 409 reused_txid)
settle e (refused invoice_not_found) = err (failure 400 unknown_invoice)

module _ (p : Platform) (codec : AddressCodec) where
  -- Step 9: the strict decoder is asked first, then the converter.
  unfoldable pub expected_script : VerifyOptions → Text → Step Text
  expected_script options pay_to = do
    reject (not (is_valid_cash_address codec pay_to)) (failure 500 pay_to_mismatch)
    script ←
        require
          (elim options.address_to_script [
            | none ↦ cash_address_to_output_script_hex codec pay_to
            | some convert ↦ convert pay_to
          ])
          (failure 500 pay_to_mismatch)
    ok (to_lower_case script)

  unfoldable pub gather_evidence : VerifyOptions → Store → Step Evidence
  gather_evidence options s = do
    loaded ← load_invoice options.proof s
    let proof = loaded.0
    let invoice = loaded.1
    check_resource p options.expected_resource invoice
    now ← check_window options.now proof.txid invoice
    fetched ← fetch_transaction options.tx_provider proof.txid
    observed_at ← check_finality fetched.0
    check_history observed_at invoice
    script ← expected_script options invoice.pay_to
    index ← select_output (match_outputs script invoice.amount_sats 0 fetched.1 unmatched)
    ok (record {
      proof = proof;
      invoice = invoice;
      now = now;
      transaction = fetched.0;
      outputs = fetched.1;
      observed_at = observed_at;
      script = script;
      index = index;
    })

  commit_evidence : Step Evidence → Store → Store × Step Success
  commit_evidence (err f) s = (s, err f)
  commit_evidence (ok e) s =
      let (s', result) = commit_paid e.proof.invoice_hash e.proof.txid e.now s in
      (s', settle e result)

  -- `read` is the store as the invoice is read, `s` as it is when the commitment runs.
  unfoldable pub verify_settlement_proof : VerifyOptions → Store → Store → Store × Step Success
  unfolding commit_evidence
  verify_settlement_proof options read s = commit_evidence (gather_evidence options read) s
