-- ===== src/Core/SettlementVerifier/Safety.antt =====
-- A settlement proof unlocks a resource only for a payment that was made (settlement-verifier.ts).
use x402_xec.Core.SettlementVerifier.{
  settle, commit_evidence, Failure, verify_settlement_proof, Success, VerifyOptions, Evidence, Step,
  load_invoice, check_resource, check_window, fetch_transaction, check_finality, check_history,
  expected_script, match_outputs, select_output, unmatched, gather_evidence,
  temporal_fence_tolerance,
}
use x402_xec.Common.{
  text_eq, ℕ, ◌+◌, ◌≤◌, ◌<◌, ◌≡◌, ◌⊎◌, refl, true, false, some, List, Text, to_lower_case, arith,
  ok, err, subst, ok-injective, >>=-eq-ok, get_elem?,
}
use x402_xec.Common.Dict.{get}
use x402_xec.Core.Json.{safe_nonnegative}
use x402_xec.Core.Schemas.{settlement_proof_schema, SettlementProof}
use x402_xec.Core.Resource.{Platform, ResourceRequest, compute_resource_hash}
use x402_xec.Core.CashAddr.{AddressCodec, is_valid_cash_address}
use x402_xec.Core.Chronik.{TxOutput, RawTx, answered}
use x402_xec.Core.InvoiceStore.Settling.{commit_paid_bound, commit_paid_refused}
use x402_xec.Core.InvoiceStore.{
  CommitPaidResult, CommitCode, committed, refused, conflict, txid_reused, invoice_not_found,
  InvoiceRecord, Store, get_by_invoice_hash, is_paid, same_txid,
}
use x402_xec.Core.SettlementVerifier.Outputs.{pays, select_output-pays}
use x402_xec.Core.SettlementVerifier.Steps.{
  IsFinal, IsObserved, check_finality-IsObserved, converted, load_invoice_lem, check_resource_lem,
  check_window_lem, fetch_transaction_lem, check_finality_lem, check_history_lem,
  expected_script_lem,
}

-- The facts that a payment has to show, each about the server's own data or the chain.
pub record IsProven (p : Platform) (codec : AddressCodec) (options : VerifyOptions) (read : Store)
    (e : Evidence) : Type 0 where
  -- the proof is well formed, and names an invoice that the server issued
  pub parsed : settlement_proof_schema options.proof ≡ some e.proof
  pub known : get_by_invoice_hash e.proof.invoice_hash read ≡ some e.invoice
  -- for the resource that the caller expects
  pub resource :
      (r : ResourceRequest)
      → options.expected_resource ≡ some r
      → compute_resource_hash p r ≡ some e.invoice.resource_hash
  -- at a time in the invoice's window, or as a retry
  pub clock : safe_nonnegative options.now ≡ some e.now
  pub begun : e.invoice.issued_at ≤ e.now
  pub in_time :
      (is_paid e.invoice.state ≡ false) × (e.now < e.invoice.expires_at)
      ⊎ (is_paid e.invoice.state ≡ true) × (same_txid e.invoice.settled_txid e.proof.txid ≡ true)
  -- the server's provider has the transaction, final and no older than the invoice
  pub fetched : options.tx_provider e.proof.txid ≡ answered (some e.transaction)
  pub its_txid :
      (t : Text) × (e.transaction.txid ≡ some t) × (to_lower_case t ≡ to_lower_case e.proof.txid)
  pub its_outputs : e.transaction.outputs ≡ some e.outputs
  pub final : IsFinal e.transaction
  pub observed : IsObserved e.transaction e.observed_at
  pub fresh : e.invoice.issued_at ≤ e.observed_at + temporal_fence_tolerance
  -- and its output at the index pays the invoice's address the exact amount with no token
  pub address : is_valid_cash_address codec e.invoice.pay_to ≡ true
  pub script :
      (raw : Text) × (converted codec options.address_to_script e.invoice.pay_to ≡ some raw)
      × (e.script ≡ to_lower_case raw)
  pub output :
      (o : TxOutput) × (get_elem? e.outputs e.index ≡ some o)
      × (pays e.script e.invoice.amount_sats o ≡ true)

module _ (p : Platform) (codec : AddressCodec) (options : VerifyOptions) (read : Store)
    (proof : SettlementProof) (invoice : InvoiceRecord) (now : ℕ) (tx : RawTx)
    (outputs : List TxOutput) (observed_at : ℕ) (script : Text) (index : ℕ) where
  abbrev evidence : Evidence
  evidence = record {
    proof = proof;
    invoice = invoice;
    now = now;
    transaction = tx;
    outputs = outputs;
    observed_at = observed_at;
    script = script;
    index = index;
  }

  steps-IsProven :
      {u v : Unit {0}}
      → load_invoice options.proof read ≡ ok (proof, invoice)
      → check_resource p options.expected_resource invoice ≡ ok u
      → check_window options.now proof.txid invoice ≡ ok now
      → fetch_transaction options.tx_provider proof.txid ≡ ok (tx, outputs)
      → check_finality tx ≡ ok observed_at
      → check_history observed_at invoice ≡ ok v
      → expected_script p codec options invoice.pay_to ≡ ok script
      → select_output (match_outputs script invoice.amount_sats 0 outputs unmatched) ≡ ok index
      → IsProven p codec options read evidence
  steps-IsProven h1 h2 h3 h4 h5 h6 h7 h8 =
      let (parsed, known) = load_invoice_lem options.proof read h1 in
      let (clock, begun, in_time) = check_window_lem options.now proof.txid invoice h3 in
      let (fetched, its_outputs, same) = fetch_transaction_lem options.tx_provider proof.txid h4 in
      let (address, converts) = expected_script_lem p codec options invoice.pay_to h7 in
      record {
        parsed = parsed;
        known = known;
        resource = check_resource_lem p options.expected_resource invoice h2;
        clock = clock;
        begun = begun;
        in_time = in_time;
        fetched = fetched;
        its_txid = same;
        its_outputs = its_outputs;
        final = check_finality_lem tx h5;
        observed = check_finality-IsObserved tx h5;
        fresh = check_history_lem observed_at invoice h6;
        address = address;
        script = converts;
        output = select_output-pays script invoice.amount_sats outputs h8;
      }

module _ (p : Platform) (codec : AddressCodec) (options : VerifyOptions) (read : Store) where
  pub gather_evidence-IsProven :
      {e : Evidence} → gather_evidence p codec options read ≡ ok e → IsProven p codec options read e
  unfolding gather_evidence
  gather_evidence-IsProven h =
      let (loaded, h1, k1) = >>=-eq-ok (load_invoice options.proof read) _ h in
      let (u, h2, k2) = >>=-eq-ok (check_resource p options.expected_resource loaded.1) _ k1 in
      let (now, h3, k3) = >>=-eq-ok (check_window options.now loaded.0.txid loaded.1) _ k2 in
      let (fetched, h4, k4) =
        >>=-eq-ok (fetch_transaction options.tx_provider loaded.0.txid) _ k3 in
      let (observed_at, h5, k5) = >>=-eq-ok (check_finality fetched.0) _ k4 in
      let (v, h6, k6) = >>=-eq-ok (check_history observed_at loaded.1) _ k5 in
      let (script, h7, k7) = >>=-eq-ok (expected_script p codec options loaded.1.pay_to) _ k6 in
      let (index, h8, k8) =
        >>=-eq-ok (select_output (match_outputs script loaded.1.amount_sats 0 fetched.1 unmatched))
          _ k7 in
      subst (IsProven p codec options read) (ok-injective k8) (
        steps-IsProven p codec options read loaded.0 loaded.1 now fetched.0 fetched.1 observed_at
          script index h1 h2 h3 h4 h5 h6 h7 h8)

settle_lem :
    (e : Evidence) (c : CommitPaidResult) {r : Success}
    → settle e c ≡ ok r
    → (c ≡ committed r.idempotent r.invoice)
      × (r.proof ≡ e.proof)
      × (r.matched_output_index ≡ e.index)
      × (r.transaction ≡ e.transaction)
unfolding settle
settle_lem e (committed b x) h = ground arith
settle_lem e (refused conflict) h = cc
settle_lem e (refused txid_reused) h = cc
settle_lem e (refused invoice_not_found) h = cc

settle_failed :
    (e : Evidence) (c : CommitPaidResult) {f : Failure}
    → settle e c ≡ err f
    → (code : CommitCode) × (c ≡ refused code)
unfolding settle
settle_failed e (committed b x) h = cc
settle_failed e (refused code) h = (code, refl)

module _ (p : Platform) (codec : AddressCodec) (s : Store) where
  -- What the commitment does with evidence that was found.
  commit_evidence_lem :
      (found : Step Evidence) {r : Success}
      → (commit_evidence p codec found s).1 ≡ ok r
      → (e : Evidence) × (found ≡ ok e)
        × (r.proof ≡ e.proof)
        × (r.matched_output_index ≡ e.index)
        × (r.transaction ≡ e.transaction)
        × (get (commit_evidence p codec found s).0.records e.proof.invoice_hash ≡ some r.invoice)
        × (is_paid r.invoice.state ≡ true)
        × (same_txid r.invoice.settled_txid (to_lower_case e.proof.txid) ≡ true)
  unfolding commit_evidence
  commit_evidence_lem (err f) h = cc
  commit_evidence_lem (ok e) {r} h =
      let (done, same_proof, same_index, same_tx) = settle_lem e _ h in
      let (kept, paid, by) =
        commit_paid_bound e.proof.invoice_hash e.proof.txid e.now s r.idempotent r.invoice done in
      (e, refl, same_proof, same_index, same_tx, kept, paid, by)

  commit_evidence_failed :
      (found : Step Evidence) {f : Failure}
      → (commit_evidence p codec found s).1 ≡ err f
      → (commit_evidence p codec found s).0 ≡ s
  unfolding commit_evidence
  commit_evidence_failed (err f) h = refl
  commit_evidence_failed (ok e) h =
      let (code, refusal) = settle_failed e _ h in
      commit_paid_refused e.proof.invoice_hash e.proof.txid e.now s refusal

module _ (p : Platform) (codec : AddressCodec) (options : VerifyOptions) (read s : Store) where
  -- When verifySettlementProof succeeds, the proof met its schema, the invoice was one that the
  -- server had issued, the clock was in its window or the payment a retry, the provider's
  -- transaction had the txid of the proof, was final or in a well-formed block and was first seen,
  -- or confirmed if that is unknown, no earlier than the invoice was issued less the tolerance, the
  -- output at the index that is returned pays exactly the amount in XEC alone to the script of the
  -- invoice's address, and the invoice that is returned stands in the store, paid by that
  -- transaction; the store may have changed between the reading and the commitment.
  pub verify_settlement_proof-IsProven :
      {r : Success}
      → (verify_settlement_proof p codec options read s).1 ≡ ok r
      → (e : Evidence) × IsProven p codec options read e
        × (r.proof ≡ e.proof)
        × (r.matched_output_index ≡ e.index)
        × (r.transaction ≡ e.transaction)
        × (get (verify_settlement_proof p codec options read s).0.records e.proof.invoice_hash
            ≡ some r.invoice)
        × (is_paid r.invoice.state ≡ true)
        × (same_txid r.invoice.settled_txid (to_lower_case e.proof.txid) ≡ true)
  unfolding verify_settlement_proof
  verify_settlement_proof-IsProven h =
      let (e, found, a, b, c, d, x, y) =
        commit_evidence_lem p codec s (gather_evidence p codec options read) h in
      (e, gather_evidence-IsProven p codec options read found, a, b, c, d, x, y)

  -- When verifySettlementProof fails, at any of its steps, the store that its commitment saw is
  -- left as it was.
  pub verify_settlement_proof_failed :
      {f : Failure}
      → (verify_settlement_proof p codec options read s).1 ≡ err f
      → (verify_settlement_proof p codec options read s).0 ≡ s
  unfolding verify_settlement_proof
  verify_settlement_proof_failed h =
      commit_evidence_failed p codec s (gather_evidence p codec options read) h
