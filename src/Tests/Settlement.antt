-- ===== src/Tests/Settlement.antt =====
-- Runs of the settlement verifier.
use x402_xec.Common.{
  [], ◌∷◌, List, starts_with, ◌≡◌, refl, true, false, none, some, text_beq, text_eq, nat_eq, ok,
  err, to_lower_case, codes,
}
use x402_xec.Core.SettlementVerifier.Outputs.{select_output-eq-verdict, verdict}
use x402_xec.Core.SettlementVerifier.{
  ErrorCode, failure, unmatched, Failure, VerifyOptions, Evidence, Success, verify_settlement_proof,
  gather_evidence, load_invoice, check_resource, check_window, fetch_transaction, check_finality,
  check_history, expected_script, match_outputs, select_output, settle,
}
use x402_xec.Core.Chronik.{TxOutput, answered, TxProvider}
use x402_xec.Core.SettlementVerifier.Safety.{
  verify_settlement_proof_failed, IsProven, verify_settlement_proof-IsProven,
}
use x402_xec.Common.Dict.{get, set}
use x402_xec.Core.Json.{nonneg, field?, only_keys, safe_nonnegative}
use x402_xec.Core.Schemas.{SettlementProof, settlement_proof_schema}
use x402_xec.Core.CashAddr.{decode_cash_address, cash_address_to_output_script_hex}
use x402_xec.Core.InvoiceStore.{
  is_paid, same_txid, issue, commit_paid, get_by_invoice_hash, settled_record,
}
use x402_xec.Tests.Fixtures.{
  flat_platform, one_address, invoice_a, hash_a, txid_1, proof_1, payment,
}
use x402_xec.Tests.Store.{two_issued}

abbrev provider : TxProvider
provider txid = answered (some payment)

abbrev options : VerifyOptions
options = record {
  proof = proof_1;
  tx_provider = provider;
  expected_resource = none;
  now = nonneg 120;
  address_to_script = none;
}

abbrev proof_a : SettlementProof
proof_a = record {
  version = 1;
  network = codes "xec:mainnet";
  invoice_hash = hash_a;
  txid = txid_1;
}

abbrev success : Success
success = record {
  invoice = settled_record txid_1 120 invoice_a;
  proof = proof_a;
  matched_output_index = 1;
  transaction = payment;
  idempotent = false;
}

unlocked :
    (verify_settlement_proof flat_platform one_address options two_issued two_issued).1 ≡ ok success
unfolding verify_settlement_proof gather_evidence load_invoice check_resource check_window
    settlement_proof_schema only_keys text_beq field? get_by_invoice_hash get issue set
    safe_nonnegative fetch_transaction to_lower_case check_finality check_history expected_script
    decode_cash_address starts_with cash_address_to_output_script_hex match_outputs select_output
    settle commit_paid
unlocked = refl

verify_settlement_proof-IsProven_example :
    (e : Evidence) × IsProven flat_platform one_address options two_issued e
    × (success.proof ≡ e.proof)
    × (success.matched_output_index ≡ e.index)
    × (success.transaction ≡ e.transaction)
    × (get
          (verify_settlement_proof flat_platform one_address options two_issued
            two_issued).0.records
          e.proof.invoice_hash
        ≡ some success.invoice)
    × (is_paid success.invoice.state ≡ true)
    × (same_txid success.invoice.settled_txid (to_lower_case e.proof.txid) ≡ true)
verify_settlement_proof-IsProven_example =
    verify_settlement_proof-IsProven flat_platform one_address options two_issued two_issued
      unlocked

abbrev late : VerifyOptions
late = record options { now = nonneg 500 }

abbrev too_late : Failure
too_late = failure 402 ErrorCode.invoice_expired

refused_late :
    (verify_settlement_proof flat_platform one_address late two_issued two_issued).1 ≡ err too_late
unfolding verify_settlement_proof gather_evidence load_invoice settlement_proof_schema only_keys
    text_beq field? get_by_invoice_hash get issue set check_resource check_window safe_nonnegative
refused_late = refl

verify_settlement_proof_failed_example :
    (verify_settlement_proof flat_platform one_address late two_issued two_issued).0 ≡ two_issued
verify_settlement_proof_failed_example =
    verify_settlement_proof_failed flat_platform one_address late two_issued two_issued refused_late

abbrev dust : List TxOutput
dust =
    record { sats = 546; output_script = codes "6A"; token = none }
    ∷ record { sats = 999; output_script = codes "76A9"; token = none }
    ∷ []

select_output-eq-verdict_example :
    select_output (match_outputs (codes "76a9") 1000 0 dust unmatched)
    ≡ verdict (codes "76a9") 1000 dust
select_output-eq-verdict_example = select_output-eq-verdict (codes "76a9") 1000 dust
