-- ===== src/Core/Chronik/Inspection.antt =====
-- What an accepted inspection of a funding output (chronik.ts) has shown.
use x402_xec.Core.Chronik.{
  TxProvider, FundingOutpoint, TxOutput, RawTx, Answer, answered, rejected, tx_not_found_error,
  tx_not_found_code, other_error, received, same_text, script_differs, is_settled, has_token,
  inspect_funding_transaction, transaction_not_found, provider_failed, output_not_found,
  output_script_mismatch, insufficient_sats, token_output, transaction_not_final,
}
use x402_xec.Common.{
  List, Text, ℕ, ◌≡◌, ◌≤◌, true, false, not, Option, some, none, arith, ltb, reject, require,
  >>=-eq-ok, require-ok, reject-ok, ok, ok-injective, get_elem?, text_eq, text_beq_iff, subst,
}

-- The output stands in the provider's transaction, holds enough in XEC alone, and is settled.
pub record IsFunding (provider : TxProvider) (outpoint : FundingOutpoint) (script : Option Text)
    (amount : ℕ) (output : TxOutput) : Type 0 where
  pub tx : RawTx
  pub outputs : List TxOutput
  pub answer : provider outpoint.txid ≡ answered (some tx)
  pub same : tx.txid ≡ some outpoint.txid
  pub listed : tx.outputs ≡ some outputs
  pub there : get_elem? outputs outpoint.out_idx ≡ some output
  pub to_script : (s : Text) → script ≡ some s → output.output_script ≡ s
  pub enough : amount ≤ output.sats
  pub plain : has_token output.token ≡ false
  pub settled : is_settled tx.block tx.is_final ≡ true

received_lem : (a : Answer) (tx : RawTx) → received a ≡ ok tx → a ≡ answered (some tx)
unfolding received
received_lem (answered none) tx h = cc
received_lem (answered (some x)) tx h = cc
received_lem (rejected tx_not_found_error) tx h = cc
received_lem (rejected tx_not_found_code) tx h = cc
received_lem (rejected other_error) tx h = cc

same_text_lem : (o : Option Text) (s : Text) → not (same_text o s) ≡ false → o ≡ some s
same_text_lem none s h = ground arith
same_text_lem (some t) s h = ground (arith, text_beq_iff t s)

script_lem :
    (expected : Option Text) (script : Text)
    → script_differs expected script ≡ false
    → (s : Text) → expected ≡ some s
    → script ≡ s
script_lem none script h s e = cc
script_lem (some x) script h s e = ground (arith, text_beq_iff script x)

-- When inspectFundingTransaction accepts an output, the provider's transaction has the txid asked
-- for, the output stands at the index asked for, has the script asked for where one is, holds at
-- least the amount and no token, and the transaction is confirmed by a well-formed block or final.
pub inspect_funding_transaction-IsFunding :
    (provider : TxProvider) (outpoint : FundingOutpoint) (script : Option Text) (amount : ℕ)
    {output : TxOutput}
    → inspect_funding_transaction provider outpoint script amount ≡ ok output
    → IsFunding provider outpoint script amount output
unfolding inspect_funding_transaction
inspect_funding_transaction-IsFunding provider outpoint script amount h =
    let (tx, e1, k1) = >>=-eq-ok (received (provider outpoint.txid)) _ h in
    let (u2, e2, k2) =
      >>=-eq-ok (reject (not (same_text tx.txid outpoint.txid)) transaction_not_found) _ k1 in
    let (outputs, e3, k3) = >>=-eq-ok (require tx.outputs provider_failed) _ k2 in
    let (output, e4, k4) =
      >>=-eq-ok (require (get_elem? outputs outpoint.out_idx) output_not_found) _ k3 in
    let (u5, e5, k5) =
      >>=-eq-ok (reject (script_differs script output.output_script) output_script_mismatch) _ k4 in
    let (u6, e6, k6) = >>=-eq-ok (reject (ltb output.sats amount) insufficient_sats) _ k5 in
    let (u7, e7, k7) = >>=-eq-ok (reject (has_token output.token) token_output) _ k6 in
    let (u8, e8, k8) =
      >>=-eq-ok (reject (not (is_settled tx.block tx.is_final)) transaction_not_final) _ k7 in
    subst (IsFunding provider outpoint script amount) (ok-injective k8) (record {
      tx = tx;
      outputs = outputs;
      answer = received_lem (provider outpoint.txid) tx e1;
      same = same_text_lem tx.txid outpoint.txid (reject-ok _ _ e2);
      listed = require-ok _ _ e3;
      there = require-ok _ _ e4;
      to_script = script_lem script output.output_script (reject-ok _ _ e5);
      enough = ground (arith, reject-ok _ _ e6);
      plain = reject-ok _ _ e7;
      settled = ground (arith, reject-ok _ _ e8);
    })
