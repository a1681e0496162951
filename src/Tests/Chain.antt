-- ===== src/Tests/Chain.antt =====
-- Runs of the funding inspection and of the address decoder.
use x402_xec.Common.{
  starts_with, to_lower_case, text_beq, refl, ◌≡◌, text_eq, nat_eq, ok, some, none, codes, ◌++◌,
}
use x402_xec.Core.Chronik.{
  TxProvider, TxOutput, FundingOutpoint, answered, inspect_funding_transaction,
}
use x402_xec.Core.Chronik.Inspection.{IsFunding, inspect_funding_transaction-IsFunding}
use x402_xec.Core.CashAddr.{DecodedCashAddress, decode_cash_address}
use x402_xec.Core.CashAddr.Laws.{decode_cash_address-injective}
use x402_xec.Tests.Fixtures.{payment, txid_1, hash_20, address_q, one_address}

abbrev chain : TxProvider
chain txid = answered (some payment)

abbrev outpoint : FundingOutpoint
outpoint = record { txid = txid_1; out_idx = 1 }

abbrev paying : TxOutput
paying = record {
  sats = 1000;
  output_script = codes "76A914" ++ hash_20 ++ codes "88AC";
  token = none;
}

inspected : inspect_funding_transaction chain outpoint none 400 ≡ ok paying
unfolding inspect_funding_transaction text_beq
inspected = refl

inspect_funding_transaction-IsFunding_example : IsFunding chain outpoint none 400 paying
inspect_funding_transaction-IsFunding_example =
    inspect_funding_transaction-IsFunding chain outpoint none 400 inspected

abbrev decoded : DecodedCashAddress
decoded = record { kind = 0; hash = hash_20 }

decodes : decode_cash_address one_address address_q ≡ some decoded
unfolding decode_cash_address text_beq to_lower_case starts_with
decodes = refl

decode_cash_address-injective_example : address_q ≡ address_q
decode_cash_address-injective_example =
    decode_cash_address-injective one_address address_q address_q decodes decodes
