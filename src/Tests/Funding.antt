-- ===== src/Tests/Funding.antt =====
-- A funding transaction that is built.
use x402_xec.Common.{
  leb, Bool-cases, starts_with, refl, inl, inr, ok, err, some, none, false, arith, List, Text, ℕ,
  codes, ◌∷◌, [], ◌≡◌, ◌⊎◌, if◌then◌else◌, ◌≤◌, ◌<◌, ◌+◌, ◌-◌, zero, suc, text_beq, take,
}
use x402_xec.Core.Json.{only_keys, field?, nonneg, safe_nonnegative}
use x402_xec.Common.Decimal.{is_positive_decimal, to_decimal, of_decimal, value_onto}
use x402_xec.Core.Schemas.{invoice_schema, is_address, parse_amount_sats}
use x402_xec.Core.Invoice.{invoice_json}
use x402_xec.Transactions.{
  read_request, parse_positive_amount, address_script, validate_utxos, validate_utxo, is_hex_bytes,
  describe, sign_with, EcashLib, Draft, Tx, Signing, signed, throws, BuildRequest, BuildResult,
  ValidatedUtxo, FundingUtxo, build_funding_tx, select_inputs, sum_inputs, sum_outputs,
  insufficient_funds,
}
use x402_xec.Transactions.Selection.{
  IsEnough, IsTooFew, select_inputs-insufficient, select_inputs_finds,
}
use x402_xec.Transactions.Funding.{SignsDraft, IsRead, IsPaid, trial, build_funding_tx-IsPaid}
use x402_xec.Tests.Fixtures.{invoice_q, txid_1, address_q}

-- A library that takes a fee of 100, and gives back what is over.
small_sign : Draft → Signing
small_sign d =
    let inputs = sum_inputs d.inputs in
    if leb (d.payment.sats + 100) inputs
    then signed (record {
      txid = txid_1;
      hex = codes "00";
      outputs =
          d.payment
          ∷ (record { sats = inputs - (d.payment.sats + 100); script = d.change_script })
          ∷ [];
    })
    else throws (codes "Insufficient input sats")

abbrev small_lib : EcashLib
small_lib = record {
  from_cash_address = λ address. some (record { prefix = codes "ecash"; script = codes "51" });
  sign = λ dummy draft. small_sign draft;
}

small_pays_first :
    (d : Draft) {tx : Tx}
    → small_sign d ≡ signed tx
    → (tx.outputs ≡ d.payment ∷ [])
      ⊎ ((sats : ℕ) × (tx.outputs
            ≡ d.payment ∷ (record { sats = sats; script = d.change_script }) ∷ []))
unfolding small_sign
small_pays_first d h = elim (Bool-cases (leb (d.payment.sats + 100) (sum_inputs d.inputs))) [
  | inl enough ↦ inr (sum_inputs d.inputs - (d.payment.sats + 100), ground (arith, rw enough at h))
  | inr few ↦ ground (arith, rw few at h)
]

small_covers :
    (d : Draft) {tx : Tx} → small_sign d ≡ signed tx → sum_outputs tx.outputs ≤ sum_inputs d.inputs
unfolding small_sign sum_outputs
small_covers d h = elim (Bool-cases (leb (d.payment.sats + 100) (sum_inputs d.inputs))) [
  | inl enough ↦ ground (arith, rw enough at h)
  | inr few ↦ ground (arith, rw few at h)
]

small_law : SignsDraft small_lib
small_law = record { pays_first = small_pays_first; covers = small_covers }

abbrev coin : Text → FundingUtxo
coin sats = record {
  txid = txid_1;
  out_idx = nonneg 0;
  sats = sats;
  output_script = codes "51";
  has_token = false;
}

abbrev two_coins : BuildRequest
two_coins = record {
  invoice = invoice_json invoice_q;
  utxos = coin (codes "600") ∷ coin (codes "700") ∷ coin (codes "800") ∷ [];
  change_address = address_q;
  fee_per_kb = none;
  dust_sats = none;
}

abbrev built : BuildResult
built = record {
  raw_tx = codes "00";
  txid = txid_1;
  selected_inputs = coin (codes "600") ∷ coin (codes "700") ∷ [];
  funding_outpoint = record { txid = txid_1; out_idx = 0 };
  funding_amount_sats = codes "1000";
  funding_script = codes "51";
  fee_sats = codes "100";
  change_sats = codes "200";
}

builds : build_funding_tx small_lib two_coins ≡ ok built
unfolding small_sign build_funding_tx read_request invoice_schema invoice_json only_keys text_beq
    field? is_positive_decimal is_address safe_nonnegative parse_amount_sats parse_positive_amount
    to_decimal address_script validate_utxos validate_utxo is_hex_bytes select_inputs of_decimal
    value_onto starts_with describe sign_with sum_inputs sum_outputs
builds = refl

build_funding_tx-IsPaid_example :
    (read : Draft × List ValidatedUtxo) × (n : ℕ) × (tx : Tx) × IsRead small_lib two_coins read
    × IsEnough (trial small_lib read.0) (take (suc n) read.1)
    × ((k : ℕ) → k < n → IsTooFew (trial small_lib read.0) (take (suc k) read.1))
    × (small_lib.sign false (record read.0 { inputs = take (suc n) read.1 }) ≡ signed tx)
    × IsPaid (record read.0 { inputs = take (suc n) read.1 }) tx built
build_funding_tx-IsPaid_example = build_funding_tx-IsPaid small_lib small_law two_coins builds

abbrev input : ℕ → ValidatedUtxo
input sats = record { source = coin []; sats = sats; output_script = codes "51" }

-- Two inputs are enough.
two_needed : List ValidatedUtxo → Signing
two_needed (u ∷ w ∷ us) = signed (record { txid = []; hex = []; outputs = [] })
two_needed _ = throws (codes "Insufficient input sats")

two-IsEnough : IsEnough two_needed (input 1 ∷ input 2 ∷ [])
unfolding two_needed
two-IsEnough = (record { txid = []; hex = []; outputs = [] }, refl)

one-IsTooFew :
    (k : ℕ) → k < 1 → IsTooFew two_needed (take (suc k) (input 1 ∷ input 2 ∷ input 3 ∷ []))
unfolding two_needed starts_with
one-IsTooFew zero lt = (codes "Insufficient input sats", refl, refl)
one-IsTooFew (suc k) lt = ground arith

select_inputs_finds_example :
    select_inputs two_needed [] (input 1 ∷ input 2 ∷ input 3 ∷ []) ≡ ok (input 1 ∷ input 2 ∷ [])
select_inputs_finds_example =
    select_inputs_finds two_needed [] (input 1 ∷ input 2 ∷ input 3 ∷ []) 1 (omega arith)
      two-IsEnough one-IsTooFew

two_fail : select_inputs two_needed [] (input 1 ∷ []) ≡ err insufficient_funds
unfolding select_inputs two_needed starts_with
two_fail = refl

select_inputs-insufficient_example : IsTooFew two_needed (input 1 ∷ [])
select_inputs-insufficient_example =
    select_inputs-insufficient two_needed [] (input 1 ∷ []) two_fail 0 (omega arith)
