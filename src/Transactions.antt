-- ===== src/Transactions.antt =====
-- packages/x402-xec-transactions/src/index.ts: a funding transaction is built from the first inputs
-- that are enough. Addresses and the transaction builder are ecash-lib's, in the record `EcashLib`.
pub mod Selection
pub mod Funding
use x402_xec.Common.{
  ◌-◌, ok, err, some, none, true, false, not, Bool, Option, List, Result, Text, ℕ, codes, reject,
  require, ◌∷◌, [], ◌++◌, ◌==◌, text_eq, nat_eq, if◌then◌else◌, ◌&&◌, ◌+◌, ◌>>=◌, ◌>>◌, leb, length,
  starts_with, is_lower_hex, all,
}
use x402_xec.Common.Decimal.{to_decimal, of_decimal, is_positive_decimal}
use x402_xec.Core.Json.{Number, Json, safe_nonnegative}
use x402_xec.Core.Schemas.{Invoice, invoice_schema, is_hash, parse_amount_sats}
use x402_xec.Core.Chronik.{FundingOutpoint}

-- A UTXO, and whether its token metadata is defined.
pub record FundingUtxo : Type 0 where
  pub txid : Text
  pub out_idx : Number
  pub sats : Text
  pub output_script : Text
  pub has_token : Bool

pub record ValidatedUtxo : Type 0 where
  pub source : FundingUtxo
  pub sats : ℕ
  pub output_script : Text

pub record SignedOutput : Type 0 where
  pub sats : ℕ
  pub script : Text

pub record Tx : Type 0 where
  pub txid : Text
  pub hex : Text
  pub outputs : List SignedOutput

-- A builder signs, or throws an error with a message.
pub data Signing : Type 0 where
  signed : Tx → Signing
  throws : Text → Signing

pub record CashAddress : Type 0 where
  pub prefix : Text
  pub script : Text

-- What is built: the inputs, the payment and the script for the change.
pub record Draft : Type 0 where
  pub inputs : List ValidatedUtxo
  pub payment : SignedOutput
  pub change_script : Text
  pub fee_per_kb : ℕ
  pub dust_sats : ℕ

-- `Address.fromCashAddress`, and `TxBuilder.sign` with the caller's signatories, by the dummy
-- curve (`true`) or the real one.
pub record EcashLib : Type 0 where
  pub from_cash_address : Text → Option CashAddress
  pub sign : Bool → Draft → Signing

pub data BuildError : Type 0 where
  invalid_invoice type_error insufficient_funds no_payment_output : BuildError
  thrown : Text → BuildError

pub record BuildRequest : Type 0 where
  pub invoice : Json
  pub utxos : List FundingUtxo
  pub change_address : Text
  pub fee_per_kb : Option Text
  pub dust_sats : Option Text

pub record BuildResult : Type 0 where
  pub raw_tx : Text
  pub txid : Text
  pub selected_inputs : List FundingUtxo
  pub funding_outpoint : FundingOutpoint
  pub funding_amount_sats : Text
  pub funding_script : Text
  pub fee_sats : Text
  pub change_sats : Text

-- `/^(?:[0-9a-f]{2})+$/`
unfoldable pub is_hex_bytes : Text → Bool
is_hex_bytes [] = false
is_hex_bytes (a ∷ []) = false
is_hex_bytes (a ∷ b ∷ []) = is_lower_hex a && is_lower_hex b
is_hex_bytes (a ∷ b ∷ c ∷ s) = is_lower_hex a && is_lower_hex b && is_hex_bytes (c ∷ s)

-- `parsePositiveAmount`
unfoldable pub parse_positive_amount : Text → Result BuildError ℕ
parse_positive_amount value = do
  reject (not (is_positive_decimal value)) type_error
  ok (of_decimal value)

unfoldable pub validate_utxo : FundingUtxo → Result BuildError ValidatedUtxo
validate_utxo utxo = do
  reject (not (is_hash utxo.txid)) type_error
  index ← require (safe_nonnegative utxo.out_idx) type_error
  reject utxo.has_token type_error
  reject (not (is_hex_bytes utxo.output_script)) type_error
  sats ← parse_positive_amount utxo.sats
  ok (record { source = utxo; sats = sats; output_script = utxo.output_script })

-- `utxos.map(validateUtxo)`
unfoldable pub validate_utxos : List FundingUtxo → Result BuildError (List ValidatedUtxo)
validate_utxos [] = ok []
validate_utxos (u ∷ us) = do v ← validate_utxo u; vs ← validate_utxos us; ok (v ∷ vs)

abbrev pub is_insufficient_input_error : Text → Bool
is_insufficient_input_error m = starts_with m (codes "Insufficient input sats")

unfoldable pub sum_inputs : List ValidatedUtxo → ℕ
sum_inputs [] = 0
sum_inputs (u ∷ us) = u.sats + sum_inputs us

unfoldable pub sum_outputs : List SignedOutput → ℕ
sum_outputs [] = 0
sum_outputs (o ∷ os) = o.sats + sum_outputs os

-- `(a - b).toString(10)`
abbrev pub difference : ℕ → ℕ → Text
difference a b = if leb b a then to_decimal (a - b) else b'-' ∷ to_decimal (b - a)

-- `tx.outputs[1]?.sats ?? 0n`
abbrev pub change_of : List SignedOutput → ℕ
change_of (o ∷ c ∷ os) = c.sats
change_of _ = 0

abbrev pub sources : List ValidatedUtxo → List FundingUtxo
sources [] = []
sources (u ∷ us) = u.source ∷ sources us

abbrev pub or_default : Option Text → ℕ → Text
or_default none n = to_decimal n
or_default (some t) n = t

-- The loop over `count`, on what is behind the candidates that were not enough.
unfoldable pub select_inputs :
    (List ValidatedUtxo → Signing)
    → List ValidatedUtxo
    → List ValidatedUtxo
    → Result BuildError (List ValidatedUtxo)
select_inputs build chosen [] = err insufficient_funds
select_inputs build chosen (u ∷ rest) = elim (build (chosen ++ u ∷ [])) [
  | signed tx ↦ ok (chosen ++ u ∷ [])
  | throws m ↦ elim (is_insufficient_input_error m) [
    | true ↦ select_inputs build (chosen ++ u ∷ []) rest
    | false ↦ err (thrown m)
  ]
]

unfoldable pub sign_with : (Draft → Signing) → Draft → Result BuildError Tx
sign_with sign draft = elim (sign draft) [ signed tx ↦ ok tx | throws m ↦ err (thrown m) ]

unfoldable pub describe : Tx → List ValidatedUtxo → Result BuildError BuildResult
describe tx selected = elim tx.outputs [
  | [] ↦ err no_payment_output
  | o ∷ os ↦ ok (record {
    raw_tx = tx.hex;
    txid = tx.txid;
    selected_inputs = sources selected;
    funding_outpoint = record { txid = tx.txid; out_idx = 0 };
    funding_amount_sats = to_decimal o.sats;
    funding_script = o.script;
    fee_sats = difference (sum_inputs selected) (sum_outputs tx.outputs);
    change_sats = to_decimal (change_of tx.outputs);
  })
]

module _ (lib : EcashLib) where
  -- `addressScript`
  unfoldable pub address_script : Text → Result BuildError Text
  address_script value = do
    address ← require (lib.from_cash_address value) type_error
    reject (not (address.prefix == codes "ecash")) type_error
    ok address.script

  -- The draft but for its inputs.
  unfoldable pub read_request : BuildRequest → Result BuildError (Draft × List ValidatedUtxo)
  read_request request = do
    invoice ← require (invoice_schema request.invoice) invalid_invoice
    amount ← require (parse_amount_sats invoice.amount_sats) type_error
    fee_per_kb ← parse_positive_amount (or_default request.fee_per_kb 1000)
    dust_sats ← parse_positive_amount (or_default request.dust_sats 546)
    payment_script ← address_script invoice.pay_to
    change_script ← address_script request.change_address
    utxos ← validate_utxos request.utxos
    ok (
      record {
        inputs = [];
        payment = record { sats = amount; script = payment_script };
        change_script = change_script;
        fee_per_kb = fee_per_kb;
        dust_sats = dust_sats;
      },
      utxos,
    )

  unfoldable pub build_funding_tx : BuildRequest → Result BuildError BuildResult
  build_funding_tx request = do
    read ← read_request request
    selected ← select_inputs (λ inputs. lib.sign true (record read.0 { inputs = inputs })) [] read.1
    tx ← sign_with (lib.sign false) (record read.0 { inputs = selected })
    describe tx selected
