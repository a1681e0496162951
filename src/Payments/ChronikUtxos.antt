-- ===== src/Payments/ChronikUtxos.antt =====
-- chronik-utxo-provider.ts: the UTXOs that an index reports of one address. The client of the index,
-- the URL parser and ecash-lib are parameters.
pub mod Funding
pub mod Reports
use x402_xec.Common.{
  ok, err, some, none, true, false, not, Bool, Option, List, Result, Text, ℕ, codes, reject,
  require, ◌∷◌, [], ◌==◌, text_eq, nat_eq, if◌then◌else◌, ◌&&◌, ◌||◌,
}
use x402_xec.Common.{◌>>=◌, ◌>>◌}
use x402_xec.Common.Decimal.{to_decimal}
use x402_xec.Core.Json.{Number, safe_nonnegative}
use x402_xec.Core.Schemas.{xec_mainnet, is_hash}
use x402_xec.Core.Resource.{Platform}
use x402_xec.Transactions.{EcashLib, FundingUtxo, is_hex_bytes}

pub data UtxoReadError : Type 0 where
  invalid_endpoint invalid_address unsupported_network wrong_payer read_failed : UtxoReadError

-- `sats` is `none` where it is no bigint, or a negative one; `is_coinbase` where it is no boolean.
pub record ChronikUtxo : Type 0 where
  pub txid : Text
  pub out_idx : Number
  pub sats : Option ℕ
  pub is_coinbase : Option Bool
  pub has_token : Bool

-- `utxos` is `none` where it is no array.
pub record ChronikUtxoSet : Type 0 where
  pub output_script : Text
  pub utxos : Option (List ChronikUtxo)

abbrev ends_with_slash : Text → Bool
ends_with_slash [] = false
ends_with_slash (c ∷ []) = c == b'/'
ends_with_slash (c ∷ d ∷ s) = ends_with_slash (d ∷ s)

unfoldable pub validate_endpoint : Platform → Text → Result UtxoReadError Text
validate_endpoint p endpoint = do
  reject (endpoint == [] || ends_with_slash endpoint) invalid_endpoint
  url ← require (p.parse_url endpoint) invalid_endpoint
  reject (not (url.protocol == codes "https:") && not (url.protocol == codes "http:"))
      invalid_endpoint
  ok endpoint

unfoldable pub validate_address : EcashLib → Text → Result UtxoReadError Text
validate_address lib address = do
  reject (address == []) invalid_address
  parsed ← require (lib.from_cash_address address) invalid_address
  reject (not (parsed.prefix == codes "ecash")) invalid_address
  ok address

pub record UtxoProvider : Type 0 where
  pub endpoint : Text
  pub address : Text

-- The constructor.
unfoldable pub create_provider :
    Platform → EcashLib → Text → Text → Result UtxoReadError UtxoProvider
create_provider p lib endpoint address = do
  checked_endpoint ← validate_endpoint p endpoint
  checked_address ← validate_address lib address
  ok (record { endpoint = checked_endpoint; address = checked_address })

-- `typeof sats !== "bigint" || sats <= 0n`
abbrev pub positive : Option ℕ → Option ℕ
positive none = none
positive (some n) = if n == 0 then none else some n

-- `mapUtxo`
unfoldable pub map_utxo : Text → ChronikUtxo → Result UtxoReadError FundingUtxo
map_utxo output_script utxo = do
  reject (not (is_hash utxo.txid)) read_failed
  index ← require (safe_nonnegative utxo.out_idx) read_failed
  sats ← require (positive utxo.sats) read_failed
  reject (not (is_hex_bytes output_script)) read_failed
  ok (record {
    txid = utxo.txid;
    out_idx = utxo.out_idx;
    sats = to_decimal sats;
    output_script = output_script;
    has_token = utxo.has_token;
  })

-- `filter` and `map` of the response: whichever throws first, the error is the same.
unfoldable pub map_utxos : Text → List ChronikUtxo → Result UtxoReadError (List FundingUtxo)
map_utxos output_script [] = ok []
map_utxos output_script (u ∷ us) =
    let rest = map_utxos output_script us in
    elim u.is_coinbase [
      | none ↦ err read_failed
      | some true ↦ rest
      | some false ↦ (do mapped ← map_utxo output_script u; more ← rest; ok (mapped ∷ more))
    ]

-- `getUtxos`, for the network and the payer; `none` of the client is a rejected promise.
unfoldable pub get_utxos :
    UtxoProvider
    → (Text → Option ChronikUtxoSet)
    → Text
    → Text
    → Result UtxoReadError (List FundingUtxo)
get_utxos provider client network payer = do
  reject (not (network == xec_mainnet)) unsupported_network
  reject (not (payer == provider.address)) wrong_payer
  response ← require (client provider.address) read_failed
  utxos ← require response.utxos read_failed
  map_utxos response.output_script utxos
