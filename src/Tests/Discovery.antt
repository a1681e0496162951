-- ===== src/Tests/Discovery.antt =====
-- Runs of the UTXO provider.
use x402_xec.Common.{refl, ok, some, true, false, List, Option, Text, codes, ◌∷◌, [], ◌≡◌, text_beq}
use x402_xec.Common.Decimal.{to_decimal}
use x402_xec.Core.Json.{nonneg, safe_nonnegative}
use x402_xec.Core.Schemas.{xec_mainnet}
use x402_xec.Payments.ChronikUtxos.{
  ChronikUtxo, ChronikUtxoSet, UtxoProvider, get_utxos, map_utxo, map_utxos,
}
use x402_xec.Payments.ChronikUtxos.Funding.{sum_spendable, get_utxos-validate_utxos}
use x402_xec.Payments.ChronikUtxos.Reports.{AreReports, get_utxos-AreReports}
use x402_xec.Transactions.{FundingUtxo, ValidatedUtxo, validate_utxos, sum_inputs, is_hex_bytes}
use x402_xec.Tests.Fixtures.{hash_a, address_q}

abbrev provider_q : UtxoProvider
provider_q = record { endpoint = codes "https://index"; address = address_q }

-- One UTXO that can be spent and one from a coinbase.
abbrev reported_q : ChronikUtxoSet
reported_q = record {
  output_script = codes "51";
  utxos = some (
      (record {
        txid = hash_a;
        out_idx = nonneg 0;
        sats = some 700;
        is_coinbase = some false;
        has_token = false;
      })
      ∷ (record {
        txid = hash_a;
        out_idx = nonneg 1;
        sats = some 5000;
        is_coinbase = some true;
        has_token = false;
      })
      ∷ []);
}

abbrev client_q : Text → Option ChronikUtxoSet
client_q address = some reported_q

abbrev found_q : List FundingUtxo
found_q =
    (record {
      txid = hash_a;
      out_idx = nonneg 0;
      sats = codes "700";
      output_script = codes "51";
      has_token = false;
    })
    ∷ []

get_utxos_found : get_utxos provider_q client_q (codes "xec:mainnet") address_q ≡ ok found_q
unfolding get_utxos map_utxos map_utxo text_beq safe_nonnegative is_hex_bytes to_decimal
get_utxos_found = refl

get_utxos-validate_utxos_example :
    (reported : ChronikUtxoSet) × (us : List ChronikUtxo) × (vs : List ValidatedUtxo) × (client_q
        address_q
      ≡ some reported)
    × (reported.utxos ≡ some us)
    × AreReports reported.output_script us found_q
    × (validate_utxos found_q ≡ ok vs)
    × (sum_inputs vs ≡ sum_spendable us)
get_utxos-validate_utxos_example =
    get_utxos-validate_utxos provider_q client_q (codes "xec:mainnet") address_q get_utxos_found
      (refl, tt)

get_utxos-AreReports_example :
    (codes "xec:mainnet" ≡ xec_mainnet)
    × (address_q ≡ provider_q.address)
    × ((reported : ChronikUtxoSet) × (us : List ChronikUtxo) × (client_q address_q ≡ some reported)
        × (reported.utxos ≡ some us)
        × AreReports reported.output_script us found_q)
get_utxos-AreReports_example =
    get_utxos-AreReports provider_q client_q (codes "xec:mainnet") address_q get_utxos_found
