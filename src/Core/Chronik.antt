-- ===== src/Core/Chronik.antt =====
-- chronik.ts: what a Chronik provider answers, whose shape the source tests before it trusts it,
-- and the inspection of a funding output. The provider itself is a parameter.
pub mod Inspection
use x402_xec.Common.{
  ℕ, Bool, true, false, Option, none, some, List, Text, ◌==◌, text_eq, ltb, Result, ok, err, ◌>>=◌,
  ◌>>◌, reject, require, if◌then◌else◌, get_elem?, not,
}
use x402_xec.Core.Json.{Number, safe_nonnegative}
use x402_xec.Core.Schemas.{is_hash}

pub record ChronikToken : Type 0 where
  pub token_id : Text
  pub atoms : ℕ
  pub is_mint_baton : Bool

pub record TxOutput : Type 0 where
  pub sats : ℕ
  pub output_script : Text
  pub token : Option ChronikToken

-- The value of a `block` field: no plain object, or one whose fields may have any type. A hash
-- that is not a string is `none`; a field that is no number is a number that is not finite.
pub data RawBlock : Type 0 where
  not_an_object : RawBlock
  fields : Number → Option Text → Number → RawBlock

pub record ChronikBlock : Type 0 where
  pub height : ℕ
  pub hash : Text
  pub timestamp : ℕ

-- A transaction as it arrives. A `txid` that is not a string, `outputs` that are no array and an
-- `isFinal` that is not a boolean are `none`.
pub record RawTx : Type 0 where
  pub txid : Option Text
  pub outputs : Option (List TxOutput)
  pub block : Option RawBlock
  pub is_final : Option Bool
  pub time_first_seen : Number

-- What a provider rejects with: an instance of TxNotFoundError, another error with the code
-- TX_NOT_FOUND, or any other.
pub data ProviderError : Type 0 where
  tx_not_found_error tx_not_found_code other_error : ProviderError

-- `tx(txid)`: the value, `none` where it is no object, or the rejection.
pub data Answer : Type 0 where
  answered : Option RawTx → Answer
  rejected : ProviderError → Answer

abbrev pub TxProvider : Type 0
TxProvider = Text → Answer

-- `isValidChronikBlock(block)`, with the block that it lets through.
unfoldable pub valid_chronik_block : RawBlock → Option ChronikBlock
valid_chronik_block not_an_object = none
valid_chronik_block (fields height none timestamp) = none
valid_chronik_block (fields height (some hash) timestamp) = elim (safe_nonnegative height) [
  | none ↦ none
  | some h ↦
      if is_hash hash
      then elim (safe_nonnegative timestamp) [
        | none ↦ none
        | some t ↦ some (record { height = h; hash = hash; timestamp = t })
      ]
      else none
]

pub data FundingCode : Type 0 where
  transaction_not_found output_not_found output_script_mismatch : FundingCode
  insufficient_sats token_output transaction_not_final : FundingCode
  -- what the source throws: another rejection of the provider, or a read of outputs that are no array
  provider_failed : FundingCode

pub record FundingOutpoint : Type 0 where
  pub txid : Text
  pub out_idx : ℕ

abbrev pub is_true : Option Bool → Bool
is_true (some true) = true
is_true _ = false

abbrev pub same_text : Option Text → Text → Bool
same_text none s = false
same_text (some t) s = t == s

-- A script that is expected and is another.
abbrev script_differs : Option Text → Text → Bool
script_differs none script = false
script_differs (some expected) script = not (script == expected)

abbrev pub has_token : Option ChronikToken → Bool
has_token none = false
has_token (some t) = true

-- Confirmed by a well-formed block, or final by Avalanche. A malformed block is refused.
abbrev is_settled : Option RawBlock → Option Bool → Bool
is_settled none final = is_true final
is_settled (some block) final = elim (valid_chronik_block block) [ none ↦ false | some b ↦ true ]

received : Answer → Result FundingCode RawTx
received (answered none) = err transaction_not_found
received (answered (some tx)) = ok tx
received (rejected tx_not_found_error) = err transaction_not_found
received (rejected tx_not_found_code) = err provider_failed
received (rejected other_error) = err provider_failed

unfoldable pub inspect_funding_transaction :
    TxProvider → FundingOutpoint → Option Text → ℕ → Result FundingCode TxOutput
unfolding received
inspect_funding_transaction provider outpoint output_script amount_sats = do
  tx ← received (provider outpoint.txid)
  reject (not (same_text tx.txid outpoint.txid)) transaction_not_found
  outputs ← require tx.outputs provider_failed
  output ← require (get_elem? outputs outpoint.out_idx) output_not_found
  reject (script_differs output_script output.output_script) output_script_mismatch
  reject (ltb output.sats amount_sats) insufficient_sats
  reject (has_token output.token) token_output
  reject (not (is_settled tx.block tx.is_final)) transaction_not_final
  ok output
