-- ===== src/Facilitator/Ledger.antt =====
-- ledger.ts. `transact` runs its operations one behind the other, so an operation is a function of
-- the ledger and of the nonces that it has staged; what it stages and does not commit is dropped.
use x402_xec.Common.{
  ℕ, Bool, true, false, Option, List, [], ◌∷◌, ◌++◌, ◌||◌, Text, text_eq, if◌then◌else◌,
}
use x402_xec.Common.Dict.{Dict, get, has, set}
use x402_xec.Common.Decimal.{to_decimal}
use x402_xec.Core.NonceStore.{Nonces, forget_expired}
use x402_xec.Core.Chronik.{FundingOutpoint}

pub record FundingAccount : Type 0 where
  pub funding_outpoint : FundingOutpoint
  pub payer : Text
  pub funding_value_sats : ℕ
  pub remaining_balance_sats : ℕ

pub record LedgerEntry : Type 0 where
  pub funding_outpoint : FundingOutpoint
  pub payer : Text
  pub pay_to : Text
  pub funding_value_sats : ℕ
  pub remaining_balance_sats : ℕ
  pub debited_sats : ℕ
  pub invoice_id : Text
  pub nonce : Text
  pub authorization_digest : Text
  pub idempotency_key : Text

-- The body of a verified response, which is what the ledger stores as a response.
pub record Verified : Type 0 where
  pub invoice_id : Text
  pub authorization_digest : Text
  pub debited_sats : Text
  pub remaining_balance_sats : Text
  pub funding_outpoint : FundingOutpoint

pub record IdempotencyRecord : Type 0 where
  pub request_digest : Text
  pub response : Verified

pub record Ledger : Type 0 where
  pub accounts : Dict Text FundingAccount
  pub entries : List LedgerEntry
  pub idempotency : Dict Text IdempotencyRecord
  pub nonces : Nonces

abbrev pub empty_ledger : Ledger
empty_ledger = record { accounts = []; entries = []; idempotency = []; nonces = [] }

-- A transaction: the ledger, and the nonces staged in it.
pub record Transaction : Type 0 where
  pub ledger : Ledger
  pub staged : Nonces

-- `${txid}:${outIdx}`
unfoldable pub outpoint_key : FundingOutpoint → Text
outpoint_key o = o.txid ++ b':' ∷ to_decimal o.out_idx

-- `nonceStore.consume`. What has expired is dropped from the ledger itself.
unfoldable pub consume_staged : Text → ℕ → ℕ → Transaction → Transaction × Bool
consume_staged nonce expires_at now t =
    let live = forget_expired now t.ledger.nonces in
    let pruned = record t.ledger { nonces = live } in
    if has live nonce || has t.staged nonce
    then (record { ledger = pruned; staged = t.staged }, false)
    else (record { ledger = pruned; staged = set t.staged nonce expires_at }, true)

abbrev pub find_idempotent : Text → Ledger → Option IdempotencyRecord
find_idempotent key l = get l.idempotency key

abbrev pub get_funding_account : FundingOutpoint → Ledger → Option FundingAccount
get_funding_account o l = get l.accounts (outpoint_key o)

add_nonces : Nonces → Nonces → Nonces
add_nonces [] m = m
add_nonces ((nonce, expires_at) ∷ staged) m = add_nonces staged (set m nonce expires_at)

-- `commit`, with the account, the entry, and the response under its idempotency key.
unfoldable pub commit :
    FundingAccount → LedgerEntry → Text → IdempotencyRecord → Transaction → Ledger
unfolding add_nonces
commit account entry key stored t = record {
  accounts = set t.ledger.accounts (outpoint_key account.funding_outpoint) account;
  entries = t.ledger.entries ++ entry ∷ [];
  idempotency = set t.ledger.idempotency key stored;
  nonces = add_nonces t.staged t.ledger.nonces;
}
