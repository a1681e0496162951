-- ===== src/Facilitator/Service.antt =====
-- facilitator.ts: a signed authorization is verified and debited from its funding output.
pub mod Balance
pub mod Books
pub mod Repeats
pub mod Replies
use x402_xec.Common.{
  ℕ, ◌-◌, Bool, true, false, not, Option, none, some, [], Text, codes, ltb, ◌==◌, text_eq, nat_eq,
  Result, ok, err, ◌>>=◌, ◌>>◌, reject, require, if◌then◌else◌,
}
use x402_xec.Common.Decimal.{to_decimal}
use x402_xec.Core.Json.{Number, Json, str, obj, end, field}
use x402_xec.Core.Schemas.{parse_amount_sats, authorization_schema}
use x402_xec.Core.Resource.{Platform, compute_resource_hash, canonical_hash}
use x402_xec.Core.Invoice.{invoice_json, compute_invoice_hash}
use x402_xec.Core.Chronik.{
  TxProvider, TxOutput, FundingOutpoint, FundingCode, insufficient_sats, provider_failed,
  inspect_funding_transaction,
}
use x402_xec.Core.Authorization.{
  SignatureVerifier, AuthorizationInput, FailureCode, authorization_json, verify_authorization,
}
use x402_xec.Facilitator.Ledger.{
  FundingAccount, LedgerEntry, Verified, IdempotencyRecord, Ledger, Transaction, consume_staged,
  find_idempotent, get_funding_account, commit,
}
use x402_xec.Facilitator.Request.{VerifyRequest, verify_request_schema}

-- The codes of the facilitator's own; a code of the authorization is passed on.
pub data Code : Type 0 where
  authorization_failed : FailureCode → Code
  malformed funding_not_found funding_changed payer_mismatch insufficient_credit : Code
  idempotency_conflict : Code

-- A result is a status with a body. `thrown` is a promise that is rejected: by a provider that
-- fails, or a verifier that throws.
pub data Outcome : Type 0 where
  verified : Verified → Outcome
  failure : Code → ℕ → Outcome
  thrown : Outcome

-- What identifies a request that is well formed.
pub record Digests : Type 0 where
  pub authorization_digest : Text
  pub invoice_id : Text
  pub request_digest : Text

abbrev is_changed : Option FundingAccount → ℕ → Bool
is_changed none sats = false
is_changed (some a) sats = not (a.funding_value_sats == sats)

abbrev is_other_payer : Option FundingAccount → Text → Bool
is_other_payer none payer = false
is_other_payer (some a) payer = not (a.payer == payer)

-- The account that is debited: the one that exists, or a new one with the output's value.
abbrev pub account_of : Option FundingAccount → FundingOutpoint → Text → ℕ → FundingAccount
account_of (some a) outpoint payer sats = a
account_of none outpoint payer sats = record {
  funding_outpoint = outpoint;
  payer = payer;
  funding_value_sats = sats;
  remaining_balance_sats = sats;
}

abbrev pub outpoint_of : VerifyRequest → FundingOutpoint
outpoint_of input = record {
  txid = input.authorization.transaction.txid;
  out_idx = input.authorization.transaction.vout;
}

abbrev pub debited : ℕ → FundingAccount → FundingAccount
debited amount a = record a { remaining_balance_sats = a.remaining_balance_sats - amount }

abbrev pub verified_body : VerifyRequest → Digests → ℕ → FundingAccount → Verified
verified_body input d amount account = record {
  invoice_id = d.invoice_id;
  authorization_digest = d.authorization_digest;
  debited_sats = to_decimal amount;
  remaining_balance_sats = to_decimal account.remaining_balance_sats;
  funding_outpoint = outpoint_of input;
}

abbrev pub debit_entry : VerifyRequest → Digests → ℕ → FundingAccount → LedgerEntry
debit_entry input d amount account = record {
  funding_outpoint = outpoint_of input;
  payer = input.authorization.payer;
  pay_to = input.invoice.pay_to;
  funding_value_sats = account.funding_value_sats;
  remaining_balance_sats = account.remaining_balance_sats;
  debited_sats = amount;
  invoice_id = d.invoice_id;
  nonce = input.invoice.nonce;
  authorization_digest = d.authorization_digest;
  idempotency_key = input.idempotency_key;
}

abbrev pub terms_of : VerifyRequest → Number → AuthorizationInput
terms_of input now = record {
  invoice = invoice_json input.invoice;
  authorization = authorization_json input.authorization;
  request = input.resource;
  now = now;
}

-- The rest of `debit` for an account that may be debited.
unfoldable pub debit_account :
    VerifyRequest → Digests → ℕ → FundingAccount → Transaction → Ledger × Outcome
debit_account input d amount account t =
    if ltb account.remaining_balance_sats amount
    then (t.ledger, failure insufficient_credit 402)
    else let after = debited amount account in
      let body = verified_body input d amount after in
      (
        commit after (debit_entry input d amount after) input.idempotency_key
            (record { request_digest = d.request_digest; response = body }) t,
        verified body,
      )

-- The part of `debit` behind the inspection of the funding output.
unfoldable pub debit_output :
    VerifyRequest → Digests → ℕ → TxOutput → Transaction → Ledger × Outcome
debit_output input d amount output t =
    let existing = get_funding_account (outpoint_of input) t.ledger in
    if is_changed existing output.sats
    then (t.ledger, failure funding_changed 409)
    else if is_other_payer existing input.authorization.payer
    then (t.ledger, failure payer_mismatch 403)
    else debit_account input d amount
        (account_of existing (outpoint_of input) input.authorization.payer output.sats) t

abbrev funding_failure : FundingCode → Outcome
funding_failure insufficient_sats = failure insufficient_credit 402
funding_failure provider_failed = thrown
funding_failure _ = failure funding_not_found 402

abbrev authorization_failure : FailureCode → Outcome
authorization_failure FailureCode.thrown = thrown
authorization_failure code = failure (authorization_failed code) 400

module _ (p : Platform) (provider : TxProvider) (verify_signature : SignatureVerifier) where
  unfoldable pub request_digest : Text → Text → Text → Option Text
  request_digest authorization_digest invoice_id resource_hash = canonical_hash p (
      obj (
        field (codes "authorizationDigest") (str authorization_digest) (
          field (codes "invoiceId") (str invoice_id)
            (field (codes "resourceHash") (str resource_hash) end))))

  -- The hashes at the head of `verify`, where only the resource can be refused.
  unfoldable pub digests : VerifyRequest → Text → Result Outcome Digests
  unfolding request_digest
  digests input resource_hash = do
    parsed ← require (authorization_schema (authorization_json input.authorization)) thrown
    authorization_digest ← require (canonical_hash p (authorization_json parsed)) thrown
    invoice_id ← require (compute_invoice_hash p input.invoice) thrown
    digest ← require (request_digest authorization_digest invoice_id resource_hash) thrown
    ok (record {
      authorization_digest = authorization_digest;
      invoice_id = invoice_id;
      request_digest = digest;
    })

  unfoldable pub debit : VerifyRequest → Digests → Transaction → Ledger × Outcome
  debit input d t = elim (parse_amount_sats input.invoice.amount_sats) [
    | none ↦ (t.ledger, thrown)
    | some amount ↦ elim (inspect_funding_transaction provider (outpoint_of input) none amount) [
      | err code ↦ (t.ledger, funding_failure code)
      | ok output ↦ debit_output input d amount output t
    ]
  ]

  -- A first request: the authorization, then the debit in the same transaction.
  unfoldable pub authorize_and_debit : VerifyRequest → Digests → Number → Ledger → Ledger × Outcome
  authorize_and_debit input d now l =
      let (t, result) =
        verify_authorization p verify_signature consume_staged (terms_of input now)
          (record { ledger = l; staged = [] }) in
      elim result [
        | err code ↦ (t.ledger, authorization_failure code)
        | ok amount ↦ debit input d t
      ]

  -- The operation that is given to `transact`.
  unfoldable pub process : VerifyRequest → Digests → Number → Ledger → Ledger × Outcome
  process input d now l = elim (find_idempotent input.idempotency_key l) [
    | some previous ↦ (
      l,
      if previous.request_digest == d.request_digest
          then verified previous.response
          else failure idempotency_conflict 409,
    )
    | none ↦ authorize_and_debit input d now l
  ]

  -- `Facilitator.verify`
  unfoldable pub verify : Json → Number → Ledger → Ledger × Outcome
  verify untrusted now l = elim (verify_request_schema untrusted) [
    | none ↦ (l, failure malformed 400)
    | some input ↦ elim (compute_resource_hash p input.resource) [
      | none ↦ (l, failure malformed 400)
      | some resource_hash ↦ elim (digests input resource_hash) [
        | err outcome ↦ (l, outcome)
        | ok d ↦ process input d now l
      ]
    ]
  ]
