-- ===== src/Payments/Preparer.antt =====
-- OfflinePaymentPreparer (packages/x402-xec-payments/src/index.ts): an invoice is paid by a
-- transaction and an authorization that are made and not sent. The UTXO provider, the signature
-- provider and the encoding of the header are parameters.
pub mod Roundtrip
use x402_xec.Core.Json.{
  end, field, Number, nonneg, negative, inexact, not_finite, Json, str, obj, Fields, field?,
  safe_nonnegative, max_safe_integer,
}
use x402_xec.Common.{
  ok, err, some, true, not, Bool, Option, List, Result, Text, ℕ, codes, reject, require, ◌==◌,
  text_eq, nat_eq, if◌then◌else◌, ◌+◌, ◌>>=◌, ◌>>◌, ltb, leb,
}
use x402_xec.Common.Decimal.{of_decimal}
use x402_xec.Core.Schemas.{
  Invoice, UnsignedAuthorization, Authorization, invoice_schema, authorization_schema,
  parse_amount_sats, x402_version, xec_mainnet, xec_scheme, object,
}
use x402_xec.Core.Resource.{Platform, ResourceRequest, compute_resource_hash}
use x402_xec.Core.Invoice.{invoice_json, compute_invoice_hash}
use x402_xec.Core.Authorization.{signing_message, authorization_json}
use x402_xec.Payments.Policy.{
  SatoshiLimit, bigint, negative_bigint, number, string, is_canonical_sats,
}
use x402_xec.Transactions.{FundingUtxo, BuildRequest, BuildResult, BuildError}

-- What is thrown.
pub data PrepareError : Type 0 where
  clock_error invalid_limit negative_limit : PrepareError
  invalid_invoice unsupported_network unsupported_scheme not_yet_valid expired : PrepareError
  invalid_resource resource_mismatch amount_exceeds : PrepareError
  provider_failed hash_failed signing_failed invalid_authorization : PrepareError
  building_failed : BuildError → PrepareError

-- `readMaximum`
unfoldable pub read_maximum : SatoshiLimit → Result PrepareError ℕ
read_maximum (bigint n) = ok n
read_maximum (negative_bigint n) = err negative_limit
read_maximum (number (nonneg n)) = if leb n max_safe_integer then ok n else err invalid_limit
read_maximum (number (negative n)) =
    if leb (n + 1) max_safe_integer then err negative_limit else err invalid_limit
read_maximum (number (inexact s)) = err invalid_limit
read_maximum (number not_finite) = err invalid_limit
read_maximum (string s) = if is_canonical_sats s then ok (of_decimal s) else err invalid_limit

-- `value !== text`, for a value that may be missing.
abbrev is_other_text : Option Json → Text → Bool
is_other_text (some (str s)) t = not (s == t)
is_other_text _ t = true

-- The resource's hash against that of the invoice.
unfoldable pub bind_resource : Platform → ResourceRequest → Invoice → Result PrepareError (Unit {0})
bind_resource p resource invoice = do
  hash ← require (compute_resource_hash p resource) invalid_resource
  reject (not (hash == invoice.resource_hash)) resource_mismatch

-- `validateInvoice`
unfoldable pub validate_invoice :
    Platform → Json → ResourceRequest → ℕ → Result PrepareError Invoice
validate_invoice p input resource now = do
  fs ← require (object (some input)) invalid_invoice
  reject (is_other_text (field? (codes "network") fs) xec_mainnet) unsupported_network
  reject (is_other_text (field? (codes "scheme") fs) xec_scheme) unsupported_scheme
  invoice ← require (invoice_schema input) invalid_invoice
  reject (ltb now invoice.issued_at) not_yet_valid
  reject (leb invoice.expires_at now) expired
  bind_resource p resource invoice
  ok invoice

pub record PreparerOptions : Type 0 where
  -- the UTXOs for a payer and an amount, or `none` where that fails or is no array
  pub get_utxos : Text → Text → Option (List FundingUtxo)
  -- the signature of a message
  pub sign : Text → Option Text
  pub payer : Text
  pub change_address : Text
  pub transaction_builder : BuildRequest → Result BuildError BuildResult
  pub max_payment_sats : ℕ
  pub fee_per_kb : Option Text
  pub dust_sats : Option Text
  -- base64url of JSON.stringify
  pub encode : Json → Text

pub record Preparation : Type 0 where
  pub invoice : Invoice
  pub authorization : Authorization
  pub payment_signature : Text
  pub funding_transaction : BuildResult

abbrev pub unsigned_of : Invoice → Text → Text → BuildResult → UnsignedAuthorization
unsigned_of invoice invoice_hash payer funding = record {
  version = x402_version;
  scheme = xec_scheme;
  network = xec_mainnet;
  invoice_hash = invoice_hash;
  resource_hash = invoice.resource_hash;
  amount_sats = invoice.amount_sats;
  pay_to = invoice.pay_to;
  nonce = invoice.nonce;
  payer = payer;
  transaction = record {
    txid = funding.funding_outpoint.txid;
    vout = funding.funding_outpoint.out_idx;
  };
}

abbrev as_building : Result BuildError BuildResult → Result PrepareError BuildResult
as_building (ok r) = ok r
as_building (err e) = err (building_failed e)

abbrev pub funding_request : PreparerOptions → Invoice → List FundingUtxo → BuildRequest
funding_request options invoice utxos = record {
  invoice = invoice_json invoice;
  utxos = utxos;
  change_address = options.change_address;
  fee_per_kb = options.fee_per_kb;
  dust_sats = options.dust_sats;
}

-- The envelope of the header.
abbrev pub envelope : Invoice → Authorization → Json
envelope invoice authorization = obj (
    field (codes "invoice") (invoice_json invoice)
      (field (codes "authorization") (authorization_json authorization) end))

module _ (p : Platform) (options : PreparerOptions) where
  -- The transaction for a valid invoice.
  unfoldable pub fund : Invoice → Result PrepareError BuildResult
  fund invoice = do
    amount ← require (parse_amount_sats invoice.amount_sats) invalid_invoice
    reject (ltb options.max_payment_sats amount) amount_exceeds
    utxos ← require (options.get_utxos options.payer invoice.amount_sats) provider_failed
    as_building (options.transaction_builder (funding_request options invoice utxos))

  -- The authorization, signed.
  unfoldable pub authorize : Invoice → BuildResult → Result PrepareError Authorization
  authorize invoice funding = do
    hash ← require (compute_invoice_hash p invoice) hash_failed
    let unsigned = unsigned_of invoice hash options.payer funding
    message ← require (signing_message unsigned) hash_failed
    signature ← require (options.sign message) signing_failed
    require
        (authorization_schema
          (authorization_json (record { unsigned = unsigned; signature = signature })))
        invalid_authorization

  -- `prepare`
  unfoldable pub prepare : Json → ResourceRequest → Number → Result PrepareError Preparation
  prepare input resource clock = do
    now ← require (safe_nonnegative clock) clock_error
    invoice ← validate_invoice p input resource now
    funding ← fund invoice
    authorization ← authorize invoice funding
    ok (record {
      invoice = invoice;
      authorization = authorization;
      payment_signature = options.encode (envelope invoice authorization);
      funding_transaction = funding;
    })
