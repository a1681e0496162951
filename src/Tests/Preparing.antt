-- ===== src/Tests/Preparing.antt =====
-- A payment that is prepared, and that a server accepts.
use x402_xec.Common.{[], refl, ok, some, none, true, codes, ◌≡◌, text_beq, starts_with, includes}
use x402_xec.Common.Decimal.{is_positive_decimal, to_decimal, of_decimal, value_onto}
use x402_xec.Core.Json.{nonneg, only_keys, field?, safe_nonnegative}
use x402_xec.Core.Schemas.{invoice_schema, is_address, authorization_schema, parse_amount_sats}
use x402_xec.Core.Canonical.{canonicalize}
use x402_xec.Core.Resource.{
  validate_path, normalize_method, canonical_query, canonical_hash, compute_resource_hash,
}
use x402_xec.Core.Invoice.{invoice_json, compute_invoice_hash}
use x402_xec.Core.Authorization.{authorization_json, signing_message, SignatureVerifier}
use x402_xec.Payments.Preparer.{
  PreparerOptions, Preparation, prepare, validate_invoice, bind_resource, fund, authorize,
  unsigned_of,
}
use x402_xec.Payments.Preparer.Roundtrip.{IsAccepted, prepare-check_authorization}
use x402_xec.Transactions.{BuildResult}
use x402_xec.Tests.Fixtures.{invoice_q, root_request, flat_platform, hash_a, txid_1, address_q}

abbrev funding : BuildResult
funding = record {
  raw_tx = codes "00";
  txid = txid_1;
  selected_inputs = [];
  funding_outpoint = record { txid = txid_1; out_idx = 0 };
  funding_amount_sats = codes "1000";
  funding_script = codes "51";
  fee_sats = codes "100";
  change_sats = codes "200";
}

abbrev options : PreparerOptions
options = record {
  get_utxos = λ payer amount. some [];
  sign = λ message. some (codes "sig");
  payer = address_q;
  change_address = address_q;
  transaction_builder = λ request. ok funding;
  max_payment_sats = 5000;
  fee_per_kb = none;
  dust_sats = none;
  encode = λ json. codes "header";
}

abbrev trusting : SignatureVerifier
trusting payer message signature = some true

abbrev prepared : Preparation
prepared = record {
  invoice = invoice_q;
  authorization = record {
    unsigned = unsigned_of invoice_q hash_a address_q funding;
    signature = codes "sig";
  };
  payment_signature = codes "header";
  funding_transaction = funding;
}

prepares :
    prepare flat_platform options (invoice_json invoice_q) root_request (nonneg 120) ≡ ok prepared
unfolding prepare validate_invoice bind_resource fund authorize invoice_json invoice_schema
    authorization_schema authorization_json signing_message only_keys field? text_beq
    safe_nonnegative is_positive_decimal is_address compute_invoice_hash canonical_hash canonicalize
    compute_resource_hash normalize_method validate_path canonical_query starts_with includes
    parse_amount_sats of_decimal value_onto to_decimal
prepares = refl

prepare-check_authorization_example :
    IsAccepted flat_platform trusting options (λ m s e. refl) root_request (nonneg 120) prepared
prepare-check_authorization_example =
    prepare-check_authorization flat_platform trusting options (λ m s e. refl)
      (invoice_json invoice_q) root_request (nonneg 120) prepares
