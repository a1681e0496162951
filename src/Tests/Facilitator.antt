-- ===== src/Tests/Facilitator.antt =====
-- Runs of the facilitator.
use x402_xec.Core.Authorization.Laws.{verify_authorization-IsAuthorized, IsAuthorized}
use x402_xec.Core.Authorization.{
  Checked, AuthorizationInput, authorization_json, check_authorization, signing_message,
  verify_authorization, SignatureVerifier,
}
use x402_xec.Core.Resource.{
  ResourceRequest, compute_resource_hash, canonical_query, normalize_method, validate_path,
  canonical_hash, compute_body_and_query_hash, normalize_server_origin, origin_of,
}
use x402_xec.Facilitator.Service.Balance.{empty_ledger-IsBalanced, verify-IsBalanced, IsBalanced}
use x402_xec.Facilitator.Service.Repeats.{verify_refused, verify_replay}
use x402_xec.Facilitator.Service.Replies.{is_verified}
use x402_xec.Facilitator.Service.Books.{HasBooksOf}
use x402_xec.Facilitator.Request.{verify_request_schema, resource_request_schema}
use x402_xec.Core.Json.{
  only_keys, field?, safe_nonnegative, Number, nonneg, Json, num, str, obj, end, field,
}
use x402_xec.Common.{
  text_beq, includes, starts_with, ◌≡◌, refl, true, false, none, some, [], Text, text_eq, nat_eq,
  codes, ok,
}
use x402_xec.Core.Schemas.{invoice_schema, is_address, authorization_schema, parse_amount_sats}
use x402_xec.Common.Decimal.{is_positive_decimal, of_decimal, to_decimal, value_onto}
use x402_xec.Core.Canonical.{canonicalize, join_comma, quote, text_lt}
use x402_xec.Facilitator.Service.{
  digests, authorize_and_debit, debit, debit_account, debit_output, process, request_digest, verify,
  verified, Outcome,
}
use x402_xec.Common.Dict.{get, retain, set}
use x402_xec.Core.Chronik.{inspect_funding_transaction, valid_chronik_block, TxProvider, answered}
use x402_xec.Core.Invoice.{compute_invoice_hash, invoice_json}
use x402_xec.Core.NonceStore.{forget_expired, consume}
use x402_xec.Facilitator.Ledger.{
  commit, consume_staged, outpoint_key, Verified, Ledger, empty_ledger,
}
use x402_xec.Tests.Fixtures.{flat_platform, hash_a, txid_1, address_q, repeat, payment}

abbrev accepting : SignatureVerifier
accepting payer message signature = some true

abbrev funding : TxProvider
funding txid = answered (some payment)

abbrev nonce_n : Text
nonce_n = repeat 22 b'n'

abbrev invoice_n : Json
invoice_n = obj (
    field (codes "x402Version") (num (nonneg 1)) (
      field (codes "scheme") (str (codes "exact")) (
        field (codes "network") (str (codes "xec:mainnet")) (
          field (codes "resourceHash") (str hash_a) (
            field (codes "amountSats") (str (codes "400")) (
              field (codes "payTo") (str address_q) (
                field (codes "nonce") (str nonce_n) (
                  field (codes "issuedAt") (num (nonneg 100))
                    (field (codes "expiresAt") (num (nonneg 160)) end)))))))))

abbrev authorization_n : Json
authorization_n = obj (
    field (codes "x402Version") (num (nonneg 1)) (
      field (codes "scheme") (str (codes "exact")) (
        field (codes "network") (str (codes "xec:mainnet")) (
          field (codes "invoiceHash") (str hash_a) (
            field (codes "resourceHash") (str hash_a) (
              field (codes "amountSats") (str (codes "400")) (
                field (codes "payTo") (str address_q) (
                  field (codes "nonce") (str nonce_n) (
                    field (codes "payer") (str address_q) (
                      field (codes "transaction")
                        (obj (
                          field (codes "txid") (str txid_1)
                            (field (codes "vout") (num (nonneg 1)) end)))
                        (field (codes "signature") (str (codes "c2ln")) end)))))))))))

abbrev resource_n : ResourceRequest
resource_n = record {
  server_origin = codes "https://shop";
  method = codes "GET";
  path = codes "/";
  query = none;
  body = none;
}

abbrev request : Json
request = obj (
    field (codes "invoice") invoice_n (
      field (codes "authorization") authorization_n (
        field (codes "resource")
          (obj (
            field (codes "serverOrigin") (str (codes "https://shop")) (
              field (codes "method") (str (codes "GET"))
                (field (codes "path") (str (codes "/")) end))))
          (field (codes "idempotencyKey") (str (codes "key-1")) end))))

abbrev body : Verified
body = record {
  invoice_id = hash_a;
  authorization_digest = hash_a;
  debited_sats = codes "400";
  remaining_balance_sats = codes "600";
  funding_outpoint = record { txid = txid_1; out_idx = 1 };
}

abbrev serve : Number → Ledger → Ledger × Outcome
serve = verify flat_platform funding accepting request

served : (serve (nonneg 120) empty_ledger).1 ≡ verified body
unfolding verify verify_request_schema only_keys text_beq field? invoice_schema is_positive_decimal
    is_address safe_nonnegative authorization_schema resource_request_schema compute_resource_hash
    canonicalize canonical_query normalize_method validate_path includes digests of_decimal
    to_decimal value_onto get retain set starts_with authorization_json check_authorization
    signing_message verify_authorization join_comma quote text_lt inspect_funding_transaction
    valid_chronik_block compute_invoice_hash invoice_json forget_expired canonical_hash
    compute_body_and_query_hash normalize_server_origin origin_of parse_amount_sats commit
    consume_staged outpoint_key authorize_and_debit debit debit_account debit_output process
    request_digest
served = refl

verify-IsBalanced_example : IsBalanced (serve (nonneg 120) empty_ledger).0
verify-IsBalanced_example =
    verify-IsBalanced flat_platform funding accepting request (nonneg 120) empty_ledger
      empty_ledger-IsBalanced

verify_replay_example :
    serve (nonneg 500) (serve (nonneg 120) empty_ledger).0
    ≡ ((serve (nonneg 120) empty_ledger).0, verified body)
verify_replay_example =
    verify_replay flat_platform funding accepting request (nonneg 120) (nonneg 500) empty_ledger
      body served

abbrev no_funding : TxProvider
no_funding txid = answered none

unfunded :
    is_verified (verify flat_platform no_funding accepting request (nonneg 120) empty_ledger).1
    ≡ false
unfolding verify verify_request_schema only_keys text_beq field? invoice_schema is_positive_decimal
    is_address safe_nonnegative authorization_schema resource_request_schema compute_resource_hash
    canonicalize canonical_query normalize_method validate_path includes digests of_decimal
    to_decimal value_onto get retain set starts_with authorization_json check_authorization
    signing_message verify_authorization join_comma quote text_lt inspect_funding_transaction
    valid_chronik_block compute_invoice_hash invoice_json forget_expired canonical_hash
    compute_body_and_query_hash normalize_server_origin origin_of parse_amount_sats commit
    consume_staged outpoint_key authorize_and_debit debit debit_account debit_output process
    request_digest
unfunded = refl

verify_refused_example :
    HasBooksOf
      (verify flat_platform no_funding accepting request (nonneg 120) empty_ledger).0
      empty_ledger
verify_refused_example =
    verify_refused flat_platform no_funding accepting request (nonneg 120) empty_ledger unfunded

abbrev terms : AuthorizationInput
terms = record {
  invoice = invoice_n;
  authorization = authorization_n;
  request = resource_n;
  now = nonneg 120;
}

authorized : (verify_authorization flat_platform accepting consume terms []).1 ≡ ok 400
unfolding verify_authorization check_authorization invoice_schema only_keys text_beq field?
    is_positive_decimal is_address safe_nonnegative authorization_schema compute_resource_hash
    canonicalize canonical_query normalize_method validate_path includes parse_amount_sats
    of_decimal to_decimal value_onto starts_with signing_message join_comma quote text_lt
    compute_invoice_hash invoice_json canonical_hash compute_body_and_query_hash
    normalize_server_origin origin_of consume get retain
authorized = refl

verify_authorization-IsAuthorized_example :
    (c : Checked) × IsAuthorized flat_platform accepting terms c
    × (parse_amount_sats c.invoice.amount_sats ≡ some 400)
    × ((consume c.invoice.nonce c.invoice.expires_at c.now []).1 ≡ true)
    × ((verify_authorization flat_platform accepting consume terms []).0
        ≡ (consume c.invoice.nonce c.invoice.expires_at c.now []).0)
verify_authorization-IsAuthorized_example =
    verify_authorization-IsAuthorized flat_platform accepting consume terms [] authorized
