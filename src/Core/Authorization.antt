-- ===== src/Core/Authorization.antt =====
-- authorization.ts: an authorization that a payer signs for an invoice.
pub mod Laws
pub mod Reading
use x402_xec.Common.{
  ℕ, Bool, true, false, not, Option, none, some, Text, codes, ltb, leb, ◌||◌, ◌&&◌, ◌==◌, text_eq,
  nat_eq, Result, ok, err, ◌>>=◌, ◌>>◌, reject, require, if◌then◌else◌,
}
use x402_xec.Core.Json.{Number, nonneg, Json, num, str, obj, Fields, end, field, safe_nonnegative}
use x402_xec.Core.Canonical.{canonicalize}
use x402_xec.Core.Schemas.{
  Invoice, Authorization, UnsignedAuthorization, Transaction, invoice_schema, authorization_schema,
  parse_amount_sats,
}
use x402_xec.Core.Resource.{Platform, ResourceRequest, compute_resource_hash}
use x402_xec.Core.Invoice.{compute_invoice_hash}

pub data FailureCode : Type 0 where
  malformed not_yet_valid expired resource_mismatch amount_mismatch pay_to_mismatch : FailureCode
  nonce_mismatch invoice_mismatch invalid_signature nonce_reused : FailureCode
  -- what the source throws or passes on: of parseAmountSats, the hash or the signature verifier
  thrown : FailureCode

unsigned_fields : UnsignedAuthorization → Fields → Fields
unsigned_fields u rest = field (codes "x402Version") (num (nonneg u.version)) (
    field (codes "scheme") (str u.scheme) (
      field (codes "network") (str u.network) (
        field (codes "invoiceHash") (str u.invoice_hash) (
          field (codes "resourceHash") (str u.resource_hash) (
            field (codes "amountSats") (str u.amount_sats) (
              field (codes "payTo") (str u.pay_to) (
                field (codes "nonce") (str u.nonce) (
                  field (codes "payer") (str u.payer) (
                    field (codes "transaction")
                      (obj (
                        field (codes "txid") (str u.transaction.txid)
                          (field (codes "vout") (num (nonneg u.transaction.vout)) end)))
                      rest)))))))))

unfoldable pub authorization_json : Authorization → Json
unfolding unsigned_fields
authorization_json a =
    obj (unsigned_fields a.unsigned (field (codes "signature") (str a.signature) end))

-- `authorizationSigningMessage`: the canonical text of all but the signature.
unfoldable pub signing_message : UnsignedAuthorization → Option Text
unfolding unsigned_fields
signing_message u = canonicalize (obj (unsigned_fields u end))

-- A signature verifier: payer, message and signature to the answer, or `none` where it throws.
abbrev pub SignatureVerifier : Type 0
SignatureVerifier = Text → Text → Text → Option Bool

pub record AuthorizationInput : Type 0 where
  pub invoice : Json
  pub authorization : Json
  pub request : ResourceRequest
  pub now : Number

pub record Checked : Type 0 where
  pub invoice : Invoice
  pub authorization : Authorization
  pub now : ℕ

module _ (p : Platform) (verify_signature : SignatureVerifier) where
  unfoldable pub check_terms : Invoice → Authorization → Result FailureCode (Unit {0})
  check_terms invoice a = do
    authorized ← require (parse_amount_sats a.amount_sats) thrown
    asked ← require (parse_amount_sats invoice.amount_sats) thrown
    reject (not (authorized == asked)) amount_mismatch
    reject (not (a.pay_to == invoice.pay_to)) pay_to_mismatch
    reject (not (a.nonce == invoice.nonce)) nonce_mismatch
    hash ← require (compute_invoice_hash p invoice) thrown
    reject
        (not (a.version == invoice.version)
          || not (a.scheme == invoice.scheme)
          || not (a.network == invoice.network)
          || not (a.invoice_hash == hash))
        invoice_mismatch

  unfoldable pub check_signature : Authorization → Result FailureCode (Unit {0})
  check_signature a = do
    message ← require (signing_message a.unsigned) thrown
    valid ← require (verify_signature a.payer message a.signature) thrown
    reject (not valid) invalid_signature

  -- All the tests before the nonce is consumed.
  unfoldable pub check_authorization : AuthorizationInput → Result FailureCode Checked
  unfolding check_terms check_signature
  check_authorization input = do
    invoice ← require (invoice_schema input.invoice) malformed
    a ← require (authorization_schema input.authorization) malformed
    now ← require (safe_nonnegative input.now) malformed
    reject (ltb now invoice.issued_at) not_yet_valid
    reject (leb invoice.expires_at now) expired
    request_hash ← require (compute_resource_hash p input.request) malformed
    reject
        (not (request_hash == invoice.resource_hash)
          || not (a.resource_hash == invoice.resource_hash))
        resource_mismatch
    check_terms invoice a
    check_signature a
    ok (record { invoice = invoice; authorization = a; now = now })

  -- `consume` is the nonce store's method, on its state.
  module _ {S : Type 0} (consume : Text → ℕ → ℕ → S → S × Bool) where
    consume_nonce : Result FailureCode Checked → S → S × Result FailureCode ℕ
    consume_nonce (err code) s = (s, err code)
    consume_nonce (ok c) s =
        let (s', fresh) = consume c.invoice.nonce c.invoice.expires_at c.now s in
        (
          s',
          if fresh
              then require (parse_amount_sats c.invoice.amount_sats) thrown
              else err nonce_reused,
        )

    unfoldable pub verify_authorization : AuthorizationInput → S → S × Result FailureCode ℕ
    unfolding consume_nonce
    verify_authorization input s = consume_nonce (check_authorization input) s
