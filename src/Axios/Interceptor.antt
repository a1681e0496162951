-- ===== src/Axios/Interceptor.antt =====
-- interceptor.ts: a request that is answered with status 402 is paid and sent once more. Axios, the
-- browser's URL parser, the clock and the signing sides are parameters.
pub mod Offer
pub mod Resource
pub mod Retry
use x402_xec.Common.{
  ok, err, some, none, false, not, Bool, Option, List, Result, Text, codes, reject, require, ◌∷◌,
  [], ◌==◌, text_eq, nat_eq, ◌&&◌, ◌||◌,
}
use x402_xec.Common.{◌>>=◌, ◌>>◌, ltb, leb}
use x402_xec.Core.Json.{
  Number, Json, num, str, arr, obj, Fields, field?, nonneg, Items, nil, cons, safe_nonnegative,
}
use x402_xec.Core.Schemas.{
  Invoice, Authorization, Transaction, UnsignedAuthorization, invoice_schema, authorization_schema,
  parse_amount_sats, x402_version, xec_mainnet, xec_scheme, object,
}
use x402_xec.Core.Resource.{
  Platform, Url, QueryPair, ResourceRequest, compute_resource_hash, to_upper_case,
}
use x402_xec.Core.Invoice.{invoice_json, compute_invoice_hash}
use x402_xec.Core.Authorization.{signing_message, authorization_json}

-- What the interceptor throws.
pub data OfferError : Type 0 where
  clock_error invalid_response unsupported_version invalid_invoice : OfferError
  unsupported_network unsupported_scheme not_yet_valid expired : OfferError
  invalid_invoice_id invalid_resource resource_mismatch : OfferError
  unresolved_url requested_mismatch invalid_methods unsupported_method : OfferError
  amount_exceeds signing_failed orchestrator_failed was_broadcast no_signature : OfferError

pub record RequestConfig : Type 0 where
  pub url : Option Text
  pub base_url : Option Text
  pub method : Option Text
  -- the marker of a request that was paid
  pub payment_attempted : Bool
  pub payment_header : Option Text

pub record PaymentOffer : Type 0 where
  pub invoice : Invoice
  pub resource : ResourceRequest

-- The browser: `new URL(text, base)`, and the origin of the page, where there is one.
pub record Browser : Type 0 where
  pub resolve_url : Text → Option Text → Option Url
  pub page_origin : Option Text

-- `isQuery`, with the pairs.
unfoldable pub pairs_of_query : Items → Option (List QueryPair)
pairs_of_query nil = some []
pairs_of_query (cons (arr (cons (str k) (cons (str v) nil))) rest) = elim (pairs_of_query rest) [
  | none ↦ none
  | some pairs ↦ some (record { key = k; value = v } ∷ pairs)
]
pairs_of_query (cons _ rest) = none

unfoldable pub resource_query : Option Json → Option (Option (List QueryPair))
resource_query none = some none
resource_query (some (arr items)) = elim (pairs_of_query items) [
  | none ↦ none
  | some pairs ↦ some (some pairs)
]
resource_query (some _) = none

unfoldable pub resource_fields :
    Option Json → Option Json → Option Json → Fields → Result OfferError ResourceRequest
resource_fields (some (str server_origin)) (some (str method)) (some (str path)) fs = do
  query ← require (resource_query (field? (codes "query") fs)) invalid_resource
  ok (record {
    server_origin = server_origin;
    method = method;
    path = path;
    query = query;
    body = field? (codes "body") fs;
  })
resource_fields _ _ _ fs = err invalid_resource

-- `parseResource`
unfoldable pub parse_resource : Option Json → Result OfferError ResourceRequest
parse_resource (some (obj fs)) =
    resource_fields (field? (codes "serverOrigin") fs) (field? (codes "method") fs)
      (field? (codes "path") fs) fs
parse_resource _ = err invalid_resource

abbrev pub or_text : Option Text → Text → Text
or_text none t = t
or_text (some s) t = s

abbrev or_else_text : Option Text → Option Text → Option Text
or_else_text none t = t
or_else_text (some s) t = some s

-- `value === text`
abbrev pub is_text : Option Json → Text → Bool
is_text (some (str s)) t = s == t
is_text _ t = false

abbrev pub is_version : Option Json → Bool
is_version (some (num (nonneg n))) = n == x402_version
is_version _ = false

-- The test of `accepts.find`.
unfoldable pub is_accepted : Invoice → Json → Bool
is_accepted invoice (obj fs) =
    is_text (field? (codes "asset") fs) (codes "XEC")
    && is_text (field? (codes "network") fs) xec_mainnet
    && is_text (field? (codes "scheme") fs) (codes "xec-prepaid-utxo")
    && is_text (field? (codes "amountSats") fs) invoice.amount_sats
    && is_text (field? (codes "payTo") fs) invoice.pay_to
    && is_text (field? (codes "paymentHeader") fs) (codes "PAYMENT-SIGNATURE")
is_accepted invoice _ = false

unfoldable pub any_accepted : Invoice → Items → Bool
any_accepted invoice nil = false
any_accepted invoice (cons j rest) = is_accepted invoice j || any_accepted invoice rest

unfoldable pub check_accepts : Option Json → Invoice → Result OfferError (Unit {0})
check_accepts (some (arr items)) invoice =
    reject (not (any_accepted invoice items)) unsupported_method
check_accepts _ invoice = err invalid_methods

abbrev pub parsed_invoice : Option Json → Option Invoice
parsed_invoice none = none
parsed_invoice (some value) = invoice_schema value

module _ (p : Platform) (browser : Browser) where
  -- `resolveRequestedUrl`
  unfoldable pub resolve_requested_url : RequestConfig → Result OfferError Url
  resolve_requested_url config = elim (p.parse_url (or_text config.url [])) [
    | some url ↦ ok url
    | none ↦
        require
          (browser.resolve_url (or_text config.url [])
            (or_else_text config.base_url browser.page_origin))
          unresolved_url
  ]

  -- A method is a token, so its case is ASCII's.
  unfoldable pub validate_requested_resource :
      ResourceRequest → RequestConfig → Result OfferError (Unit {0})
  validate_requested_resource resource config = do
    requested ← resolve_requested_url config
    reject
        (not (requested.origin == resource.server_origin)
          || not (requested.pathname == resource.path)
          || not (
              to_upper_case (or_text config.method (codes "get")) == to_upper_case resource.method))
        requested_mismatch

  unfoldable pub bind_offer : Fields → RequestConfig → Invoice → Result OfferError PaymentOffer
  bind_offer fs config invoice = do
    hash ← require (compute_invoice_hash p invoice) invalid_invoice
    reject (not (is_text (field? (codes "invoiceId") fs) hash)) invalid_invoice_id
    resource ← parse_resource (field? (codes "resource") fs)
    resource_hash ← require (compute_resource_hash p resource) invalid_resource
    reject (not (resource_hash == invoice.resource_hash)) resource_mismatch
    validate_requested_resource resource config
    check_accepts (field? (codes "accepts") fs) invoice
    ok (record { invoice = invoice; resource = resource })

  -- `parseAndValidateOffer`
  unfoldable pub parse_and_validate_offer :
      Json → RequestConfig → Number → Result OfferError PaymentOffer
  parse_and_validate_offer input config clock = do
    now ← require (safe_nonnegative clock) clock_error
    fs ← require (object (some input)) invalid_response
    reject (not (is_version (field? (codes "x402Version") fs))) unsupported_version
    invoice ← require (parsed_invoice (field? (codes "invoice") fs)) invalid_invoice
    reject (not (invoice.network == xec_mainnet)) unsupported_network
    reject (not (invoice.scheme == xec_scheme)) unsupported_scheme
    reject (ltb now invoice.issued_at) not_yet_valid
    reject (leb invoice.expires_at now) expired
    bind_offer fs config invoice

-- Who makes the payment. A rejected promise is `none`; the signature of a result may be missing.
pub data PaymentMode : Type 0 where
  signer : Text → Transaction → (Text → Option Text) → PaymentMode
  payment_preparer : (PaymentOffer → Option (Option Text)) → PaymentMode
  orchestrator : (PaymentOffer → Option (Bool × Option Text)) → PaymentMode

-- `readPaymentSignature`
unfoldable pub read_payment_signature : Option Text → Result OfferError Text
read_payment_signature none = err no_signature
read_payment_signature (some []) = err no_signature
read_payment_signature (some (c ∷ s)) = ok (c ∷ s)

abbrev pub payer_authorization : Invoice → Text → Text → Transaction → UnsignedAuthorization
payer_authorization invoice invoice_hash payer transaction = record {
  version = x402_version;
  scheme = xec_scheme;
  network = xec_mainnet;
  invoice_hash = invoice_hash;
  resource_hash = invoice.resource_hash;
  amount_sats = invoice.amount_sats;
  pay_to = invoice.pay_to;
  nonce = invoice.nonce;
  payer = payer;
  transaction = transaction;
}

-- `encode` is base64url of JSON.stringify.
module _ (p : Platform) (encode : Invoice → Authorization → Text) where
  unfoldable pub create_authorization :
      Invoice → Text → Transaction → (Text → Option Text) → Result OfferError Authorization
  create_authorization invoice payer transaction sign = do
    hash ← require (compute_invoice_hash p invoice) invalid_invoice
    let unsigned = payer_authorization invoice hash payer transaction
    message ← require (signing_message unsigned) signing_failed
    signature ← require (sign message) signing_failed
    require
        (authorization_schema
          (authorization_json (record { unsigned = unsigned; signature = signature })))
        signing_failed

  unfoldable pub create_payment_signature : PaymentMode → PaymentOffer → Result OfferError Text
  create_payment_signature (signer payer transaction sign) offer = do
    authorization ← create_authorization offer.invoice payer transaction sign
    ok (encode offer.invoice authorization)
  create_payment_signature (payment_preparer prepare) offer = do
    signature ← require (prepare offer) signing_failed
    read_payment_signature signature
  create_payment_signature (orchestrator execute) offer = do
    result ← require (execute offer) orchestrator_failed
    reject result.0 was_broadcast
    read_payment_signature result.1
