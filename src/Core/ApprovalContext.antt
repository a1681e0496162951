-- ===== src/Core/ApprovalContext.antt =====
-- approval-context.ts: the answer of status 402 that a client is asked to pay, and the context that
-- a person approves.
pub mod Laws
pub mod Schema
use x402_xec.Common.{nat_eq}
use x402_xec.Common.{
  ℕ, Bool, true, false, not, Option, none, some, List, [], ◌∷◌, ◌++◌, Text, codes, leb, ltb, ◌==◌,
  text_eq, Result, ok, err, reject, require, if◌then◌else◌,
}
use x402_xec.Common.{◌>>=◌, ◌>>◌}
use x402_xec.Core.Json.{
  Number, nonneg, Json, num, str, obj, Fields, end, field, field?, only_keys, safe_nonnegative,
}
use x402_xec.Core.Schemas.{
  Invoice, invoice_schema, x402_version, xec_mainnet, xec_scheme, is_hash, is_amount, is_address,
  is_nonce, matching, literal, version, timestamp, object,
}
use x402_xec.Core.Resource.{Platform, QueryPair, ResourceRequest, compute_resource_hash}
use x402_xec.Core.ApprovalContext.Schema.{ApprovalContext, approval_context_schema, context_object}
use x402_xec.Core.Invoice.{compute_invoice_hash}

-- What the program leaves to JavaScript and zod: the pairs that a query of JSON, which the source
-- casts, is destructured to (`none` where that throws), `String(value)`, and the message of zod's
-- first issue with an invoice.
pub record Runtime : Type 0 where
  pub platform : Platform
  pub read_query : Json → Option (List QueryPair)
  pub string_of : Option Json → Text
  pub first_issue : Option Json → Text

-- What is thrown, with the part of the message that depends on the input.
pub data RequiredError : Type 0 where
  invalid_clock malformed_response : RequiredError
  unsupported_version invalid_invoice unsupported_network unsupported_scheme : Text → RequiredError
  not_yet_valid expired invoice_id_mismatch invalid_metadata missing_fields : RequiredError
  resource_mismatch unexpected_resource context_mismatch : RequiredError
  -- of zod, and of canonicalize.ts and resource.ts
  invalid_context hash_error : RequiredError

-- The message; that of zod, canonicalize.ts and resource.ts is left empty.
unfoldable pub message : RequiredError → Text
message invalid_clock = codes "Clock must return a non-negative safe integer timestamp"
message malformed_response = codes "Invalid x402 payment required response: expected an object"
message (unsupported_version v) = codes "Unsupported x402 version: expected 1, got " ++ v
message (invalid_invoice m) = codes "Invalid x402 invoice: " ++ m
message (unsupported_network n) = codes "Unsupported x402 network: " ++ n
message (unsupported_scheme s) = codes "Unsupported x402 invoice scheme: " ++ s
message not_yet_valid = codes "x402 invoice is not yet valid"
message expired = codes "x402 invoice has expired"
message invoice_id_mismatch = codes "Invoice hash mismatch against invoiceId"
message invalid_metadata = codes "Invalid x402 resource metadata"
message missing_fields = codes "Invalid x402 resource metadata: required fields missing"
message resource_mismatch = codes "Resource hash mismatch against invoice.resourceHash"
message unexpected_resource = codes "Resource does not match expected resource"
message context_mismatch = codes "Invoice resourceHash does not match calculated resourceHash"
message invalid_context = []
message hash_error = []

-- `validateEpochClock`
unfoldable pub validate_epoch_clock : Number → Result RequiredError ℕ
validate_epoch_clock now = require (safe_nonnegative now) invalid_clock

pub data ResourceOrHash : Type 0 where
  resource_request : ResourceRequest → ResourceOrHash
  resource_hash : Text → ResourceOrHash

unfoldable pub hash_of : Platform → ResourceOrHash → Result RequiredError Text
hash_of p (resource_request r) = require (compute_resource_hash p r) hash_error
hash_of p (resource_hash h) = ok h

unfoldable pub create_x402_approval_context :
    Platform → Invoice → ResourceOrHash → Result RequiredError ApprovalContext
create_x402_approval_context p invoice resource_or_hash = do
  hash ← hash_of p resource_or_hash
  reject (not (hash == invoice.resource_hash)) context_mismatch
  invoice_hash ← require (compute_invoice_hash p invoice) hash_error
  require (approval_context_schema (context_object invoice invoice_hash hash)) invalid_context

-- A query that is left out stays out.
unfoldable pub metadata_query : Runtime → Option Json → Option (Option (List QueryPair))
metadata_query rt none = some none
metadata_query rt (some q) = elim (rt.read_query q) [ none ↦ none | some pairs ↦ some (some pairs) ]

unfoldable pub metadata_fields :
    Runtime
    → Option Json
    → Option Json
    → Option Json
    → Fields
    → Result RequiredError ResourceRequest
metadata_fields rt (some (str server_origin)) (some (str method)) (some (str path)) fs = do
  query ← require (metadata_query rt (field? (codes "query") fs)) hash_error
  ok (record {
    server_origin = server_origin;
    method = method;
    path = path;
    query = query;
    body = field? (codes "body") fs;
  })
metadata_fields rt _ _ _ fs = err missing_fields

-- `parseResourceMetadata`
unfoldable pub parse_resource_metadata :
    Runtime → Option Json → Result RequiredError ResourceRequest
parse_resource_metadata rt (some (obj fs)) =
    metadata_fields rt (field? (codes "serverOrigin") fs) (field? (codes "method") fs)
      (field? (codes "path") fs) fs
parse_resource_metadata rt _ = err invalid_metadata

-- `input.x402Version !== X402_VERSION`
abbrev pub is_version : Option Json → Bool
is_version (some (num (nonneg n))) = n == x402_version
is_version _ = false

-- `typeof input.invoiceId === "string" && input.invoiceId !== hash`
abbrev pub is_wrong_id : Option Json → Text → Bool
is_wrong_id (some (str id)) hash = not (id == hash)
is_wrong_id _ hash = false

-- `invoiceSchema.safeParse(input.invoice)`
abbrev pub parsed_invoice : Option Json → Option Invoice
parsed_invoice none = none
parsed_invoice (some value) = invoice_schema value

-- `expectedResource`, where it is given.
unfoldable pub check_expected :
    Platform → Option ResourceRequest → Text → Result RequiredError (Unit {0})
check_expected p none hash = ok tt
check_expected p (some expected) hash = do
  expected_hash ← require (compute_resource_hash p expected) hash_error
  reject (not (hash == expected_hash)) unexpected_resource

pub record RequiredOptions : Type 0 where
  pub now : Number
  pub expected_resource : Option ResourceRequest

pub record Validated : Type 0 where
  pub invoice : Invoice
  pub resource : ResourceRequest
  pub approval_context : ApprovalContext

module _ (rt : Runtime) where
  -- The tests from the schema of the invoice on.
  unfoldable pub validate_invoice :
      Fields → RequiredOptions → ℕ → Invoice → Result RequiredError Validated
  validate_invoice fs options now invoice = do
    reject (not (invoice.network == xec_mainnet)) (unsupported_network invoice.network)
    reject (not (invoice.scheme == xec_scheme)) (unsupported_scheme invoice.scheme)
    reject (ltb now invoice.issued_at) not_yet_valid
    reject (leb invoice.expires_at now) expired
    invoice_hash ← require (compute_invoice_hash rt.platform invoice) hash_error
    reject (is_wrong_id (field? (codes "invoiceId") fs) invoice_hash) invoice_id_mismatch
    resource ← parse_resource_metadata rt (field? (codes "resource") fs)
    calculated ← require (compute_resource_hash rt.platform resource) hash_error
    reject (not (calculated == invoice.resource_hash)) resource_mismatch
    check_expected rt.platform options.expected_resource calculated
    context ← create_x402_approval_context rt.platform invoice (resource_hash calculated)
    ok (record { invoice = invoice; resource = resource; approval_context = context })

  unfoldable pub validate_fields : Fields → RequiredOptions → ℕ → Result RequiredError Validated
  validate_fields fs options now = do
    reject (not (is_version (field? (codes "x402Version") fs)))
        (unsupported_version (rt.string_of (field? (codes "x402Version") fs)))
    invoice ←
        require (parsed_invoice (field? (codes "invoice") fs))
          (invalid_invoice (rt.first_issue (field? (codes "invoice") fs)))
    validate_invoice fs options now invoice

  unfoldable pub validate_payment_required : Json → RequiredOptions → Result RequiredError Validated
  validate_payment_required input options = do
    now ← validate_epoch_clock options.now
    fs ← require (object (some input)) malformed_response
    validate_fields fs options now
