-- ===== src/Facilitator/Request.antt =====
-- schemas.ts of the facilitator: the request to verify an authorization.
use x402_xec.Common.{
  ℕ, Bool, Option, none, some, List, [], ◌∷◌, ◌&&◌, ◌||◌, Text, codes, length, all, leb, nat_beq,
  text_eq,
}
use x402_xec.Common.Decimal.{is_digit}
use x402_xec.Common.Maybe.{◌>>=◌, ◌>>◌, check}
use x402_xec.Core.Json.{Json, str, arr, obj, Items, nil, cons, field?, only_keys}
use x402_xec.Core.Schemas.{Invoice, Authorization, invoice_schema, authorization_schema}
use x402_xec.Core.Resource.{ResourceRequest, QueryPair}

-- `/^[A-Za-z0-9._:-]+$/`, of 1 to 128 characters.
abbrev is_key_unit : ℕ → Bool
is_key_unit c =
    (leb b'A' c && leb c b'Z')
    || (leb b'a' c && leb c b'z')
    || is_digit c
    || nat_beq c b'.'
    || nat_beq c b'_'
    || nat_beq c b':'
    || nat_beq c b'-'

abbrev pub is_idempotency_key : Text → Bool
is_idempotency_key s = leb 1 (length s) && leb (length s) 128 && all is_key_unit s

abbrev string : Option Json → Option Text
string (some (str s)) = some s
string _ = none

-- `z.array(z.tuple([z.string(), z.string()]))`
query_pairs : Items → Option (List QueryPair)
query_pairs nil = some []
query_pairs (cons (arr (cons (str k) (cons (str v) nil))) items) = do
  rest ← query_pairs items
  some (record { key = k; value = v } ∷ rest)
query_pairs (cons _ items) = none

-- An optional query.
optional_query : Option Json → Option (Option (List QueryPair))
optional_query none = some none
optional_query (some (arr items)) = do pairs ← query_pairs items; some (some pairs)
optional_query (some _) = none

resource_keys : List Text
resource_keys =
    codes "serverOrigin" ∷ codes "method" ∷ codes "path" ∷ codes "query" ∷ codes "body" ∷ []

-- `resourceRequestSchema`, and `toResourceRequest` of what it lets through.
unfoldable pub resource_request_schema : Json → Option ResourceRequest
unfolding resource_keys query_pairs optional_query
resource_request_schema (obj fs) = do
  check (only_keys resource_keys fs)
  origin ← string (field? (codes "serverOrigin") fs)
  method ← string (field? (codes "method") fs)
  path ← string (field? (codes "path") fs)
  query ← optional_query (field? (codes "query") fs)
  some (record {
    server_origin = origin;
    method = method;
    path = path;
    query = query;
    body = field? (codes "body") fs;
  })
resource_request_schema _ = none

pub record VerifyRequest : Type 0 where
  pub invoice : Invoice
  pub authorization : Authorization
  pub resource : ResourceRequest
  pub idempotency_key : Text

request_keys : List Text
request_keys =
    codes "invoice" ∷ codes "authorization" ∷ codes "resource" ∷ codes "idempotencyKey" ∷ []

-- `verifyRequestSchema`
unfoldable pub verify_request_schema : Json → Option VerifyRequest
unfolding request_keys
verify_request_schema (obj fs) = do
  check (only_keys request_keys fs)
  invoice_field ← field? (codes "invoice") fs
  invoice ← invoice_schema invoice_field
  authorization_field ← field? (codes "authorization") fs
  authorization ← authorization_schema authorization_field
  resource_field ← field? (codes "resource") fs
  resource ← resource_request_schema resource_field
  key ← string (field? (codes "idempotencyKey") fs)
  check (is_idempotency_key key)
  some (record {
    invoice = invoice;
    authorization = authorization;
    resource = resource;
    idempotency_key = key;
  })
verify_request_schema _ = none
