-- ===== src/Core/Schemas.antt =====
-- schemas.ts: the zod schemas of the wire formats, as functions from JSON. A schema built by
-- `.strict()` refuses an object with a key that it does not name.
use x402_xec.Common.{
  ℕ, Bool, false, Option, none, some, List, [], ◌∷◌, ◌&&◌, ◌||◌, Text, codes, length, all, leb, ltb,
  nat_beq, is_lower_hex, is_base64url, starts_with, drop, ◌==◌, text_eq, if◌then◌else◌,
}
use x402_xec.Common.Decimal.{is_digit, is_positive_decimal, of_decimal}
use x402_xec.Common.Maybe.{◌>>=◌, ◌>>◌, check}
use x402_xec.Core.Json.{
  nonneg, Json, num, str, obj, Fields, end, field, field?, only_keys, safe_nonnegative,
}

abbrev pub x402_version : ℕ
x402_version = 1

abbrev pub xec_mainnet : Text
xec_mainnet = codes "xec:mainnet"

abbrev pub xec_scheme : Text
xec_scheme = codes "exact"

-- `/^[0-9a-f]{64}$/`
abbrev pub is_hash : Text → Bool
is_hash s = nat_beq (length s) 64 && all is_lower_hex s

-- `/^[1-9][0-9]*$/`
abbrev pub is_amount : Text → Bool
is_amount s = is_positive_decimal s

abbrev is_lower_alphanumeric : ℕ → Bool
is_lower_alphanumeric c = (leb b'a' c && leb c b'z') || is_digit c

-- `[qp][a-z0-9]{41,}` behind the prefix.
is_address_body : Text → Bool
is_address_body [] = false
is_address_body (c ∷ s) =
    (nat_beq c b'q' || nat_beq c b'p') && leb 41 (length s) && all is_lower_alphanumeric s

-- `/^ecash:[qp][a-z0-9]{41,}$/`
unfoldable pub is_address : Text → Bool
unfolding is_address_body starts_with
is_address s = starts_with s (codes "ecash:") && is_address_body (drop 6 s)

-- 22 to 128 characters of unpadded base64url.
abbrev pub is_nonce : Text → Bool
is_nonce s = leb 22 (length s) && leb (length s) 128 && all is_base64url s

-- 1 to 1024 characters of unpadded base64url.
abbrev pub is_signature : Text → Bool
is_signature s = leb 1 (length s) && leb (length s) 1024 && all is_base64url s

-- A string that passes a pattern.
abbrev pub matching : (Text → Bool) → Option Json → Option Text
matching p (some (str s)) = if p s then some s else none
matching p _ = none

-- `z.literal(text)`
abbrev pub literal : Text → Option Json → Option Text
literal t (some (str s)) = if s == t then some s else none
literal t _ = none

-- `z.literal(X402_VERSION)`
abbrev pub version : Option Json → Option ℕ
version (some (num (nonneg n))) = if nat_beq n x402_version then some n else none
version _ = none

-- `z.number().int().nonnegative().safe()`
abbrev pub timestamp : Option Json → Option ℕ
timestamp (some (num n)) = safe_nonnegative n
timestamp _ = none

abbrev pub object : Option Json → Option Fields
object (some (obj fs)) = some fs
object _ = none

pub record Invoice : Type 0 where
  pub version : ℕ
  pub scheme : Text
  pub network : Text
  pub resource_hash : Text
  pub amount_sats : Text
  pub pay_to : Text
  pub nonce : Text
  pub issued_at : ℕ
  pub expires_at : ℕ

abbrev invoice_keys : List Text
invoice_keys =
    codes "x402Version"
    ∷ codes "scheme"
    ∷ codes "network"
    ∷ codes "resourceHash"
    ∷ codes "amountSats"
    ∷ codes "payTo"
    ∷ codes "nonce"
    ∷ codes "issuedAt"
    ∷ codes "expiresAt"
    ∷ []

-- `invoiceSchema.safeParse(value)`
unfoldable pub invoice_schema : Json → Option Invoice
invoice_schema value = do
  fs ← object (some value)
  check (only_keys invoice_keys fs)
  v ← version (field? (codes "x402Version") fs)
  scheme ← literal xec_scheme (field? (codes "scheme") fs)
  network ← literal xec_mainnet (field? (codes "network") fs)
  resource_hash ← matching is_hash (field? (codes "resourceHash") fs)
  amount_sats ← matching is_amount (field? (codes "amountSats") fs)
  pay_to ← matching is_address (field? (codes "payTo") fs)
  nonce ← matching is_nonce (field? (codes "nonce") fs)
  issued_at ← timestamp (field? (codes "issuedAt") fs)
  expires_at ← timestamp (field? (codes "expiresAt") fs)
  check (ltb issued_at expires_at)
  some (record {
    version = v;
    scheme = scheme;
    network = network;
    resource_hash = resource_hash;
    amount_sats = amount_sats;
    pay_to = pay_to;
    nonce = nonce;
    issued_at = issued_at;
    expires_at = expires_at;
  })

pub record Transaction : Type 0 where
  pub txid : Text
  pub vout : ℕ

-- `Authorization`, with the fields that the wallet signs in `unsigned`.
pub record UnsignedAuthorization : Type 0 where
  pub version : ℕ
  pub scheme : Text
  pub network : Text
  pub invoice_hash : Text
  pub resource_hash : Text
  pub amount_sats : Text
  pub pay_to : Text
  pub nonce : Text
  pub payer : Text
  pub transaction : Transaction

pub record Authorization : Type 0 where
  pub unsigned : UnsignedAuthorization
  pub open unsigned use *
  pub signature : Text

abbrev transaction_keys : List Text
transaction_keys = codes "txid" ∷ codes "vout" ∷ []

transaction_schema : Option Json → Option Transaction
transaction_schema value = do
  fs ← object value
  check (only_keys transaction_keys fs)
  txid ← matching is_hash (field? (codes "txid") fs)
  vout ← timestamp (field? (codes "vout") fs)
  some (record { txid = txid; vout = vout })

unsigned_fields : Fields → Option UnsignedAuthorization
unfolding transaction_schema
unsigned_fields fs = do
  v ← version (field? (codes "x402Version") fs)
  scheme ← literal xec_scheme (field? (codes "scheme") fs)
  network ← literal xec_mainnet (field? (codes "network") fs)
  invoice_hash ← matching is_hash (field? (codes "invoiceHash") fs)
  resource_hash ← matching is_hash (field? (codes "resourceHash") fs)
  amount_sats ← matching is_amount (field? (codes "amountSats") fs)
  pay_to ← matching is_address (field? (codes "payTo") fs)
  nonce ← matching is_nonce (field? (codes "nonce") fs)
  payer ← matching is_address (field? (codes "payer") fs)
  transaction ← transaction_schema (field? (codes "transaction") fs)
  some (record {
    version = v;
    scheme = scheme;
    network = network;
    invoice_hash = invoice_hash;
    resource_hash = resource_hash;
    amount_sats = amount_sats;
    pay_to = pay_to;
    nonce = nonce;
    payer = payer;
    transaction = transaction;
  })

abbrev authorization_keys : List Text
authorization_keys =
    codes "x402Version"
    ∷ codes "scheme"
    ∷ codes "network"
    ∷ codes "invoiceHash"
    ∷ codes "resourceHash"
    ∷ codes "amountSats"
    ∷ codes "payTo"
    ∷ codes "nonce"
    ∷ codes "payer"
    ∷ codes "transaction"
    ∷ codes "signature"
    ∷ []

-- `authorizationSchema.safeParse(value)`
unfoldable pub authorization_schema : Json → Option Authorization
unfolding unsigned_fields
authorization_schema value = do
  fs ← object (some value)
  check (only_keys authorization_keys fs)
  unsigned ← unsigned_fields fs
  signature ← matching is_signature (field? (codes "signature") fs)
  some (record { unsigned = unsigned; signature = signature })

-- `parseAmountSats`
unfoldable pub parse_amount_sats : Text → Option ℕ
parse_amount_sats value = if is_amount value then some (of_decimal value) else none

pub record SettlementProof : Type 0 where
  pub version : ℕ
  pub network : Text
  pub invoice_hash : Text
  pub txid : Text

abbrev proof_keys : List Text
proof_keys = codes "x402Version" ∷ codes "network" ∷ codes "invoiceHash" ∷ codes "txid" ∷ []

-- `x402SettlementProofV1Schema.safeParse(value)`
unfoldable pub settlement_proof_schema : Json → Option SettlementProof
settlement_proof_schema value = do
  fs ← object (some value)
  check (only_keys proof_keys fs)
  v ← version (field? (codes "x402Version") fs)
  network ← literal xec_mainnet (field? (codes "network") fs)
  invoice_hash ← matching is_hash (field? (codes "invoiceHash") fs)
  txid ← matching is_hash (field? (codes "txid") fs)
  some (record { version = v; network = network; invoice_hash = invoice_hash; txid = txid })

-- `createSettlementProof`; a network that is left out is `XEC_MAINNET`.
unfoldable pub create_settlement_proof : Text → Text → Option Text → Option SettlementProof
create_settlement_proof invoice_hash txid network = settlement_proof_schema (
    obj (
      field (codes "x402Version") (num (nonneg x402_version)) (
        field (codes "network") (str (elim network [ none ↦ xec_mainnet | some n ↦ n ]))
          (field (codes "invoiceHash") (str invoice_hash) (field (codes "txid") (str txid) end)))))

-- `createSettlementProofFromReceipt`
unfoldable pub create_settlement_proof_from_receipt :
    Text → Option Text → Text → Option SettlementProof
unfolding create_settlement_proof
create_settlement_proof_from_receipt txid network invoice_hash =
    create_settlement_proof invoice_hash txid network
