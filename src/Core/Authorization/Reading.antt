-- ===== src/Core/Authorization/Reading.antt =====
-- What the schema of authorizations (schemas.ts) reads from the JSON of one.
use x402_xec.Common.{Option-cases, refl, inl, inr, some, arith, sym, Option, ◌≡◌, ◌∙◌, text_beq}
use x402_xec.Common.Maybe.{◌>>=◌}
use x402_xec.Core.Json.{nonneg, num, str, field?, only_keys, safe_nonnegative}
use x402_xec.Core.Schemas.{
  Authorization, UnsignedAuthorization, Transaction, authorization_schema, xec_mainnet, xec_scheme,
  is_hash, is_amount, is_address, is_nonce, is_signature, matching, literal, version, timestamp,
}
use x402_xec.Core.Authorization.{authorization_json}

-- The schema's tests on the fields of an authorization.
read_transaction : Transaction → Option Transaction
read_transaction t = do
  txid ← matching is_hash (some (str t.txid))
  vout ← timestamp (some (num (nonneg t.vout)))
  some (record { txid = txid; vout = vout })

read_unsigned : UnsignedAuthorization → Option UnsignedAuthorization
read_unsigned u = do
  v ← version (some (num (nonneg u.version)))
  scheme ← literal xec_scheme (some (str u.scheme))
  network ← literal xec_mainnet (some (str u.network))
  invoice_hash ← matching is_hash (some (str u.invoice_hash))
  resource_hash ← matching is_hash (some (str u.resource_hash))
  amount_sats ← matching is_amount (some (str u.amount_sats))
  pay_to ← matching is_address (some (str u.pay_to))
  nonce ← matching is_nonce (some (str u.nonce))
  payer ← matching is_address (some (str u.payer))
  transaction ← read_transaction u.transaction
  some (record {
    version = v;
    scheme = scheme;
    network = network;
    invoice_hash = invoice_hash;
    resource_hash = resource_hash;
    amount_sats = amount_sats;
    pay_to = pay_to;
    nonce = nonce;
    payer = payer;
    transaction = transaction;
  })

read_authorization : Authorization → Option Authorization
read_authorization a = do
  unsigned ← read_unsigned a.unsigned
  signature ← matching is_signature (some (str a.signature))
  some (record { unsigned = unsigned; signature = signature })

read_lem : (a : Authorization) → authorization_schema (authorization_json a) ≡ read_authorization a
unfolding authorization_schema authorization_json field? only_keys text_beq read_authorization
    read_unsigned read_transaction
read_lem a = refl

read_transaction_lem : (t : Transaction) {x : Transaction} → read_transaction t ≡ some x → x ≡ t
unfolding read_transaction safe_nonnegative
read_transaction_lem t h = ground arith

read_unsigned_lem :
    (u : UnsignedAuthorization) {x : UnsignedAuthorization} → read_unsigned u ≡ some x → x ≡ u
unfolding read_unsigned
read_unsigned_lem u h = elim (Option-cases (read_transaction u.transaction)) [
  | inl bad ↦ ground (arith, bad)
  | inr (t, read) ↦ ground (arith, read, read_transaction_lem u.transaction read)
]

-- The authorization that is read is the one that was written.
pub authorization_schema-authorization_json :
    (a : Authorization) {b : Authorization}
    → authorization_schema (authorization_json a) ≡ some b
    → b ≡ a
unfolding read_authorization
authorization_schema-authorization_json a h =
    let read = sym (read_lem a) ∙ h in
    elim (Option-cases (read_unsigned a.unsigned)) [
      | inl bad ↦ ground (arith, read, bad)
      | inr (u, is) ↦ ground (arith, read, is, read_unsigned_lem a.unsigned is)
    ]
