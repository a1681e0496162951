-- ===== src/Core/ApprovalContext/Schema.antt =====
-- The schema of approval-context.ts.
use x402_xec.Common.{refl}
use x402_xec.Common.{
  ◌∙◌, sym, arith, ◌≡◌, text_beq, ℕ, Option, some, List, [], ◌∷◌, Text, codes, ltb,
}
use x402_xec.Core.Json.{
  safe_nonnegative, Json, nonneg, num, str, obj, end, field, field?, only_keys,
}
use x402_xec.Common.Maybe.{◌>>=◌, ◌>>◌, check}
use x402_xec.Core.Schemas.{
  Invoice, xec_mainnet, xec_scheme, is_hash, is_amount, is_address, is_nonce, matching, literal,
  version, timestamp, object,
}

pub record ApprovalContext : Type 0 where
  pub version : ℕ
  pub scheme : Text
  pub network : Text
  pub invoice_hash : Text
  pub resource_hash : Text
  pub amount_sats : Text
  pub pay_to : Text
  pub nonce : Text
  pub issued_at : ℕ
  pub expires_at : ℕ

abbrev context_keys : List Text
context_keys =
    codes "x402Version"
    ∷ codes "scheme"
    ∷ codes "network"
    ∷ codes "invoiceHash"
    ∷ codes "resourceHash"
    ∷ codes "amountSats"
    ∷ codes "payTo"
    ∷ codes "nonce"
    ∷ codes "issuedAt"
    ∷ codes "expiresAt"
    ∷ []

-- `x402ApprovalContextSchema.parse(value)`
unfoldable pub approval_context_schema : Json → Option ApprovalContext
approval_context_schema value = do
  fs ← object (some value)
  check (only_keys context_keys fs)
  v ← version (field? (codes "x402Version") fs)
  scheme ← literal xec_scheme (field? (codes "scheme") fs)
  network ← literal xec_mainnet (field? (codes "network") fs)
  invoice_hash ← matching is_hash (field? (codes "invoiceHash") fs)
  resource_hash ← matching is_hash (field? (codes "resourceHash") fs)
  amount_sats ← matching is_amount (field? (codes "amountSats") fs)
  pay_to ← matching is_address (field? (codes "payTo") fs)
  nonce ← matching is_nonce (field? (codes "nonce") fs)
  issued_at ← timestamp (field? (codes "issuedAt") fs)
  expires_at ← timestamp (field? (codes "expiresAt") fs)
  check (ltb issued_at expires_at)
  some (record {
    version = v;
    scheme = scheme;
    network = network;
    invoice_hash = invoice_hash;
    resource_hash = resource_hash;
    amount_sats = amount_sats;
    pay_to = pay_to;
    nonce = nonce;
    issued_at = issued_at;
    expires_at = expires_at;
  })

-- The object that createX402ApprovalContext has it parse.
abbrev pub context_object : Invoice → Text → Text → Json
context_object i invoice_hash resource_hash = obj (
    field (codes "x402Version") (num (nonneg i.version)) (
      field (codes "scheme") (str i.scheme) (
        field (codes "network") (str i.network) (
          field (codes "invoiceHash") (str invoice_hash) (
            field (codes "resourceHash") (str resource_hash) (
              field (codes "amountSats") (str i.amount_sats) (
                field (codes "payTo") (str i.pay_to) (
                  field (codes "nonce") (str i.nonce) (
                    field (codes "issuedAt") (num (nonneg i.issued_at))
                      (field (codes "expiresAt") (num (nonneg i.expires_at)) end))))))))))

-- The context of an invoice under its two hashes.
abbrev pub context_of : Invoice → Text → Text → ApprovalContext
context_of i invoice_hash resource_hash = record {
  version = i.version;
  scheme = i.scheme;
  network = i.network;
  invoice_hash = invoice_hash;
  resource_hash = resource_hash;
  amount_sats = i.amount_sats;
  pay_to = i.pay_to;
  nonce = i.nonce;
  issued_at = i.issued_at;
  expires_at = i.expires_at;
}

-- The schema's tests on the fields of that object.
assembled : Invoice → Text → Text → Option ApprovalContext
assembled i invoice_hash resource_hash = do
  v ← version (some (num (nonneg i.version)))
  scheme ← literal xec_scheme (some (str i.scheme))
  network ← literal xec_mainnet (some (str i.network))
  invoice_hash ← matching is_hash (some (str invoice_hash))
  resource_hash ← matching is_hash (some (str resource_hash))
  amount_sats ← matching is_amount (some (str i.amount_sats))
  pay_to ← matching is_address (some (str i.pay_to))
  nonce ← matching is_nonce (some (str i.nonce))
  issued_at ← timestamp (some (num (nonneg i.issued_at)))
  expires_at ← timestamp (some (num (nonneg i.expires_at)))
  check (ltb issued_at expires_at)
  some (record {
    version = v;
    scheme = scheme;
    network = network;
    invoice_hash = invoice_hash;
    resource_hash = resource_hash;
    amount_sats = amount_sats;
    pay_to = pay_to;
    nonce = nonce;
    issued_at = issued_at;
    expires_at = expires_at;
  })

module _ (i : Invoice) (invoice_hash resource_hash : Text) where
  assembled_context :
      approval_context_schema (context_object i invoice_hash resource_hash)
      ≡ assembled i invoice_hash resource_hash
  unfolding approval_context_schema field? only_keys assembled text_beq
  assembled_context = refl

  assembled_is :
      {c : ApprovalContext}
      → assembled i invoice_hash resource_hash ≡ some c
      → c ≡ context_of i invoice_hash resource_hash
  unfolding assembled safe_nonnegative
  assembled_is h = ground arith

  -- What is parsed is what was written.
  pub approval_context_schema-context_object :
      {c : ApprovalContext}
      → approval_context_schema (context_object i invoice_hash resource_hash) ≡ some c
      → c ≡ context_of i invoice_hash resource_hash
  approval_context_schema-context_object h = assembled_is (sym assembled_context ∙ h)
