-- ===== src/Core/Invoice.antt =====
-- invoice.ts: an invoice as the JSON that is sent and hashed.
pub mod Laws
use x402_xec.Common.{ℕ, zero, suc, Option, none, Text, codes}
use x402_xec.Common.Decimal.{to_decimal}
use x402_xec.Common.Maybe.{◌>>=◌}
use x402_xec.Core.Json.{Number, nonneg, Json, num, str, obj, end, field}
use x402_xec.Core.Schemas.{Invoice, invoice_schema, x402_version, xec_mainnet, xec_scheme}
use x402_xec.Core.Resource.{Platform, ResourceRequest, canonical_hash, compute_resource_hash}

-- The object that an invoice is parsed from.
abbrev pub invoice_object : ℕ → Text → Text → Text → Text → Text → Text → Number → Number → Json
invoice_object version scheme network resource_hash amount pay_to nonce issued_at expires_at = obj (
    field (codes "x402Version") (num (nonneg version)) (
      field (codes "scheme") (str scheme) (
        field (codes "network") (str network) (
          field (codes "resourceHash") (str resource_hash) (
            field (codes "amountSats") (str amount) (
              field (codes "payTo") (str pay_to) (
                field (codes "nonce") (str nonce) (
                  field (codes "issuedAt") (num issued_at)
                    (field (codes "expiresAt") (num expires_at) end)))))))))

unfoldable pub invoice_json : Invoice → Json
invoice_json i =
    invoice_object i.version i.scheme i.network i.resource_hash i.amount_sats i.pay_to i.nonce
      (nonneg i.issued_at) (nonneg i.expires_at)

pub record CreateInvoiceInput : Type 0 where
  pub request : ResourceRequest
  pub amount_sats : ℕ
  pub pay_to : Text
  pub nonce : Text
  pub issued_at : Number
  pub expires_at : Number

module _ (p : Platform) where
  -- `none` where the source throws. An amount of type bigint is a natural number here, so the
  -- test `amountSats <= 0n` is that for zero.
  unfoldable pub create_invoice : CreateInvoiceInput → Option Invoice
  create_invoice input = elim input.amount_sats [
    | zero ↦ none
    | suc n ↦ (do
      resource_hash ← compute_resource_hash p input.request
      invoice_schema (
          invoice_object x402_version xec_scheme xec_mainnet resource_hash (to_decimal (suc n))
            input.pay_to input.nonce input.issued_at input.expires_at))
  ]

  unfoldable pub compute_invoice_hash : Invoice → Option Text
  compute_invoice_hash invoice = do
    parsed ← invoice_schema (invoice_json invoice)
    canonical_hash p (invoice_json parsed)
