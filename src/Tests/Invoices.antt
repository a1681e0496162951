-- ===== src/Tests/Invoices.antt =====
-- Runs of the invoices' schema and of the nonce store.
use x402_xec.Common.Dict.{retain, get}
use x402_xec.Core.Json.{safe_nonnegative, field?, only_keys, nonneg}
use x402_xec.Core.Schemas.{is_address, parse_amount_sats, Invoice, invoice_schema}
use x402_xec.Common.Decimal.{to_decimal, is_positive_decimal}
use x402_xec.Common.{
  text_beq, includes, starts_with, refl, arith, ◌↔◌, some, false, true, none, [], ◌≡◌, codes,
}
use x402_xec.Core.Resource.{
  validate_path, normalize_method, canonical_query, ResourceRequest, compute_resource_hash,
}
use x402_xec.Core.Canonical.{canonicalize}
use x402_xec.Core.Invoice.Laws.{
  create_invoice-IsIssuable, invoice_schema-invoice_json_iff, IsIssuable,
}
use x402_xec.Core.NonceStore.Laws.{none_yet, then_consume, consumed_once}
use x402_xec.Tests.Fixtures.{hash_a, repeat, flat_platform, address_q}
use x402_xec.Core.Invoice.{invoice_json, CreateInvoiceInput, create_invoice}
use x402_xec.Core.NonceStore.{consume, Nonces}

abbrev invoice : Invoice
invoice = record {
  version = 1;
  scheme = codes "exact";
  network = codes "xec:mainnet";
  resource_hash = hash_a;
  amount_sats = codes "1000";
  pay_to = address_q;
  nonce = repeat 22 b'n';
  issued_at = 100;
  expires_at = 160;
}

invoice_schema-invoice_json_iff_example :
    (invoice_schema (invoice_json invoice) ≡ some invoice) ↔ IsIssuable invoice
invoice_schema-invoice_json_iff_example = invoice_schema-invoice_json_iff invoice

abbrev get_root : ResourceRequest
get_root = record {
  server_origin = codes "https://shop";
  method = codes "get";
  path = codes "/";
  query = none;
  body = none;
}

abbrev input : CreateInvoiceInput
input = record {
  request = get_root;
  amount_sats = 1000;
  pay_to = address_q;
  nonce = repeat 22 b'n';
  issued_at = nonneg 100;
  expires_at = nonneg 160;
}

created : create_invoice flat_platform input ≡ some invoice
unfolding create_invoice compute_resource_hash canonicalize canonical_query normalize_method
    validate_path starts_with includes text_beq invoice_schema only_keys field? is_positive_decimal
    to_decimal is_address safe_nonnegative
created = refl

create_invoice-IsIssuable_example :
    IsIssuable invoice
    × (parse_amount_sats invoice.amount_sats ≡ some 1000)
    × (invoice.pay_to ≡ address_q)
    × (invoice.nonce ≡ repeat 22 b'n')
    × (compute_resource_hash flat_platform get_root ≡ some invoice.resource_hash)
create_invoice-IsIssuable_example = create_invoice-IsIssuable flat_platform input created

abbrev one_nonce : Nonces
one_nonce = (consume (codes "n") 160 100 []).0

accepted_once : (consume (codes "n") 160 100 []).1 ≡ true
unfolding consume get retain
accepted_once = refl

abbrev between : Nonces
between = (consume (codes "m") 110 120 one_nonce).0

consumed_once_example : (consume (codes "n") 500 150 between).1 ≡ false
consumed_once_example =
    consumed_once (codes "n") 160 100 [] accepted_once
      (then_consume (codes "m") 110 120 (omega arith) none_yet) 500 150 (omega arith)
