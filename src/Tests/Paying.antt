-- ===== src/Tests/Paying.antt =====
-- Runs of the interceptor.
use x402_xec.Common.{refl, ok, some, none, true, false, Text, ℕ, codes, ◌≡◌, ◌≢◌, ◌≤◌}
use x402_xec.Common.{text_beq, starts_with, includes, suc}
use x402_xec.Common.Decimal.{is_positive_decimal, of_decimal, value_onto}
use x402_xec.Core.Json.{
  Json, num, str, arr, obj, nil, cons, end, field, nonneg, only_keys, field?, safe_nonnegative,
  Fields,
}
use x402_xec.Core.Schemas.{invoice_schema, is_address, parse_amount_sats, object}
use x402_xec.Core.Canonical.{canonicalize}
use x402_xec.Core.Resource.{
  validate_path, normalize_method, canonical_query, canonical_hash, compute_resource_hash,
  to_upper_case,
}
use x402_xec.Core.Invoice.{invoice_json, compute_invoice_hash}
use x402_xec.Axios.Interceptor.{
  RequestConfig, PaymentOffer, PaymentMode, parse_and_validate_offer, bind_offer, parse_resource,
  resource_fields, resource_query, validate_requested_resource, resolve_requested_url,
  check_accepts, any_accepted, is_accepted, create_payment_signature, read_payment_signature,
}
use x402_xec.Axios.Interceptor.Retry.{
  Reply, out_of_fuel, InterceptorOptions, paid_config, client_request, client_request_terminates,
}
use x402_xec.Axios.Interceptor.Offer.{IsOffer, paid_config-IsOffer}
use x402_xec.Tests.Fixtures.{invoice_q, flat_platform, hash_a, address_q}

abbrev method_xec : Json
method_xec = obj (
    field (codes "asset") (str (codes "XEC")) (
      field (codes "network") (str (codes "xec:mainnet")) (
        field (codes "scheme") (str (codes "xec-prepaid-utxo")) (
          field (codes "amountSats") (str (codes "1000")) (
            field (codes "payTo") (str address_q)
              (field (codes "paymentHeader") (str (codes "PAYMENT-SIGNATURE")) end))))))

abbrev body_402 : Json
body_402 = obj (
    field (codes "x402Version") (num (nonneg 1)) (
      field (codes "invoiceId") (str hash_a) (
        field (codes "invoice") (invoice_json invoice_q) (
          field (codes "accepts") (arr (cons method_xec nil)) (
            field (codes "resource")
              (obj (
                field (codes "serverOrigin") (str (codes "https://shop")) (
                  field (codes "method") (str (codes "get"))
                    (field (codes "path") (str (codes "/")) end))))
              end)))))

abbrev options : InterceptorOptions
options = record {
  platform = flat_platform;
  browser = record { resolve_url = λ url base. none; page_origin = none };
  encode = λ invoice authorization. codes "header";
  mode = PaymentMode.payment_preparer (λ offer. some (some (codes "signature")));
  max_payment_sats = 5000;
}

abbrev get_root : RequestConfig
get_root = record {
  url = some (codes "https://shop/");
  base_url = none;
  method = none;
  payment_attempted = false;
  payment_header = none;
}

abbrev paid_root : RequestConfig
paid_root = record get_root { payment_attempted = true; payment_header = some (codes "signature") }

pays : paid_config options body_402 get_root (nonneg 120) ≡ ok paid_root
unfolding paid_config parse_and_validate_offer bind_offer parse_resource resource_fields
    resource_query validate_requested_resource resolve_requested_url check_accepts any_accepted
    is_accepted create_payment_signature read_payment_signature invoice_json invoice_schema
    only_keys field? text_beq safe_nonnegative is_positive_decimal is_address compute_invoice_hash
    canonical_hash canonicalize compute_resource_hash normalize_method validate_path canonical_query
    starts_with includes to_upper_case parse_amount_sats of_decimal value_onto
pays = refl

paid_config-IsOffer_example :
    (o : PaymentOffer) × (n : ℕ) × (fs : Fields) × (now : ℕ) × (object (some body_402) ≡ some fs)
    × (safe_nonnegative (nonneg 120) ≡ some now)
    × IsOffer options.platform options.browser fs get_root now o
    × (parse_amount_sats o.invoice.amount_sats ≡ some n)
    × (n ≤ 5000)
    × ((signature : Text) × (create_payment_signature options.platform options.encode options.mode o
          ≡ ok signature)
        × (paid_root
            ≡ record get_root { payment_attempted = true; payment_header = some signature }))
paid_config-IsOffer_example = paid_config-IsOffer options body_402 get_root (nonneg 120) pays

-- A server that asks for payment for ever.
abbrev asking : RequestConfig → ℕ → ℕ × Reply
asking config n = (suc n, Reply.failed (some 402) body_402)

client_request_terminates_example :
    (client_request options asking (λ n. nonneg 120) 5 get_root 0
      ≡ client_request options asking (λ n. nonneg 120) 2 get_root 0)
    × ((client_request options asking (λ n. nonneg 120) 2 get_root 0).1 ≢ out_of_fuel)
client_request_terminates_example =
    client_request_terminates options asking (λ n. nonneg 120) 3 get_root 0
