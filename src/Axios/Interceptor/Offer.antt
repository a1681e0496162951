-- ===== src/Axios/Interceptor/Offer.antt =====
-- What the interceptor of interceptor.ts pays for.
use x402_xec.Axios.Interceptor.Resource.{IsResource, parse_resource-IsResource}
use x402_xec.Axios.Interceptor.{
  to_upper_case, amount_exceeds, xec_scheme, compute_resource_hash, create_payment_signature,
  invalid_methods, Url, ResourceRequest, parse_amount_sats, compute_invoice_hash, xec_mainnet,
  Platform, Invoice, object, RequestConfig, PaymentOffer, Browser, parse_and_validate_offer,
  bind_offer, parse_resource, validate_requested_resource, resolve_requested_url, check_accepts,
  any_accepted, is_text, is_version, parsed_invoice, or_text, clock_error, invalid_response,
  unsupported_version, invalid_invoice, unsupported_network, unsupported_scheme, not_yet_valid,
  expired, invalid_invoice_id, invalid_resource, resource_mismatch,
}
use x402_xec.Common.{
  not-false, text_beq_iff, eq-of-not_other, err_not_ok, refl, ok, some, none, true, arith, sym,
  subst, ap, not, Option, Text, ℕ, codes, reject, require, ◌==◌, text_eq, nat_eq, ◌≡◌, ◌∙◌, ◌≤◌,
  ◌<◌, ltb, leb, >>=-eq-ok, require-ok, reject-ok, ok-injective,
}
use x402_xec.Axios.Interceptor.Retry.{paid_config, InterceptorOptions}
use x402_xec.Core.Json.{Json, Number, arr, Fields, Items, field?, safe_nonnegative}

-- The offer is the server's, is valid now, and is about what was requested.
pub record IsOffer (p : Platform) (browser : Browser) (fs : Fields) (config : RequestConfig)
    (now : ℕ) (o : PaymentOffer) : Type 0 where
  pub invoice : parsed_invoice (field? (codes "invoice") fs) ≡ some o.invoice
  pub begun : o.invoice.issued_at ≤ now
  pub in_time : now < o.invoice.expires_at
  pub id :
      (hash : Text) × (compute_invoice_hash p o.invoice ≡ some hash)
      × (is_text (field? (codes "invoiceId") fs) hash ≡ true)
  pub named : IsResource (field? (codes "resource") fs) o.resource
  pub resource : compute_resource_hash p o.resource ≡ some o.invoice.resource_hash
  pub requested :
      (url : Url) × (resolve_requested_url p browser config ≡ ok url)
      × (url.origin ≡ o.resource.server_origin)
      × (url.pathname ≡ o.resource.path)
      × (to_upper_case (or_text config.method (codes "get")) ≡ to_upper_case o.resource.method)
  pub accepted :
      (items : Items) × (field? (codes "accepts") fs ≡ some (arr items))
      × (any_accepted o.invoice items ≡ true)

check_accepts_lem :
    (field : Option Json) (i : Invoice) {u : Unit {0}}
    → check_accepts field i ≡ ok u
    → (items : Items) × (field ≡ some (arr items)) × (any_accepted i items ≡ true)
unfolding check_accepts
check_accepts_lem (some (arr items)) i h =
    (items, refl, not-false (any_accepted i items) (reject-ok _ _ h))
check_accepts_lem none i h = elim (err_not_ok {e = invalid_methods} refl h) [ ]
check_accepts_lem (some Json.null) i h = elim (err_not_ok {e = invalid_methods} refl h) [ ]
check_accepts_lem (some (Json.bool b)) i h = elim (err_not_ok {e = invalid_methods} refl h) [ ]
check_accepts_lem (some (Json.num n)) i h = elim (err_not_ok {e = invalid_methods} refl h) [ ]
check_accepts_lem (some (Json.str s)) i h = elim (err_not_ok {e = invalid_methods} refl h) [ ]
check_accepts_lem (some (Json.obj fs)) i h = elim (err_not_ok {e = invalid_methods} refl h) [ ]

module _ (p : Platform) (browser : Browser) where
  requested_lem :
      (r : ResourceRequest) (config : RequestConfig) {u : Unit {0}}
      → validate_requested_resource p browser r config ≡ ok u
      → (url : Url) × (resolve_requested_url p browser config ≡ ok url)
        × (url.origin ≡ r.server_origin)
        × (url.pathname ≡ r.path)
        × (to_upper_case (or_text config.method (codes "get")) ≡ to_upper_case r.method)
  unfolding validate_requested_resource
  requested_lem r config h =
      let (url, h1, k1) = >>=-eq-ok (resolve_requested_url p browser config) _ h in
      let same = reject-ok _ _ k1 in
      let asked : Text = to_upper_case (or_text config.method (codes "get")) in
      (
        url,
        h1,
        ground (arith, same, text_beq_iff url.origin r.server_origin),
        ground (arith, same, text_beq_iff url.pathname r.path),
        ground (arith, same, text_beq_iff asked (to_upper_case r.method)),
      )

  bind_offer-IsOffer :
      (fs : Fields) (config : RequestConfig) (now : ℕ) (i : Invoice) {o : PaymentOffer}
      → parsed_invoice (field? (codes "invoice") fs) ≡ some i
      → i.issued_at ≤ now
      → now < i.expires_at
      → bind_offer p browser fs config i ≡ ok o
      → IsOffer p browser fs config now o
  unfolding bind_offer
  bind_offer-IsOffer fs config now i parsed begun in_time h =
      let (hash, h1, k1) = >>=-eq-ok (require (compute_invoice_hash p i) invalid_invoice) _ h in
      let (u2, h2, k2) =
        >>=-eq-ok (reject (not (is_text (field? (codes "invoiceId") fs) hash)) invalid_invoice_id) _
          k1 in
      let (resource, h3, k3) = >>=-eq-ok (parse_resource (field? (codes "resource") fs)) _ k2 in
      let (rh, h4, k4) =
        >>=-eq-ok (require (compute_resource_hash p resource) invalid_resource) _ k3 in
      let (u5, h5, k5) = >>=-eq-ok (reject (not (rh == i.resource_hash)) resource_mismatch) _ k4 in
      let (u6, h6, k6) = >>=-eq-ok (validate_requested_resource p browser resource config) _ k5 in
      let (u7, h7, k7) = >>=-eq-ok (check_accepts (field? (codes "accepts") fs) i) _ k6 in
      subst (IsOffer p browser fs config now) (ok-injective k7) (record {
        invoice = parsed;
        begun = begun;
        in_time = in_time;
        id = (
          hash,
          require-ok _ _ h1,
          not-false (is_text (field? (codes "invoiceId") fs) hash) (reject-ok _ _ h2),
        );
        named = parse_resource-IsResource (field? (codes "resource") fs) h3;
        resource =
            require-ok _ _ h4 ∙ ap some (eq-of-not_other rh i.resource_hash (reject-ok _ _ h5));
        requested = requested_lem resource config h6;
        accepted = check_accepts_lem (field? (codes "accepts") fs) i h7;
      })

  parse_and_validate_offer-IsOffer :
      (input : Json) (config : RequestConfig) (clock : Number) {o : PaymentOffer}
      → parse_and_validate_offer p browser input config clock ≡ ok o
      → (fs : Fields) × (now : ℕ) × (object (some input) ≡ some fs)
        × (safe_nonnegative clock ≡ some now)
        × IsOffer p browser fs config now o
  unfolding parse_and_validate_offer
  parse_and_validate_offer-IsOffer input config clock h =
      let (now, h1, k1) = >>=-eq-ok (require (safe_nonnegative clock) clock_error) _ h in
      let (fs, h2, k2) = >>=-eq-ok (require (object (some input)) invalid_response) _ k1 in
      let (u3, h3, k3) =
        >>=-eq-ok (reject (not (is_version (field? (codes "x402Version") fs))) unsupported_version)
          _ k2 in
      let (i, h4, k4) =
        >>=-eq-ok (require (parsed_invoice (field? (codes "invoice") fs)) invalid_invoice) _ k3 in
      let (u5, h5, k5) =
        >>=-eq-ok (reject (not (i.network == xec_mainnet)) unsupported_network) _ k4 in
      let (u6, h6, k6) =
        >>=-eq-ok (reject (not (i.scheme == xec_scheme)) unsupported_scheme) _ k5 in
      let (u7, h7, k7) = >>=-eq-ok (reject (ltb now i.issued_at) not_yet_valid) _ k6 in
      let (u8, h8, k8) = >>=-eq-ok (reject (leb i.expires_at now) expired) _ k7 in
      (
        fs,
        now,
        require-ok _ _ h2,
        require-ok _ _ h1,
        bind_offer-IsOffer fs config now i (require-ok _ _ h4) (ground (arith, reject-ok _ _ h7))
            (ground (arith, reject-ok _ _ h8)) k8,
      )

-- When the interceptor pays for an error of status 402, the answer is an object whose invoice met
-- its schema, is in its window at the clock, has its hash as invoiceId, and has the resource hash
-- of the resource that the answer names by its texts, query and body; origin, path and method of
-- the resource are those of the request; a listed payment method agrees with the invoice; the
-- amount is within the maximum; and the second request is the first with the marker and the payment
-- signature for that offer.
pub paid_config-IsOffer :
    (options : InterceptorOptions) (body : Json) (config : RequestConfig) (clock : Number)
    {paid : RequestConfig}
    → paid_config options body config clock ≡ ok paid
    → (o : PaymentOffer) × (n : ℕ) × (fs : Fields) × (now : ℕ) × (object (some body) ≡ some fs)
      × (safe_nonnegative clock ≡ some now)
      × IsOffer options.platform options.browser fs config now o
      × (parse_amount_sats o.invoice.amount_sats ≡ some n)
      × (n ≤ options.max_payment_sats)
      × ((signature : Text) × (create_payment_signature options.platform options.encode options.mode
              o
            ≡ ok signature)
          × (paid ≡ record config { payment_attempted = true; payment_header = some signature }))
unfolding paid_config
paid_config-IsOffer options body config clock h =
    let (offer, h1, k1) =
      >>=-eq-ok (parse_and_validate_offer options.platform options.browser body config clock) _ h in
    let (amount, h2, k2) =
      >>=-eq-ok (require (parse_amount_sats offer.invoice.amount_sats) invalid_invoice) _ k1 in
    let (u, h3, k3) =
      >>=-eq-ok (reject (ltb options.max_payment_sats amount) amount_exceeds) _ k2 in
    let (signature, h4, k4) =
      >>=-eq-ok (create_payment_signature options.platform options.encode options.mode offer) _
        k3 in
    let (fs, now, is, read, valid) =
      parse_and_validate_offer-IsOffer options.platform options.browser body config clock h1 in
    (
      offer,
      amount,
      fs,
      now,
      is,
      read,
      valid,
      require-ok _ _ h2,
      ground (arith, reject-ok _ _ h3),
      (signature, h4, sym (ok-injective k4)),
    )
