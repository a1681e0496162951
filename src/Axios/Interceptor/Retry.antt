-- ===== src/Axios/Interceptor/Retry.antt =====
-- The response interceptor of interceptor.ts around the requests of axios. Axios hands a request's
-- configuration back with its error, and runs the interceptor on the second request too.
use x402_xec.Common.{
  ok-injective, >>=-eq-ok, is_some, refl, inl, inr, ok, err, some, none, true, false, arith, sym,
  ap, not, Bool, Option, Result, Text, ℕ, reject, require, ◌==◌, text_eq, nat_eq, ◌≡◌, ◌≢◌, ◌⊎◌,
  ◌&&◌, ◌>>=◌, ◌>>◌, ltb, zero, suc, Result-cases, Bool-cases,
}
use x402_xec.Core.Json.{Number, Json}
use x402_xec.Core.Schemas.{Authorization, Invoice, parse_amount_sats}
use x402_xec.Core.Resource.{Platform}
use x402_xec.Axios.Interceptor.{
  OfferError, RequestConfig, PaymentMode, Browser, parse_and_validate_offer,
  create_payment_signature, invalid_invoice, amount_exceeds,
}

-- A response, or the status of an error's response, if there is one, with its data.
pub data Reply : Type 0 where
  answered : Json → Reply
  failed : Option ℕ → Json → Reply

pub data RequestOutcome : Type 0 where
  succeeds : Json → RequestOutcome
  rejects : Reply → RequestOutcome
  throws : OfferError → RequestOutcome
  out_of_fuel : RequestOutcome

-- An error of status 402 on a request that was not paid yet.
abbrev pub is_payable : Option ℕ → RequestConfig → Bool
is_payable none config = false
is_payable (some status) config =
    status == 402 && not config.payment_attempted && not (is_some config.payment_header)

pub record InterceptorOptions : Type 0 where
  pub platform : Platform
  pub browser : Browser
  pub encode : Invoice → Authorization → Text
  pub mode : PaymentMode
  pub max_payment_sats : ℕ

-- The configuration of the second request.
unfoldable pub paid_config :
    InterceptorOptions → Json → RequestConfig → Number → Result OfferError RequestConfig
paid_config options body config clock = do
  offer ← parse_and_validate_offer options.platform options.browser body config clock
  amount ← require (parse_amount_sats offer.invoice.amount_sats) invalid_invoice
  reject (ltb options.max_payment_sats amount) amount_exceeds
  signature ← create_payment_signature options.platform options.encode options.mode offer
  ok (record config { payment_attempted = true; payment_header = some signature })

-- `send` is the exchange of one request with the outside, and `clock` what its clock reads then.
module _ {S : Type 0} (options : InterceptorOptions) (send : RequestConfig → S → S × Reply)
    (clock : S → Number) where
  -- `client.request(config)`; the fuel is how many requests may be sent.
  unfoldable pub client_request : ℕ → RequestConfig → S → S × RequestOutcome
  client_request zero config s = (s, out_of_fuel)
  client_request (suc f) config s =
      let t = (send config s).0 in
      elim (send config s).1 [
        | answered body ↦ (t, succeeds body)
        | failed status body ↦ elim (is_payable status config) [
          | false ↦ (t, rejects (failed status body))
          | true ↦ elim (paid_config options body config (clock t)) [
            | err e ↦ (t, throws e)
            | ok paid ↦ client_request f paid t
          ]
        ]
      ]

  Reply-cases :
      (r : Reply)
      → ((body : Json) × (r ≡ answered body))
        ⊎ ((status : Option ℕ) × (body : Json) × (r ≡ failed status body))
  Reply-cases (answered body) = inl (body, refl)
  Reply-cases (failed status body) = inr (status, body, refl)

  -- The request that is paid is marked.
  paid_config-is_marked :
      (body : Json) (config : RequestConfig) (now : Number) {paid : RequestConfig}
      → paid_config options body config now ≡ ok paid
      → paid.payment_attempted ≡ true
  unfolding paid_config
  paid_config-is_marked body config now h =
      let (offer, h1, k1) =
        >>=-eq-ok (parse_and_validate_offer options.platform options.browser body config now) _ h in
      let (amount, h2, k2) =
        >>=-eq-ok (require (parse_amount_sats offer.invoice.amount_sats) invalid_invoice) _ k1 in
      let (u, h3, k3) =
        >>=-eq-ok (reject (ltb options.max_payment_sats amount) amount_exceeds) _ k2 in
      let (signature, h4, k4) =
        >>=-eq-ok (create_payment_signature options.platform options.encode options.mode offer) _
          k3 in
      ap (λ (c : RequestConfig). c.payment_attempted) (sym (ok-injective k4))

  marked_is_not_payable :
      (status : Option ℕ) (config : RequestConfig)
      → config.payment_attempted ≡ true
      → is_payable status config ≡ false
  marked_is_not_payable none config marked = refl
  marked_is_not_payable (some status) config marked = ground (arith, marked)

  -- A marked request is sent once.
  client_request_marked :
      (f : ℕ) (config : RequestConfig) (s : S)
      → config.payment_attempted ≡ true
      → (client_request (suc f) config s ≡ client_request 1 config s)
        × ((client_request 1 config s).1 ≢ out_of_fuel)
  unfolding client_request
  client_request_marked f config s marked = elim (Reply-cases (send config s).1) [
    | inl (body, e) ↦ (rw (client_request, e) refl, rw (client_request, e) (λ q. cc))
    | inr (status, body, e) ↦
        let once = marked_is_not_payable status config marked in
        (rw (client_request, e, once) refl, rw (client_request, e, once) (λ q. cc))
  ]

  -- With fuel for two requests or more a request ends, always with the state and the outcome that
  -- two requests allow: whatever the server answers, no third one is sent.
  pub client_request_terminates :
      (f : ℕ) (config : RequestConfig) (s : S)
      → (client_request (suc (suc f)) config s ≡ client_request 2 config s)
        × ((client_request 2 config s).1 ≢ out_of_fuel)
  unfolding client_request
  client_request_terminates f config s = elim (Reply-cases (send config s).1) [
    | inl (body, e) ↦ (rw (client_request, e) refl, rw (client_request, e) (λ q. cc))
    | inr (status, body, e) ↦ elim (Bool-cases (is_payable status config)) [
      | inr done ↦ (rw (client_request, e, done) refl, rw (client_request, e, done) (λ q. cc))
      | inl payable ↦
          elim (Result-cases (paid_config options body config (clock (send config s).0))) [
            | inr (x, bad) ↦ (
              rw (client_request, e, payable, bad) refl,
              rw (client_request, e, payable, bad) (λ q. cc),
            )
            | inl (paid, made) ↦
                let marked = paid_config-is_marked body config (clock (send config s).0) made in
                let (same, ends) = client_request_marked f paid (send config s).0 marked in
                (
                  rw (client_request, e, payable, made) same,
                  rw (client_request, e, payable, made) ends,
                )
          ]
    ]
  ]
