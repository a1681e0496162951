-- ===== src/Core/Invoice/Laws.antt =====
-- What the invoice schema of schemas.ts lets through.
use x402_xec.Common.{
  ℕ, ◌<◌, ◌≡◌, ◌≤◌, Option, some, Text, true, arith, refl, ap, zero, suc, sym, ◌∙◌, ltb, text_beq,
  text_beq_iff, ◌↔◌,
}
use x402_xec.Common.Maybe.{◌>>=◌, ◌>>◌, check, >>=-eq-some}
use x402_xec.Common.Decimal.{to_decimal, of_decimal, of_decimal-to_decimal}
use x402_xec.Core.Json.{
  Number, nonneg, num, str, field?, only_keys, safe_nonnegative, max_safe_integer,
}
use x402_xec.Core.Schemas.{
  parse_amount_sats, version, literal, matching, timestamp, Invoice, invoice_schema, x402_version,
  xec_mainnet, xec_scheme, is_hash, is_amount, is_address, is_nonce,
}
use x402_xec.Core.Resource.{Platform, compute_resource_hash}
use x402_xec.Core.Invoice.{CreateInvoiceInput, create_invoice, invoice_object, invoice_json}

-- An invoice that meets every rule of the schema.
pub record IsIssuable (i : Invoice) : Type 0 where
  pub version : i.version ≡ x402_version
  pub scheme : i.scheme ≡ xec_scheme
  pub network : i.network ≡ xec_mainnet
  pub resource_hash : is_hash i.resource_hash ≡ true
  pub amount_sats : is_amount i.amount_sats ≡ true
  pub pay_to : is_address i.pay_to ≡ true
  pub nonce : is_nonce i.nonce ≡ true
  pub issued_safe : i.issued_at ≤ max_safe_integer
  pub expires_safe : i.expires_at ≤ max_safe_integer
  pub lasts : i.issued_at < i.expires_at

-- The schema's tests on the fields of an object that has exactly these.
assembled : ℕ → Text → Text → Text → Text → Text → Text → Number → Number → Option Invoice
assembled v scheme network resource_hash amount_sats pay_to nonce issued_at expires_at = do
  v ← version (some (num (nonneg v)))
  scheme ← literal xec_scheme (some (str scheme))
  network ← literal xec_mainnet (some (str network))
  resource_hash ← matching is_hash (some (str resource_hash))
  amount_sats ← matching is_amount (some (str amount_sats))
  pay_to ← matching is_address (some (str pay_to))
  nonce ← matching is_nonce (some (str nonce))
  issued_at ← timestamp (some (num issued_at))
  expires_at ← timestamp (some (num expires_at))
  check (ltb issued_at expires_at)
  some (record {
    version = v;
    scheme = scheme;
    network = network;
    resource_hash = resource_hash;
    amount_sats = amount_sats;
    pay_to = pay_to;
    nonce = nonce;
    issued_at = issued_at;
    expires_at = expires_at;
  })

module _ (v : ℕ) (scheme network resource_hash amount pay_to nonce : Text)
    (issued_at expires_at : Number) where
  assembled_lem :
      invoice_schema
        (invoice_object v scheme network resource_hash amount pay_to nonce issued_at expires_at)
      ≡ assembled v scheme network resource_hash amount pay_to nonce issued_at expires_at
  unfolding invoice_schema field? only_keys assembled text_beq
  assembled_lem = refl

  -- What is parsed is what was written, and it meets the rules.
  assembled-parts :
      {i : Invoice}
      → assembled v scheme network resource_hash amount pay_to nonce issued_at expires_at ≡ some i
      → (i.resource_hash ≡ resource_hash)
        × (i.amount_sats ≡ amount)
        × (i.pay_to ≡ pay_to)
        × (i.nonce ≡ nonce)
        × (nonneg i.issued_at ≡ issued_at)
        × (nonneg i.expires_at ≡ expires_at)
  unfolding assembled safe_nonnegative
  assembled-parts h = ground arith

  assembled-IsIssuable :
      {i : Invoice}
      → assembled v scheme network resource_hash amount pay_to nonce issued_at expires_at ≡ some i
      → IsIssuable i
  unfolding assembled safe_nonnegative
  assembled-IsIssuable h =
      ground (arith, text_beq_iff scheme xec_scheme, text_beq_iff network xec_mainnet)

  pub invoice_schema-parts :
      {i : Invoice}
      → invoice_schema
          (invoice_object v scheme network resource_hash amount pay_to nonce issued_at expires_at)
        ≡ some i
      → (i.resource_hash ≡ resource_hash)
        × (i.amount_sats ≡ amount)
        × (i.pay_to ≡ pay_to)
        × (i.nonce ≡ nonce)
        × (nonneg i.issued_at ≡ issued_at)
        × (nonneg i.expires_at ≡ expires_at)
  invoice_schema-parts h = assembled-parts (sym assembled_lem ∙ h)

  pub invoice_schema-IsIssuable :
      {i : Invoice}
      → invoice_schema
          (invoice_object v scheme network resource_hash amount pay_to nonce issued_at expires_at)
        ≡ some i
      → IsIssuable i
  invoice_schema-IsIssuable h = assembled-IsIssuable (sym assembled_lem ∙ h)

-- The invoice schema accepts the JSON of an invoice, and gives back that invoice, exactly when it
-- has the version, scheme and network of the protocol, a resource hash, amount, address and nonce
-- of the demanded form, safe timestamps, and expires after it is issued.
pub invoice_schema-invoice_json_iff :
    (i : Invoice) → (invoice_schema (invoice_json i) ≡ some i) ↔ IsIssuable i
unfolding invoice_json
invoice_schema-invoice_json_iff i = (
  invoice_schema-IsIssuable i.version i.scheme i.network i.resource_hash i.amount_sats i.pay_to
      i.nonce (nonneg i.issued_at) (nonneg i.expires_at),
  λ r.
      assembled_lem i.version i.scheme i.network i.resource_hash i.amount_sats i.pay_to i.nonce
        (nonneg i.issued_at) (nonneg i.expires_at)
      ∙ unfold assembled safe_nonnegative in
        ground (arith, text_beq_iff i.scheme xec_scheme, text_beq_iff i.network xec_mainnet),
)

-- What the schema reads from the JSON of an invoice is that invoice.
pub invoice_schema-invoice_json :
    (i : Invoice) {j : Invoice} → invoice_schema (invoice_json i) ≡ some j → j ≡ i
unfolding invoice_json assembled safe_nonnegative
invoice_schema-invoice_json i h =
    let read =
      sym (
        assembled_lem i.version i.scheme i.network i.resource_hash i.amount_sats i.pay_to i.nonce
          (nonneg i.issued_at) (nonneg i.expires_at))
      ∙ h in
    ground (arith, read, text_beq_iff i.scheme xec_scheme, text_beq_iff i.network xec_mainnet)

-- A printed amount that the schema accepts is read back.
pub parse_amount_sats-to_decimal :
    (a : Text) (n : ℕ) → a ≡ to_decimal n → is_amount a ≡ true → parse_amount_sats a ≡ some n
unfolding parse_amount_sats
parse_amount_sats-to_decimal a n e h = rw h (ap some (ap of_decimal e ∙ of_decimal-to_decimal n))

module _ (p : Platform) (input : CreateInvoiceInput) {i : Invoice}
    (created : create_invoice p input ≡ some i) where
  abbrev Faithful : Type 0
  Faithful =
      IsIssuable i
      × (parse_amount_sats i.amount_sats ≡ some input.amount_sats)
      × (i.pay_to ≡ input.pay_to)
      × (i.nonce ≡ input.nonce)
      × (compute_resource_hash p input.request ≡ some i.resource_hash)

  created_at : (n : ℕ) → input.amount_sats ≡ n → Faithful
  unfolding create_invoice
  created_at zero e = cc (rw (e, create_invoice) at created)
  created_at (suc n) e =
      let (hash, hashed, parsed) =
        >>=-eq-some (compute_resource_hash p input.request)
          (λ hash. invoice_schema (
            invoice_object x402_version xec_scheme xec_mainnet hash (to_decimal (suc n))
              input.pay_to input.nonce input.issued_at input.expires_at))
          (rw (e, create_invoice) at created) in
      let parts =
        invoice_schema-parts x402_version xec_scheme xec_mainnet hash (to_decimal (suc n))
          input.pay_to input.nonce input.issued_at input.expires_at parsed in
      let rules =
        invoice_schema-IsIssuable x402_version xec_scheme xec_mainnet hash (to_decimal (suc n))
          input.pay_to input.nonce input.issued_at input.expires_at parsed in
      (
        rules,
        parse_amount_sats-to_decimal i.amount_sats (suc n) parts.1 rules.amount_sats
            ∙ ap some (sym e),
        parts.2,
        parts.3,
        hashed ∙ ap some (sym parts.0),
      )

  -- An invoice that createInvoice returns meets the rules of the schema, its amount parses back to
  -- the amount given, its address and nonce are those given, and its resource hash is that of the
  -- request.
  pub create_invoice-IsIssuable :
      IsIssuable i
      × (parse_amount_sats i.amount_sats ≡ some input.amount_sats)
      × (i.pay_to ≡ input.pay_to)
      × (i.nonce ≡ input.nonce)
      × (compute_resource_hash p input.request ≡ some i.resource_hash)
  create_invoice-IsIssuable = created_at input.amount_sats refl
