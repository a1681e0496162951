-- ===== src/Transactions/Funding.antt =====
-- What the funding transaction (packages/x402-xec-transactions/src/index.ts) pays.
use x402_xec.Transactions.{
  is_hex_bytes, thrown, safe_nonnegative, or_default, type_error, invalid_invoice, to_decimal,
  EcashLib, Draft, Tx, Signing, signed, BuildRequest, BuildResult, ValidatedUtxo, FundingUtxo,
  build_funding_tx, read_request, select_inputs, sign_with, describe, address_script, validate_utxo,
  validate_utxos, parse_positive_amount, sum_inputs, sum_outputs, sources, difference,
}
use x402_xec.Common.{
  ◌-◌, err_not_ok, refl, inl, inr, arith, sym, subst, ap, not, reject, require, ◌∙◌, suc, All, ok,
  some, true, false, List, ℕ, ◌∷◌, [], ◌≡◌, ◌⊎◌, ◌≤◌, ◌<◌, ◌+◌, >>=-eq-ok, require-ok, reject-ok,
  ok-injective, take, get_elem?,
}
use x402_xec.Transactions.Selection.{Signing-cases, IsEnough, IsTooFew, select_inputs-shortest}
use x402_xec.Core.Schemas.{is_hash, Invoice, invoice_schema, parse_amount_sats}

-- What ecash-lib documents of a transaction that its builder signs: the given output is the first,
-- at most one for the change follows, and the inputs pay for the outputs.
pub record SignsDraft (lib : EcashLib) : Type 0 where
  pub pays_first :
      (d : Draft) {tx : Tx}
      → lib.sign false d ≡ signed tx
      → (tx.outputs ≡ d.payment ∷ [])
        ⊎ ((sats : ℕ) × (tx.outputs
              ≡ d.payment ∷ (record { sats = sats; script = d.change_script }) ∷ []))
  pub covers :
      (d : Draft) {tx : Tx}
      → lib.sign false d ≡ signed tx
      → sum_outputs tx.outputs ≤ sum_inputs d.inputs

validate_utxo_lem :
    (u : FundingUtxo) {v : ValidatedUtxo}
    → validate_utxo u ≡ ok v
    → (v.source ≡ u) × (u.has_token ≡ false)
unfolding validate_utxo
validate_utxo_lem u h =
    let (u1, h1, k1) = >>=-eq-ok (reject (not (is_hash u.txid)) type_error) _ h in
    let (i, h2, k2) = >>=-eq-ok (require (safe_nonnegative u.out_idx) type_error) _ k1 in
    let (u3, h3, k3) = >>=-eq-ok (reject u.has_token type_error) _ k2 in
    let (u4, h4, k4) = >>=-eq-ok (reject (not (is_hex_bytes u.output_script)) type_error) _ k3 in
    let (n, h5, k5) = >>=-eq-ok (parse_positive_amount u.sats) _ k4 in
    (ap (λ (x : ValidatedUtxo). x.source) (sym (ok-injective k5)), reject-ok _ _ h3)

-- The candidates are the caller's, and none has a token.
validate_utxos_lem :
    (us : List FundingUtxo) {vs : List ValidatedUtxo}
    → validate_utxos us ≡ ok vs
    → (sources vs ≡ us) × All (λ (u : FundingUtxo). u.has_token ≡ false) us
unfolding validate_utxos
validate_utxos_lem [] h = (ap sources (sym (ok-injective h)), tt)
validate_utxos_lem (u ∷ us) h =
    let (v, h1, k1) = >>=-eq-ok (validate_utxo u) _ h in
    let (vs, h2, k2) = >>=-eq-ok (validate_utxos us) _ k1 in
    let (same, clean) = validate_utxos_lem us h2 in
    let (source, no_token) = validate_utxo_lem u h1 in
    (
      ap sources (sym (ok-injective k2))
          ∙ ap (λ (x : FundingUtxo). x ∷ sources vs) source
          ∙ ap (λ (xs : List FundingUtxo). u ∷ xs) same,
      (no_token, clean),
    )

-- The draft pays the invoice of the request, and the candidates are the caller's, with no token.
pub record IsRead (lib : EcashLib) (request : BuildRequest) (read : Draft × List ValidatedUtxo)
    : Type 0 where
  pub invoice : Invoice
  pub parsed : invoice_schema request.invoice ≡ some invoice
  pub amount : parse_amount_sats invoice.amount_sats ≡ some read.0.payment.sats
  pub script : address_script lib invoice.pay_to ≡ ok read.0.payment.script
  pub change_script : address_script lib request.change_address ≡ ok read.0.change_script
  pub fee_per_kb : parse_positive_amount (or_default request.fee_per_kb 1000) ≡ ok read.0.fee_per_kb
  pub dust_sats : parse_positive_amount (or_default request.dust_sats 546) ≡ ok read.0.dust_sats
  pub offered : sources read.1 ≡ request.utxos
  pub no_token : All (λ (u : FundingUtxo). u.has_token ≡ false) request.utxos

-- What is reported of a signed transaction: it is the one that is to be broadcast, its output 0 is
-- the payment, and the inputs are payment, change and fee.
pub record IsPaid (d : Draft) (tx : Tx) (r : BuildResult) : Type 0 where
  pub change : ℕ
  pub fee : ℕ
  pub raw_tx : r.raw_tx ≡ tx.hex
  pub txid : r.txid ≡ tx.txid
  pub outpoint : r.funding_outpoint ≡ record { txid = tx.txid; out_idx = 0 }
  pub payment : get_elem? tx.outputs 0 ≡ some d.payment
  pub selected : r.selected_inputs ≡ sources d.inputs
  pub amount : r.funding_amount_sats ≡ to_decimal d.payment.sats
  pub script : r.funding_script ≡ d.payment.script
  pub outputs : sum_outputs tx.outputs ≡ d.payment.sats + change
  pub change_sats : r.change_sats ≡ to_decimal change
  pub fee_sats : r.fee_sats ≡ to_decimal fee
  pub conserved : sum_inputs d.inputs ≡ d.payment.sats + change + fee

difference_lem : (a b : ℕ) → b ≤ a → difference a b ≡ to_decimal (a - b)
difference_lem a b h = ground arith

sign_with_lem :
    (sign : Draft → Signing) (d : Draft) {tx : Tx} → sign_with sign d ≡ ok tx → sign d ≡ signed tx
unfolding sign_with
sign_with_lem sign d h = elim (Signing-cases (sign d)) [
  | inl (tx, is) ↦ is ∙ ap signed (ok-injective (rw (sign_with, is) at h))
  | inr (m, threw) ↦ elim (err_not_ok {e = thrown m} (rw (sign_with, threw) refl) h) [ ]
]

-- The trial of the draft with some inputs, by the dummy curve.
abbrev pub trial : EcashLib → Draft → List ValidatedUtxo → Signing
trial lib d inputs = lib.sign true (record d { inputs = inputs })

module _ (lib : EcashLib) (law : SignsDraft lib) where
  describe-IsPaid :
      (d : Draft) (tx : Tx) {r : BuildResult}
      → lib.sign false d ≡ signed tx
      → describe tx d.inputs ≡ ok r
      → IsPaid d tx r
  unfolding describe sum_outputs
  describe-IsPaid d tx signs h =
      let covers = law.covers d signs in
      elim (law.pays_first d signs) [
        | inl one ↦ subst (IsPaid d tx) (ok-injective (rw (describe, one) at h)) (record {
          change = 0;
          fee = sum_inputs d.inputs - (d.payment.sats + 0);
          selected = refl;
          amount = refl;
          script = refl;
          raw_tx = refl;
          txid = refl;
          outpoint = refl;
          payment = rw (one) refl;
          outputs = rw (one, sum_outputs) (omega arith);
          change_sats = rw (one) refl;
          fee_sats =
              rw (one, sum_outputs)
                (difference_lem (sum_inputs d.inputs) (d.payment.sats + 0)
                  (rw (one, sum_outputs) at covers));
          conserved = ground (arith, rw (one, sum_outputs) at covers);
        })
        | inr (sats, two) ↦ subst (IsPaid d tx) (ok-injective (rw (describe, two) at h)) (record {
          change = sats;
          fee = sum_inputs d.inputs - (d.payment.sats + (sats + 0));
          selected = refl;
          amount = refl;
          script = refl;
          raw_tx = refl;
          txid = refl;
          outpoint = refl;
          payment = rw (two) refl;
          outputs = rw (two, sum_outputs) (omega arith);
          change_sats = rw (two) refl;
          fee_sats =
              rw (two, sum_outputs)
                (difference_lem (sum_inputs d.inputs) (d.payment.sats + (sats + 0))
                  (rw (two, sum_outputs) at covers));
          conserved = ground (arith, rw (two, sum_outputs) at covers);
        })
      ]

  read_request-IsRead :
      (request : BuildRequest) {read : Draft × List ValidatedUtxo}
      → read_request lib request ≡ ok read
      → IsRead lib request read
  unfolding read_request
  read_request-IsRead request h =
      let (i, h1, k1) = >>=-eq-ok (require (invoice_schema request.invoice) invalid_invoice) _ h in
      let (amount, h2, k2) =
        >>=-eq-ok (require (parse_amount_sats i.amount_sats) type_error) _ k1 in
      let (fee, h3, k3) =
        >>=-eq-ok (parse_positive_amount (or_default request.fee_per_kb 1000)) _ k2 in
      let (dust, h4, k4) =
        >>=-eq-ok (parse_positive_amount (or_default request.dust_sats 546)) _ k3 in
      let (script, h5, k5) = >>=-eq-ok (address_script lib i.pay_to) _ k4 in
      let (change_script, h6, k6) = >>=-eq-ok (address_script lib request.change_address) _ k5 in
      let (vs, h7, k7) = >>=-eq-ok (validate_utxos request.utxos) _ k6 in
      let (same, clean) = validate_utxos_lem request.utxos h7 in
      subst (IsRead lib request) (ok-injective k7) (record {
        invoice = i;
        parsed = require-ok _ _ h1;
        amount = require-ok _ _ h2;
        script = h5;
        change_script = h6;
        fee_per_kb = h3;
        dust_sats = h4;
        offered = same;
        no_token = clean;
      })

  -- If the library signs a draft to a transaction whose first output is the payment, with at most
  -- one output for the change behind it, and whose inputs pay for its outputs, then what
  -- buildFundingTx returns spends the shortest of the first UTXOs that the trial accepts, each
  -- shorter one being too few; none of the UTXOs offered has a token; the raw transaction, the txid
  -- and the outpoint are those of the transaction that is signed for these inputs; its output 0,
  -- which the outpoint names, pays the amount of the invoice to the script of its address; and the
  -- inputs are the payment, the change and the fee that it reports.
  pub build_funding_tx-IsPaid :
      (request : BuildRequest) {r : BuildResult}
      → build_funding_tx lib request ≡ ok r
      → (read : Draft × List ValidatedUtxo) × (n : ℕ) × (tx : Tx) × IsRead lib request read
        × IsEnough (trial lib read.0) (take (suc n) read.1)
        × ((k : ℕ) → k < n → IsTooFew (trial lib read.0) (take (suc k) read.1))
        × (lib.sign false (record read.0 { inputs = take (suc n) read.1 }) ≡ signed tx)
        × IsPaid (record read.0 { inputs = take (suc n) read.1 }) tx r
  unfolding build_funding_tx
  build_funding_tx-IsPaid request {r} h =
      let (read, h1, k1) = >>=-eq-ok (read_request lib request) _ h in
      let (selected, h2, k2) = >>=-eq-ok (select_inputs (trial lib read.0) [] read.1) _ k1 in
      let (tx, h3, k3) =
        >>=-eq-ok (sign_with (lib.sign false) (record read.0 { inputs = selected })) _ k2 in
      let (n, s_is, is_enough, shorter) = select_inputs-shortest (trial lib read.0) [] read.1 h2 in
      let signs = sign_with_lem (lib.sign false) (record read.0 { inputs = selected }) h3 in
      let paid = describe-IsPaid (record read.0 { inputs = selected }) tx signs k3 in
      (
        read,
        n,
        tx,
        read_request-IsRead request h1,
        subst (IsEnough (trial lib read.0)) s_is is_enough,
        shorter,
        subst
            (λ (xs : List ValidatedUtxo).
              lib.sign false (record read.0 { inputs = xs }) ≡ signed tx)
            s_is signs,
        subst (λ (xs : List ValidatedUtxo). IsPaid (record read.0 { inputs = xs }) tx r) s_is paid,
      )
