-- ===== src/Payments/ChronikUtxos/Funding.antt =====
-- What chronik-utxo-provider.ts reports is what the transaction builder takes.
use x402_xec.Payments.ChronikUtxos.Reports.{
  positive_lem, AreReports, map_utxos-AreReports, get_utxos_asked,
}
use x402_xec.Common.{
  not-false, refl, inl, inr, true, sym, subst, Bool, text_eq, nat_eq, ◌∙◌, ok, some, none, false,
  arith, not, Option, List, Text, ℕ, reject, require, ◌∷◌, [], ◌≡◌, ◌<◌, ◌+◌, >>=-eq-ok, require-ok,
  reject-ok, ok-injective, All, Option-cases, err_not_ok,
}
use x402_xec.Payments.ChronikUtxos.{
  Number, safe_nonnegative, is_hash, ChronikUtxo, ChronikUtxoSet, UtxoProvider, map_utxo, map_utxos,
  get_utxos, positive, read_failed,
}
use x402_xec.Common.Decimal.{to_decimal, of_decimal-to_decimal, to_decimal-is_positive}
use x402_xec.Transactions.{
  FundingUtxo, ValidatedUtxo, validate_utxo, validate_utxos, parse_positive_amount, sum_inputs,
  is_hex_bytes,
}

-- The sum of what is not from a coinbase.
pub sum_spendable : List ChronikUtxo → ℕ
sum_spendable [] = 0
sum_spendable (u ∷ us) = elim u.is_coinbase [
  | some false ↦ elim u.sats [ none ↦ sum_spendable us | some n ↦ n + sum_spendable us ]
  | other ↦ sum_spendable us
]

-- What the mapping tests is what the builder demands.
mapped_passes :
    (txid : Text) (out_idx : Number) (script : Text) (n i : ℕ) (token : Bool)
    → is_hash txid ≡ true
    → safe_nonnegative out_idx ≡ some i
    → is_hex_bytes script ≡ true
    → 0 < n
    → token ≡ false
    → validate_utxo (record {
      txid = txid;
      out_idx = out_idx;
      sats = to_decimal n;
      output_script = script;
      has_token = token;
    })
      ≡ ok (record {
        source = record {
          txid = txid;
          out_idx = out_idx;
          sats = to_decimal n;
          output_script = script;
          has_token = token;
        };
        sats = n;
        output_script = script;
      })
unfolding validate_utxo parse_positive_amount
mapped_passes txid out_idx script n i token hash index hex more free =
    rw
      (
        validate_utxo,
        hash,
        index,
        free,
        hex,
        parse_positive_amount,
        to_decimal-is_positive n more,
        of_decimal-to_decimal n,
      )
      refl

-- What the builder makes of a UTXO that was mapped.
abbrev IsTaken : Text → ChronikUtxo → FundingUtxo → Type 0
IsTaken script u x =
    x.has_token ≡ false
    → (n : ℕ) × (u.sats ≡ some n)
      × (validate_utxo x ≡ ok (record { source = x; sats = n; output_script = script }))

map_utxo-IsTaken :
    (script : Text) (u : ChronikUtxo) {x : FundingUtxo}
    → map_utxo script u ≡ ok x
    → IsTaken script u x
unfolding map_utxo
map_utxo-IsTaken script u h =
    let (u1, h1, k1) = >>=-eq-ok (reject (not (is_hash u.txid)) read_failed) _ h in
    let (i, h2, k2) = >>=-eq-ok (require (safe_nonnegative u.out_idx) read_failed) _ k1 in
    let (n, h3, k3) = >>=-eq-ok (require (positive u.sats) read_failed) _ k2 in
    let (u4, h4, k4) = >>=-eq-ok (reject (not (is_hex_bytes script)) read_failed) _ k3 in
    let sats = positive_lem u.sats (require-ok _ _ h3) in
    subst (IsTaken script u) (ok-injective k4) (λ free. (
      n,
      sats.0,
      mapped_passes u.txid u.out_idx script n i u.has_token
          (not-false (is_hash u.txid) (reject-ok _ _ h1)) (require-ok _ _ h2)
          (not-false (is_hex_bytes script) (reject-ok _ _ h4)) sats.1 free,
    ))

abbrev AreTaken : List ChronikUtxo → List FundingUtxo → Type 0
AreTaken us xs =
    All (λ (x : FundingUtxo). x.has_token ≡ false) xs
    → (vs : List ValidatedUtxo) × (validate_utxos xs ≡ ok vs) × (sum_inputs vs ≡ sum_spendable us)

cons_taken :
    (u : ChronikUtxo) (us : List ChronikUtxo) (script : Text) (x : FundingUtxo)
    (xs : List FundingUtxo)
    → u.is_coinbase ≡ some false
    → IsTaken script u x
    → AreTaken us xs
    → AreTaken (u ∷ us) (x ∷ xs)
unfolding validate_utxos sum_inputs sum_spendable
cons_taken u us script x xs spendable head tail (free, clean) =
    let (n, sats, passes) = head free in
    let (vs, more, same) = tail clean in
    (
      record { source = x; sats = n; output_script = script } ∷ vs,
      rw (validate_utxos, passes, more) refl,
      ground (arith, same, spendable, sats),
    )

empty_taken : (validate_utxos [] ≡ ok []) × (sum_inputs [] ≡ sum_spendable [])
unfolding validate_utxos sum_inputs sum_spendable
empty_taken = (refl, refl)

coinbase_skipped :
    (u : ChronikUtxo) (us : List ChronikUtxo)
    → u.is_coinbase ≡ some true
    → sum_spendable (u ∷ us) ≡ sum_spendable us
unfolding sum_spendable
coinbase_skipped u us coinbase = rw (coinbase, sum_spendable) refl

map_utxos-AreTaken :
    (script : Text) (us : List ChronikUtxo) {xs : List FundingUtxo}
    → map_utxos script us ≡ ok xs
    → AreTaken us xs
unfolding map_utxos sum_spendable
map_utxos-AreTaken script [] h =
    subst (AreTaken []) (ok-injective h) (λ clean. ([], empty_taken.0, empty_taken.1))
map_utxos-AreTaken script (u ∷ us) {xs} h = elim (Option-cases u.is_coinbase) [
  | inl unknown ↦ elim (err_not_ok {e = read_failed} (rw (map_utxos, unknown) refl) h) [ ]
  | inr (true, coinbase) ↦ λ clean.
      let (vs, more, same) = map_utxos-AreTaken script us (rw (map_utxos, coinbase) at h) clean in
      (vs, more, same ∙ sym (coinbase_skipped u us coinbase))
  | inr (false, spendable) ↦
      let (x, h1, k1) = >>=-eq-ok (map_utxo script u) _ (rw (map_utxos, spendable) at h) in
      let (rest, h2, k2) = >>=-eq-ok (map_utxos script us) _ k1 in
      subst (AreTaken (u ∷ us)) (ok-injective k2) (
        cons_taken u us script x rest spendable (map_utxo-IsTaken script u h1)
          (map_utxos-AreTaken script us h2))
]

-- If none of the UTXOs that the provider returns has a token, they are those that the index
-- reported for the payer and that are not from a coinbase, in their order, the transaction builder
-- takes all of them, and the sum of their sats is that of the reported ones.
pub get_utxos-validate_utxos :
    (provider : UtxoProvider) (client : Text → Option ChronikUtxoSet) (network payer : Text)
    {xs : List FundingUtxo}
    → get_utxos provider client network payer ≡ ok xs
    → All (λ (x : FundingUtxo). x.has_token ≡ false) xs
    → (reported : ChronikUtxoSet) × (us : List ChronikUtxo) × (vs : List ValidatedUtxo) × (client
          payer
        ≡ some reported)
      × (reported.utxos ≡ some us)
      × AreReports reported.output_script us xs
      × (validate_utxos xs ≡ ok vs)
      × (sum_inputs vs ≡ sum_spendable us)
get_utxos-validate_utxos provider client network payer h clean =
    let (right, same, (reported, us, answered, listed, mapped)) =
      get_utxos_asked provider client network payer h in
    let taken = map_utxos-AreTaken reported.output_script us mapped clean in
    let reports = map_utxos-AreReports reported.output_script us mapped in
    (reported, us, taken.0, answered, listed, reports, taken.1, taken.2)
