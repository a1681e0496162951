-- ===== src/Payments/ChronikUtxos/Reports.antt =====
-- What getUtxos of chronik-utxo-provider.ts returns, beside what the index reported.
use x402_xec.Common.{
  eq-of-not_other, refl, inl, inr, true, subst, ap, ◌==◌, text_eq, nat_eq, ◌∙◌, ok, some, none,
  false, arith, not, Option, List, Text, ℕ, reject, require, ◌∷◌, [], ◌≡◌, ◌<◌, >>=-eq-ok,
  require-ok, reject-ok, ok-injective, Option-cases, err_not_ok,
}
use x402_xec.Payments.ChronikUtxos.{
  xec_mainnet, safe_nonnegative, is_hash, ChronikUtxo, ChronikUtxoSet, UtxoProvider, map_utxo,
  map_utxos, get_utxos, positive, read_failed, unsupported_network, wrong_payer,
}
use x402_xec.Common.Decimal.{to_decimal}
use x402_xec.Transactions.{FundingUtxo, is_hex_bytes}

pub positive_lem : (o : Option ℕ) {n : ℕ} → positive o ≡ some n → (o ≡ some n) × (0 < n)
positive_lem none h = cc
positive_lem (some m) h = ground arith

-- `x` says of the address what the index says in `u`, with the script of the address.
pub record IsReportOf (script : Text) (u : ChronikUtxo) (x : FundingUtxo) : Type 0 where
  pub txid : x.txid ≡ u.txid
  pub out_idx : x.out_idx ≡ u.out_idx
  pub sats : (n : ℕ) × (u.sats ≡ some n) × (0 < n) × (x.sats ≡ to_decimal n)
  pub output_script : x.output_script ≡ script
  pub has_token : x.has_token ≡ u.has_token

-- The list has a report of every UTXO that is not from a coinbase, in their order, and no other.
pub data AreReports (script : Text) : List ChronikUtxo → List FundingUtxo → Type 0 where
  no_reports : AreReports script [] []
  coinbase :
      {u : ChronikUtxo} {us : List ChronikUtxo} {xs : List FundingUtxo}
      → u.is_coinbase ≡ some true
      → AreReports script us xs
      → AreReports script (u ∷ us) xs
  spendable :
      {u : ChronikUtxo} {us : List ChronikUtxo} {x : FundingUtxo} {xs : List FundingUtxo}
      → u.is_coinbase ≡ some false
      → IsReportOf script u x
      → AreReports script us xs
      → AreReports script (u ∷ us) (x ∷ xs)

map_utxo-IsReportOf :
    (script : Text) (u : ChronikUtxo) {x : FundingUtxo}
    → map_utxo script u ≡ ok x
    → IsReportOf script u x
unfolding map_utxo
map_utxo-IsReportOf script u h =
    let (u1, h1, k1) = >>=-eq-ok (reject (not (is_hash u.txid)) read_failed) _ h in
    let (i, h2, k2) = >>=-eq-ok (require (safe_nonnegative u.out_idx) read_failed) _ k1 in
    let (n, h3, k3) = >>=-eq-ok (require (positive u.sats) read_failed) _ k2 in
    let (u4, h4, k4) = >>=-eq-ok (reject (not (is_hex_bytes script)) read_failed) _ k3 in
    let (reported, more) = positive_lem u.sats (require-ok _ _ h3) in
    subst (IsReportOf script u) (ok-injective k4) (record {
      txid = refl;
      out_idx = refl;
      sats = (n, reported, more, refl);
      output_script = refl;
      has_token = refl;
    })

pub map_utxos-AreReports :
    (script : Text) (us : List ChronikUtxo) {xs : List FundingUtxo}
    → map_utxos script us ≡ ok xs
    → AreReports script us xs
unfolding map_utxos
map_utxos-AreReports script [] h =
    subst (AreReports script []) (ok-injective h) AreReports.no_reports
map_utxos-AreReports script (u ∷ us) {xs} h = elim (Option-cases u.is_coinbase) [
  | inl unknown ↦ elim (err_not_ok {e = read_failed} (rw (map_utxos, unknown) refl) h) [ ]
  | inr (true, is) ↦
      AreReports.coinbase is (map_utxos-AreReports script us (rw (map_utxos, is) at h))
  | inr (false, is) ↦
      let (x, h1, k1) = >>=-eq-ok (map_utxo script u) _ (rw (map_utxos, is) at h) in
      let (rest, h2, k2) = >>=-eq-ok (map_utxos script us) _ k1 in
      subst (AreReports script (u ∷ us)) (ok-injective k2) (
        AreReports.spendable is (map_utxo-IsReportOf script u h1)
          (map_utxos-AreReports script us h2))
]

-- getUtxos asked the index for the payer on the right network, and was answered with a list.
pub get_utxos_asked :
    (provider : UtxoProvider) (client : Text → Option ChronikUtxoSet) (network payer : Text)
    {xs : List FundingUtxo}
    → get_utxos provider client network payer ≡ ok xs
    → (network ≡ xec_mainnet)
      × (payer ≡ provider.address)
      × ((reported : ChronikUtxoSet) × (us : List ChronikUtxo) × (client payer ≡ some reported)
          × (reported.utxos ≡ some us)
          × (map_utxos reported.output_script us ≡ ok xs))
unfolding get_utxos
get_utxos_asked provider client network payer h =
    let (u1, h1, k1) = >>=-eq-ok (reject (not (network == xec_mainnet)) unsupported_network) _ h in
    let (u2, h2, k2) = >>=-eq-ok (reject (not (payer == provider.address)) wrong_payer) _ k1 in
    let (reported, h3, k3) = >>=-eq-ok (require (client provider.address) read_failed) _ k2 in
    let (us, h4, k4) = >>=-eq-ok (require reported.utxos read_failed) _ k3 in
    let same = eq-of-not_other payer provider.address (reject-ok _ _ h2) in
    (
      eq-of-not_other network xec_mainnet (reject-ok _ _ h1),
      same,
      (reported, us, ap client same ∙ require-ok _ _ h3, require-ok _ _ h4, k4),
    )

-- What the UTXO provider returns was asked for the network that it serves and the address that it
-- is configured for, and has a report of every UTXO that the index gave for the address and that is
-- not from a coinbase, in their order and no other: its txid, index, positive sats and token as the
-- index said, under the script of the address.
pub get_utxos-AreReports :
    (provider : UtxoProvider) (client : Text → Option ChronikUtxoSet) (network payer : Text)
    {xs : List FundingUtxo}
    → get_utxos provider client network payer ≡ ok xs
    → (network ≡ xec_mainnet)
      × (payer ≡ provider.address)
      × ((reported : ChronikUtxoSet) × (us : List ChronikUtxo) × (client payer ≡ some reported)
          × (reported.utxos ≡ some us)
          × AreReports reported.output_script us xs)
get_utxos-AreReports provider client network payer h =
    let (right, same, (reported, us, answered, listed, mapped)) =
      get_utxos_asked provider client network payer h in
    (
      right,
      same,
      (reported, us, answered, listed, map_utxos-AreReports reported.output_script us mapped),
    )
