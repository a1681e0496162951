-- ===== src/Core/CashAddr/Laws.antt =====
-- No two accepted texts are one address (cashaddr.ts).
use x402_xec.Core.CashAddr.{
  is_hash160, split_onto, body_of, is_blank, kind_code, DecodedCashAddress, decode_cash_address,
  AddressCodec,
}
use x402_xec.Common.{
  not, [], codes, length, starts_with, to_lower_case, nat_eq, ℕ, ◌≡◌, Text, some, arith, text_eq,
  ◌==◌, text_beq_iff,
}
use x402_xec.Common.Maybe.{>>=-eq-some, check}

module _ (codec : AddressCodec) where
  -- What is accepted is what the codec encodes for what is decoded.
  decode_cash_address-encoded :
      (address : Text) {d : DecodedCashAddress}
      → decode_cash_address codec address ≡ some d
      → (kind : Text) × (kind_code kind ≡ some d.kind) × (codec.encode kind d.hash ≡ some address)
  unfolding decode_cash_address
  decode_cash_address-encoded address h =
      let (u1, e1, k1) = >>=-eq-some (check (not (is_blank address))) _ h in
      let (u2, e2, k2) = >>=-eq-some (check (address == to_lower_case address)) _ k1 in
      let (u3, e3, k3) = >>=-eq-some (check (starts_with address (codes "ecash:"))) _ k2 in
      let (body, e4, k4) = >>=-eq-some (body_of (split_onto [] address)) _ k3 in
      let (u5, e5, k5) = >>=-eq-some (check (length body == 42)) _ k4 in
      let (decoded, e6, k6) = >>=-eq-some (codec.decode address) _ k5 in
      let (u7, e7, k7) = >>=-eq-some (check (decoded.prefix == codes "ecash")) _ k6 in
      let (code, e8, k8) = >>=-eq-some (kind_code decoded.kind) _ k7 in
      let (u9, e9, k9) = >>=-eq-some (check (is_hash160 decoded.hash)) _ k8 in
      let (reencoded, e10, k10) = >>=-eq-some (codec.encode decoded.kind decoded.hash) _ k9 in
      let (u11, e11, k11) = >>=-eq-some (check (reencoded == address)) _ k10 in
      (
        decoded.kind,
        ground (arith, e8, k11),
        ground (arith, e10, e11, k11, text_beq_iff reencoded address),
      )

  kind_code-injective : (a b : Text) (k : ℕ) → kind_code a ≡ some k → kind_code b ≡ some k → a ≡ b
  unfolding kind_code
  kind_code-injective a b k e f = ground (
    arith,
    text_beq_iff a (codes "p2pkh"),
    text_beq_iff b (codes "p2pkh"),
    text_beq_iff a (codes "p2sh"),
    text_beq_iff b (codes "p2sh"),
  )

  -- Two texts that decodeCashAddress accepts with one kind and one hash are one text.
  pub decode_cash_address-injective :
      (a b : Text) {d : DecodedCashAddress}
      → decode_cash_address codec a ≡ some d
      → decode_cash_address codec b ≡ some d
      → a ≡ b
  decode_cash_address-injective a b {d} at_a at_b =
      let (kind, code, made) = decode_cash_address-encoded a at_a in
      let (kind', code', made') = decode_cash_address-encoded b at_b in
      let same = kind_code-injective kind kind' d.kind code code' in
      ground (arith, made, made', same)
