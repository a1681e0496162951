-- ===== src/Core/CashAddr.antt =====
-- cashaddr.ts: the strict validator of eCash addresses, and the locking script of an address. The
-- codec is that of ecashaddrjs, a parameter.
pub mod Laws
use x402_xec.Common.{
  ℕ, zero, suc, Bool, true, false, not, Option, none, some, List, [], ◌∷◌, ◌++◌, ◌&&◌, ◌||◌, Text,
  codes, length, all, leb, nat_beq, is_lower_hex, starts_with, to_lower_case, ◌==◌, text_eq, nat_eq,
  if◌then◌else◌,
}
use x402_xec.Common.Maybe.{◌>>=◌, ◌>>◌, check}

-- What ecashaddrjs decodes an address to.
pub record LibraryAddress : Type 0 where
  pub prefix : Text
  pub kind : Text
  pub hash : Text

-- `decodeCashAddress(address)` and `encodeCashAddress("ecash", kind, hash)`; `none` is a throw.
pub record AddressCodec : Type 0 where
  pub decode : Text → Option LibraryAddress
  pub encode : Text → Text → Option Text

pub record DecodedCashAddress : Type 0 where
  pub kind : ℕ
  pub hash : Text

-- The white space that `trim` strips.
abbrev is_space : ℕ → Bool
is_space c =
    (leb 9 c && leb c 13)
    || nat_beq c 32
    || nat_beq c 0xA0
    || nat_beq c 0x1680
    || (leb 0x2000 c && leb c 0x200A)
    || nat_beq c 0x2028
    || nat_beq c 0x2029
    || nat_beq c 0x202F
    || nat_beq c 0x205F
    || nat_beq c 0x3000
    || nat_beq c 0xFEFF

-- `s.trim() === ""`
abbrev pub is_blank : Text → Bool
is_blank s = all is_space s

-- The parts of `s.split(":")`, the first of which continues `cur`.
split_onto : Text → Text → List Text
split_onto cur [] = cur ∷ []
split_onto cur (c ∷ s) =
    let closed = cur ∷ split_onto [] s in
    let longer = split_onto (cur ++ c ∷ []) s in if nat_beq c b':' then closed else longer

-- The second of exactly two parts, of which the first is "ecash".
abbrev body_of : List Text → Option Text
body_of (prefix ∷ body ∷ []) = if prefix == codes "ecash" then some body else none
body_of _ = none

abbrev pub is_hash160 : Text → Bool
is_hash160 s = nat_beq (length s) 40 && all is_lower_hex s

kind_code : Text → Option ℕ
kind_code kind =
    if kind == codes "p2pkh" then some 0 else if kind == codes "p2sh" then some 1 else none

module _ (codec : AddressCodec) where
  -- `none` is the TypeError.
  unfoldable pub decode_cash_address : Text → Option DecodedCashAddress
  unfolding split_onto kind_code
  decode_cash_address address = do
    check (not (is_blank address))
    check (address == to_lower_case address)
    check (starts_with address (codes "ecash:"))
    body ← body_of (split_onto [] address)
    check (length body == 42)
    decoded ← codec.decode address
    check (decoded.prefix == codes "ecash")
    code ← kind_code decoded.kind
    check (is_hash160 decoded.hash)
    reencoded ← codec.encode decoded.kind decoded.hash
    check (reencoded == address)
    some (record { kind = code; hash = decoded.hash })

  abbrev pub is_valid_cash_address : Text → Bool
  is_valid_cash_address address = elim (decode_cash_address address) [
    | none ↦ false
    | some d ↦ true
  ]

  script_of : ℕ → Text → Option Text
  script_of zero hash = some (codes "76a914" ++ hash ++ codes "88ac")
  script_of (suc zero) hash = some (codes "a914" ++ hash ++ codes "87")
  script_of (suc (suc n)) hash = none

  unfoldable pub cash_address_to_output_script_hex : Text → Option Text
  unfolding script_of
  cash_address_to_output_script_hex address = do
    decoded ← decode_cash_address address
    script_of decoded.kind decoded.hash
