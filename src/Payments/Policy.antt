-- ===== src/Payments/Policy.antt =====
-- payment-policy.ts: the limits that a payment plan has to meet.
pub mod Laws
use x402_xec.Common.{
  if◌then◌else◌, ℕ, ◌+◌, Bool, true, false, not, Option, none, some, List, [], ◌∷◌, ◌||◌, ◌&&◌,
  Text, codes, leb, ltb, text_eq, Result, ok, err, ◌>>=◌, ◌>>◌, reject, require, ◌==◌,
}
use x402_xec.Common.Decimal.{is_positive_decimal, of_decimal}
use x402_xec.Core.Json.{
  Number, nonneg, negative, inexact, not_finite, safe_nonnegative, max_safe_integer,
}

-- `bigint | number | string`, where `negative_bigint n` is -(n + 1)
pub data SatoshiLimit : Type 0 where
  bigint negative_bigint : ℕ → SatoshiLimit
  number : Number → SatoshiLimit
  string : Text → SatoshiLimit

pub record PaymentPolicy : Type 0 where
  pub max_payment_sats : SatoshiLimit
  pub allowed_networks : List Text
  pub allowed_schemes : List Text
  pub allowed_pay_to_addresses : Option (List Text)
  pub require_finality : Option Bool
  pub require_manual_approval : Bool
  pub expires_at_skew_seconds : Option Number
  pub max_fee_sats : Option SatoshiLimit

pub record PaymentPlan : Type 0 where
  pub network : Text
  pub scheme : Text
  pub amount_sats : Text
  pub pay_to : Text
  pub expires_at : Number
  pub fee_sats : Option Text
  pub transaction_txid : Option Text
  pub requires_manual_approval : Bool
  pub finality : Option Bool

pub record PaymentPolicyContext : Type 0 where
  pub dry_run : Bool
  pub allow_broadcast : Bool
  pub now : Number

pub data Reason : Type 0 where
  amount_exceeds unsupported_network unsupported_scheme not_allowlisted fee_exceeds : Reason
  needs_finality expired needs_allow_broadcast : Reason

-- What is thrown: a PaymentPolicyError, a TypeError or a RangeError.
pub data Thrown : Type 0 where
  policy_rejected : Reason → Thrown
  type_error range_error : Thrown

-- `/^(0|[1-9][0-9]*)$/`
abbrev pub is_canonical_sats : Text → Bool
is_canonical_sats s = s == codes "0" || is_positive_decimal s

unfoldable pub read_canonical_sats : Text → Result Thrown ℕ
read_canonical_sats input = do
  reject (not (is_canonical_sats input)) type_error
  ok (of_decimal input)

abbrev read_number : Number → Result Thrown ℕ
read_number (nonneg n) = if leb n max_safe_integer then ok n else err type_error
read_number (negative n) = if leb (n + 1) max_safe_integer then err range_error else err type_error
read_number (inexact s) = err type_error
read_number not_finite = err type_error

unfoldable pub read_limit : SatoshiLimit → Result Thrown ℕ
read_limit (bigint n) = ok n
read_limit (negative_bigint n) = err range_error
read_limit (number n) = read_number n
read_limit (string s) = read_canonical_sats s

abbrev pub or_zero : Option Number → Number
or_zero none = nonneg 0
or_zero (some n) = n

unfoldable pub read_skew : Number → Result Thrown ℕ
read_skew value = require (safe_nonnegative value) range_error

-- `list.includes(text)`
unfoldable pub is_listed : List Text → Text → Bool
is_listed [] t = false
is_listed (x ∷ xs) t = x == t || is_listed xs t

-- An allowlist that is given, and does not have the address.
abbrev pub is_unlisted : Option (List Text) → Text → Bool
is_unlisted none address = false
is_unlisted (some allowed) address = not (is_listed allowed address)

abbrev pub is_true : Option Bool → Bool
is_true (some true) = true
is_true _ = false

-- A fee is compared only where the plan has one and the policy limits it.
unfoldable pub check_fee : Option Text → Option SatoshiLimit → Result Thrown (Unit {0})
check_fee none limit = ok tt
check_fee (some fee_sats) none = ok tt
check_fee (some fee_sats) (some limit) = do
  fee ← read_canonical_sats fee_sats
  maximum_fee ← read_limit limit
  reject (ltb maximum_fee fee) (policy_rejected fee_exceeds)

-- `now + skew` is a sum of safe integers: where it is rounded it is above every safe `expiresAt`.
unfoldable pub check_expiry : ℕ → ℕ → Number → Result Thrown (Unit {0})
check_expiry now skew expires_at = do
  expires ← require (safe_nonnegative expires_at) (policy_rejected expired)
  reject (leb expires (now + skew)) (policy_rejected expired)

unfoldable pub evaluate_payment_policy :
    PaymentPolicy → PaymentPlan → PaymentPolicyContext → Result Thrown (Unit {0})
evaluate_payment_policy policy plan context = do
  maximum ← read_limit policy.max_payment_sats
  amount ← read_canonical_sats plan.amount_sats
  reject (ltb maximum amount) (policy_rejected amount_exceeds)
  reject (not (is_listed policy.allowed_networks plan.network))
      (policy_rejected unsupported_network)
  reject (not (is_listed policy.allowed_schemes plan.scheme)) (policy_rejected unsupported_scheme)
  reject (is_unlisted policy.allowed_pay_to_addresses plan.pay_to) (policy_rejected not_allowlisted)
  check_fee plan.fee_sats policy.max_fee_sats
  reject (is_true policy.require_finality && not (is_true plan.finality))
      (policy_rejected needs_finality)
  skew ← read_skew (or_zero policy.expires_at_skew_seconds)
  now ← require (safe_nonnegative context.now) range_error
  check_expiry now skew plan.expires_at
  reject (not context.dry_run && not context.allow_broadcast)
      (policy_rejected needs_allow_broadcast)
