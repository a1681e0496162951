-- ===== src/Payments/Policy/Laws.antt =====
-- What a plan that passes the policy (payment-policy.ts) has shown.
use x402_xec.Payments.Policy.{
  range_error, needs_finality, not_allowlisted, unsupported_scheme, unsupported_network,
  amount_exceeds, expired, policy_rejected, evaluate_payment_policy, or_zero, read_skew, is_true,
  is_unlisted, is_listed, read_canonical_sats, read_limit, safe_nonnegative, SatoshiLimit,
  PaymentPolicyContext, PaymentPlan, Number, check_expiry, check_fee, PaymentPolicy,
}
use x402_xec.Common.{
  none, refl, ◌↔◌, ◌&&◌, not, ltb, require, require-ok, reject-ok, reject, ◌+◌, >>=-eq-ok, arith,
  false, true, some, Option, Text, text_eq, ◌≡◌, ◌≤◌, ◌<◌, ℕ, ok,
}

-- The plan is within every limit of the policy.
pub record IsAllowed (policy : PaymentPolicy) (plan : PaymentPlan) (context : PaymentPolicyContext)
    : Type 0 where
  pub amount :
      (maximum sats : ℕ) × (read_limit policy.max_payment_sats ≡ ok maximum)
      × (read_canonical_sats plan.amount_sats ≡ ok sats)
      × (sats ≤ maximum)
  pub network : is_listed policy.allowed_networks plan.network ≡ true
  pub scheme : is_listed policy.allowed_schemes plan.scheme ≡ true
  pub pay_to : is_unlisted policy.allowed_pay_to_addresses plan.pay_to ≡ false
  pub fee :
      (fee_sats : Text) (limit : SatoshiLimit)
      → plan.fee_sats ≡ some fee_sats
      → policy.max_fee_sats ≡ some limit
      → (maximum sats : ℕ) × (read_limit limit ≡ ok maximum)
        × (read_canonical_sats fee_sats ≡ ok sats)
        × (sats ≤ maximum)
  pub final : is_true policy.require_finality ≡ true → is_true plan.finality ≡ true
  pub in_time :
      (now skew expires : ℕ) × (safe_nonnegative context.now ≡ some now)
      × (read_skew (or_zero policy.expires_at_skew_seconds) ≡ ok skew)
      × (safe_nonnegative plan.expires_at ≡ some expires)
      × (now + skew < expires)
  pub permitted : context.dry_run ≡ false → context.allow_broadcast ≡ true

check_fee_lem :
    (fee : Option Text) (limit : Option SatoshiLimit) {u : Unit {0}}
    → check_fee fee limit ≡ ok u
    → (fee_sats : Text) (l : SatoshiLimit) → fee ≡ some fee_sats
    → limit ≡ some l
    → (maximum sats : ℕ) × (read_limit l ≡ ok maximum)
      × (read_canonical_sats fee_sats ≡ ok sats)
      × (sats ≤ maximum)
unfolding check_fee
check_fee_lem fee limit h fee_sats l is_fee is_limit =
    let k = rw (is_fee, is_limit) at h in
    let (sats, read, rest) = >>=-eq-ok (read_canonical_sats fee_sats) _ k in
    let (maximum, read', rest') = >>=-eq-ok (read_limit l) _ rest in
    (maximum, sats, read', read, ground (arith, rest'))

check_expiry_lem :
    (now skew : ℕ) (expires_at : Number) {u : Unit {0}}
    → check_expiry now skew expires_at ≡ ok u
    → (expires : ℕ) × (safe_nonnegative expires_at ≡ some expires) × (now + skew < expires)
unfolding check_expiry
check_expiry_lem now skew expires_at h =
    let (expires, read, rest) =
      >>=-eq-ok (require (safe_nonnegative expires_at) (policy_rejected expired)) _ h in
    (expires, require-ok _ _ read, ground (arith, rest))

-- A plan that the policy lets pass is within every one of its limits.
pub evaluate_payment_policy-IsAllowed :
    (policy : PaymentPolicy) (plan : PaymentPlan) (context : PaymentPolicyContext) {u : Unit {0}}
    → evaluate_payment_policy policy plan context ≡ ok u
    → IsAllowed policy plan context
unfolding evaluate_payment_policy read_skew
evaluate_payment_policy-IsAllowed policy plan context h =
    let (maximum, e1, k1) = >>=-eq-ok (read_limit policy.max_payment_sats) _ h in
    let (sats, e2, k2) = >>=-eq-ok (read_canonical_sats plan.amount_sats) _ k1 in
    let (u3, e3, k3) =
      >>=-eq-ok (reject (ltb maximum sats) (policy_rejected amount_exceeds)) _ k2 in
    let (u4, e4, k4) =
      >>=-eq-ok
        (reject (not (is_listed policy.allowed_networks plan.network))
          (policy_rejected unsupported_network))
        _ k3 in
    let (u5, e5, k5) =
      >>=-eq-ok
        (reject (not (is_listed policy.allowed_schemes plan.scheme))
          (policy_rejected unsupported_scheme))
        _ k4 in
    let (u6, e6, k6) =
      >>=-eq-ok
        (reject (is_unlisted policy.allowed_pay_to_addresses plan.pay_to)
          (policy_rejected not_allowlisted))
        _ k5 in
    let (u7, e7, k7) = >>=-eq-ok (check_fee plan.fee_sats policy.max_fee_sats) _ k6 in
    let (u8, e8, k8) =
      >>=-eq-ok
        (reject (is_true policy.require_finality && not (is_true plan.finality))
          (policy_rejected needs_finality))
        _ k7 in
    let (skew, e9, k9) = >>=-eq-ok (read_skew (or_zero policy.expires_at_skew_seconds)) _ k8 in
    let (now, e10, k10) = >>=-eq-ok (require (safe_nonnegative context.now) range_error) _ k9 in
    let (v, e11, k11) = >>=-eq-ok (check_expiry now skew plan.expires_at) _ k10 in
    let (expires, read, lt) = check_expiry_lem now skew plan.expires_at e11 in
    record {
      amount = (maximum, sats, e1, e2, ground (arith, reject-ok _ _ e3));
      network = ground (arith, reject-ok _ _ e4);
      scheme = ground (arith, reject-ok _ _ e5);
      pay_to = reject-ok _ _ e6;
      fee = λ fee_sats l. check_fee_lem plan.fee_sats policy.max_fee_sats e7 fee_sats l;
      final = λ wants. ground (arith, reject-ok _ _ e8);
      in_time = (now, skew, expires, require-ok _ _ e10, e9, read, lt);
      permitted = λ live. ground (arith, reject-ok _ _ k11);
    }

IsAllowed-fee :
    (policy : PaymentPolicy) (plan : PaymentPlan) (context : PaymentPolicyContext)
    → IsAllowed policy plan context
    → (fee : Option Text) (limit : Option SatoshiLimit) → plan.fee_sats ≡ fee
    → policy.max_fee_sats ≡ limit
    → check_fee fee limit ≡ ok tt
unfolding check_fee
IsAllowed-fee policy plan context w none limit e f = refl
IsAllowed-fee policy plan context w (some fee_sats) none e f = refl
IsAllowed-fee policy plan context w (some fee_sats) (some limit) e f =
    let (maximum, sats, read, read', le) = w.fee fee_sats limit e f in
    rw (read', read) (ground arith)

-- evaluatePaymentPolicy lets a plan pass exactly when it has an amount up to the maximum, a listed
-- network and scheme, a listed address where there is an allowlist, a fee up to the maximum where
-- both are given, finality where it is required, a clock that with the skew is before the expiry,
-- and outside the dry run the permission to broadcast.
pub evaluate_payment_policy-IsAllowed_iff :
    (policy : PaymentPolicy) (plan : PaymentPlan) (context : PaymentPolicyContext)
    → (evaluate_payment_policy policy plan context ≡ ok tt) ↔ IsAllowed policy plan context
unfolding evaluate_payment_policy check_expiry
evaluate_payment_policy-IsAllowed_iff policy plan context = (
  evaluate_payment_policy-IsAllowed policy plan context,
  λ w.
      let (maximum, sats, e1, e2, le) = w.amount in
      let (now, skew, expires, e3, e4, e5, lt) = w.in_time in
      let fees = IsAllowed-fee policy plan context w plan.fee_sats policy.max_fee_sats refl refl in
      rw (e1, e2, w.network, w.scheme, w.pay_to, fees, e3, e4, e5)
        (ground (arith, le, lt, w.final, w.permitted)),
)
