-- ===== src/Core/NonceStore/Laws.antt =====
-- A nonce is accepted once while it lasts (nonce-store.ts).
use x402_xec.Common.{ℕ, ◌<◌, ◌≡◌, true, false, some, Text, text_eq, arith, text_beq_iff}
use x402_xec.Common.Dict.{get, get-set, get-retain-some, get_beq}
use x402_xec.Core.NonceStore.{Nonces, consume, unexpired, forget_expired}

-- The nonce is held up to `expires_at` at least.
abbrev pub Holds : Nonces → Text → ℕ → Type 0
Holds m nonce expires_at = get m nonce ≡ some expires_at

module _ (nonce : Text) (expires_at : ℕ) (m : Nonces) where
  consume-Holds_self :
      (now : ℕ)
      → (consume nonce expires_at now m).1 ≡ true
      → Holds (consume nonce expires_at now m).0 nonce expires_at
  unfolding consume
  consume-Holds_self now h =
      ground
        (arith, get-set (forget_expired now m) nonce expires_at nonce, text_beq_iff nonce nonce)

  -- Another call, at a time before the nonce expires, still holds it.
  consume-Holds :
      (other : Text) (expiry now : ℕ)
      → Holds m nonce expires_at
      → now < expires_at
      → Holds (consume other expiry now m).0 nonce expires_at
  unfolding consume forget_expired
  consume-Holds other expiry now h lt = ground (
    arith,
    get-retain-some (unexpired now) m nonce expires_at,
    get-set (forget_expired now m) other expiry nonce,
    get_beq (forget_expired now m) other nonce,
  )

  held_refused :
      (expiry now : ℕ)
      → Holds m nonce expires_at
      → now < expires_at
      → (consume nonce expiry now m).1 ≡ false
  unfolding consume forget_expired
  held_refused expiry now h lt = ground (arith, get-retain-some (unexpired now) m nonce expires_at)

-- Calls of `consume`, each at a time before `bound`.
pub data Calls (bound : ℕ) (m : Nonces) : Nonces → Type 0 where
  none_yet : Calls bound m m
  then_consume :
      {t : Nonces} (nonce : Text) (expires_at now : ℕ)
      → now < bound
      → Calls bound m t
      → Calls bound m (consume nonce expires_at now t).0

Calls-Holds :
    (nonce : Text) (expires_at : ℕ) {m t : Nonces}
    → Holds m nonce expires_at
    → Calls expires_at m t
    → Holds t nonce expires_at
Calls-Holds nonce expires_at h none_yet = h
Calls-Holds nonce expires_at h (then_consume {t} other expiry now lt calls) =
    consume-Holds nonce expires_at t other expiry now (Calls-Holds nonce expires_at h calls) lt

-- A nonce that InMemoryNonceStore.consume has accepted is refused by every later call before its
-- expiry, whatever calls of consume come between at times before that expiry.
pub consumed_once :
    (nonce : Text) (expires_at now : ℕ) (m : Nonces) {t : Nonces}
    → (consume nonce expires_at now m).1 ≡ true
    → Calls expires_at (consume nonce expires_at now m).0 t
    → (expiry later : ℕ) → later < expires_at
    → (consume nonce expiry later t).1 ≡ false
consumed_once nonce expires_at now m {t} accepted calls expiry later lt =
    held_refused nonce expires_at t expiry later
      (Calls-Holds nonce expires_at (consume-Holds_self nonce expires_at m now accepted) calls) lt
