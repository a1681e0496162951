-- ===== src/Core/NonceStore.antt =====
-- nonce-store.ts: nonces that were used, until they expire.
pub mod Laws
use x402_xec.Common.{ℕ, Bool, true, false, not, Text, leb, text_eq, if◌then◌else◌}
use x402_xec.Common.Dict.{Dict, get, has, set, retain}

abbrev pub Nonces : Type 0
Nonces = Dict Text ℕ

-- The loop that forgets what has expired at `now`.
abbrev pub unexpired : ℕ → ℕ → Bool
unexpired now expiry = not (leb expiry now)

unfoldable pub forget_expired : ℕ → Nonces → Nonces
forget_expired now m = retain (unexpired now) m

unfoldable pub consume : Text → ℕ → ℕ → Nonces → Nonces × Bool
unfolding forget_expired
consume nonce expires_at now m =
    let live = forget_expired now m in
    if has live nonce then (live, false) else (set live nonce expires_at, true)
