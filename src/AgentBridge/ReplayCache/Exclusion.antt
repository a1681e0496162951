-- ===== src/AgentBridge/ReplayCache/Exclusion.antt =====
-- One attempt at a time: what is reserved in replay-cache.ts is reserved to one caller.
use x402_xec.AgentBridge.ReplayCache.{commit}
use x402_xec.Common.{Bool-cases}
use x402_xec.AgentBridge.ReplayCache.{
  concurrent_conflict, err, check_reservation, commit, has, reserve, Cache, rollback, prune,
}
use x402_xec.Common.Dict.{get-remove, get-set}
use x402_xec.AgentBridge.ReplayCache.History.{is_granted}
use x402_xec.Common.{
  ◌≢◌, ℕ, Text, text_eq, Result-cases, ◌≡◌, ◌⊎◌, inl, inr, arith, true, text_beq_iff,
}

module _ (h n : Text) where
  -- The invoice and the nonce are in flight.
  pub record IsReserved (c : Cache) : Type 0 where
    pub invoice_flies : has c.in_flight_invoices h ≡ true
    pub nonce_flies : has c.in_flight_nonces n ≡ true

  -- A reservation that is granted is held.
  granted-IsReserved :
      (expires_at now : ℕ) (c : Cache)
      → is_granted (reserve h n expires_at now c).1 ≡ true
      → IsReserved (reserve h n expires_at now c).0
  unfolding reserve
  granted-IsReserved expires_at now c =
      let pruned = (prune now c).0 in
      elim (Result-cases (check_reservation h n now pruned)) [
        | inr (code, refused) ↦ rw (reserve, refused) (λ e. cc)
        | inl (u, accepted) ↦
            rw (reserve, accepted)
              (λ e. record {
                invoice_flies =
                    ground (arith, get-set pruned.in_flight_invoices h tt h, text_beq_iff h h);
                nonce_flies =
                    ground (arith, get-set pruned.in_flight_nonces n tt n, text_beq_iff n n);
              })
      ]

  prune-IsReserved : (now : ℕ) (c : Cache) → IsReserved c → IsReserved (prune now c).0
  unfolding prune
  prune-IsReserved now c r = record { invoice_flies = r.invoice_flies; nonce_flies = r.nonce_flies }

  reserve-IsReserved :
      (k m : Text) (expires_at now : ℕ) (c : Cache)
      → IsReserved c
      → IsReserved (reserve k m expires_at now c).0
  unfolding reserve
  reserve-IsReserved k m expires_at now c r =
      let pruned = (prune now c).0 in
      let r' = prune-IsReserved now c r in
      elim (Result-cases (check_reservation k m now pruned)) [
        | inr (code, refused) ↦ rw (reserve, refused) r'
        | inl (u, accepted) ↦
            rw (reserve, accepted)
              (record {
                invoice_flies =
                    ground (arith, r'.invoice_flies, get-set pruned.in_flight_invoices k tt h);
                nonce_flies =
                    ground (arith, r'.nonce_flies, get-set pruned.in_flight_nonces m tt n);
              })
      ]

  rollback-IsReserved :
      (k m : Text) (c : Cache) → k ≢ h → m ≢ n → IsReserved c → IsReserved (rollback k m c)
  unfolding rollback
  rollback-IsReserved k m c other other' r = record {
    invoice_flies =
        ground (arith, r.invoice_flies, text_beq_iff k h, get-remove c.in_flight_invoices k h);
    nonce_flies =
        ground (arith, r.nonce_flies, text_beq_iff m n, get-remove c.in_flight_nonces m n);
  }

  commit-IsReserved :
      (k m : Text) (expires_at : ℕ) (c : Cache)
      → k ≢ h
      → m ≢ n
      → IsReserved c
      → IsReserved (commit k m expires_at c)
  unfolding commit
  commit-IsReserved k m expires_at c other other' r =
      let r' = rollback-IsReserved k m c other other' r in
      record { invoice_flies = r'.invoice_flies; nonce_flies = r'.nonce_flies }

  reserved_refused :
      (k m : Text) (expires_at now : ℕ) (c : Cache)
      → IsReserved c
      → (k ≡ h) ⊎ (m ≡ n)
      → (reserve k m expires_at now c).1 ≡ err concurrent_conflict
  unfolding reserve check_reservation prune
  reserved_refused k m expires_at now c r (inl same) = rw same (rw (r.invoice_flies, reserve))
  reserved_refused k m expires_at now c r (inr same) =
      elim (Bool-cases (has c.in_flight_invoices k)) [
        | inl flies ↦ rw (flies, reserve)
        | inr idle ↦ rw same (rw (idle, reserve, r.nonce_flies))
      ]

  -- Calls of others: whatever reservations, and releases of other invoices with other nonces.
  pub data Others (c : Cache) : Cache → Type 0 where
    no_other : Others c c
    reserves :
        {t : Cache} (k m : Text) (expires_at now : ℕ)
        → Others c t
        → Others c (reserve k m expires_at now t).0
    commits :
        {t : Cache} (k m : Text) (expires_at : ℕ)
        → k ≢ h
        → m ≢ n
        → Others c t
        → Others c (commit k m expires_at t)
    rolls_back : {t : Cache} (k m : Text) → k ≢ h → m ≢ n → Others c t → Others c (rollback k m t)
    prunes : {t : Cache} (now : ℕ) → Others c t → Others c (prune now t).0

  Others-IsReserved : {c t : Cache} → IsReserved c → Others c t → IsReserved t
  Others-IsReserved r no_other = r
  Others-IsReserved r (reserves {t} k m expires_at now others) =
      reserve-IsReserved k m expires_at now t (Others-IsReserved r others)
  Others-IsReserved r (commits {t} k m expires_at other other' others) =
      commit-IsReserved k m expires_at t other other' (Others-IsReserved r others)
  Others-IsReserved r (rolls_back {t} k m other other' others) =
      rollback-IsReserved k m t other other' (Others-IsReserved r others)
  Others-IsReserved r (prunes {t} now others) = prune-IsReserved now t (Others-IsReserved r others)

module _ (h n : Text) (expires_at now : ℕ) (c t : Cache)
    (granted_h : is_granted (reserve h n expires_at now c).1 ≡ true)
    (others : Others h n (reserve h n expires_at now c).0 t) (k m : Text) (expiry later : ℕ) where
  -- From a reservation that was granted, through any reservations and prunings and any commitments
  -- and rollbacks of other invoices with other nonces, every reservation of its invoice or of its
  -- nonce is refused as CONCURRENT_CONFLICT, at any clock.
  pub reserved_once : (k ≡ h) ⊎ (m ≡ n) → (reserve k m expiry later t).1 ≡ err concurrent_conflict
  reserved_once =
      reserved_refused h n k m expiry later t
        (Others-IsReserved h n (granted-IsReserved h n expires_at now c granted_h) others)
