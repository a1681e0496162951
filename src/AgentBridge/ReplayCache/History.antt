-- ===== src/AgentBridge/ReplayCache/History.antt =====
-- An invoice that was authorized is not reserved again (replay-cache.ts), whatever calls come between.
use x402_xec.AgentBridge.ReplayCache.{
  Bool, Result, outlasts, true, commit, reserve, ok, rollback, some, err, get, ErrorCode,
  CacheEntry, is_live, false, has, Cache, prune, check_reservation,
}
use x402_xec.Common.{
  text_beq_iff, ◌==◌, text_eq, Result-cases, inl, inr, ◌≤◌, arith, ◌⊎◌, ◌≡◌, ◌<◌, ℕ, Text,
}
use x402_xec.Common.Dict.{get_beq, get-set, get-remove, get-retain-some}

module _ (h n : Text) (bound : ℕ) where
  -- The invoice and the nonce are committed up to `bound` at least, and neither is in flight.
  pub record IsLocked (c : Cache) : Type 0 where
    pub invoice_idle : has c.in_flight_invoices h ≡ false
    pub nonce_idle : has c.in_flight_nonces n ≡ false
    pub invoice_kept :
        (e : CacheEntry) × (get c.committed_invoices h ≡ some e) × (bound ≤ e.expires_at)
    pub nonce_kept : (e : CacheEntry) × (get c.committed_nonces n ≡ some e) × (bound ≤ e.expires_at)

  prune-IsLocked : (now : ℕ) (c : Cache) → now < bound → IsLocked c → IsLocked (prune now c).0
  unfolding prune
  prune-IsLocked now c lt l =
      let (e, found, long) = l.invoice_kept in
      let (f, found', long') = l.nonce_kept in
      record {
        invoice_idle = l.invoice_idle;
        nonce_idle = l.nonce_idle;
        invoice_kept =
            (e, get-retain-some (is_live now) c.committed_invoices h e found (ground arith), long);
        nonce_kept =
            (f, get-retain-some (is_live now) c.committed_nonces n f found' (ground arith), long');
      }

  -- What a reservation that is granted has shown.
  granted :
      (k m : Text) (now : ℕ) (c : Cache) {u : Unit {0}}
      → check_reservation k m now c ≡ ok u
      → (outlasts now (get c.committed_invoices k) ≡ false)
        × (outlasts now (get c.committed_nonces m) ≡ false)
  unfolding check_reservation
  granted k m now c e = ground arith

  -- It names neither.
  granted_apart :
      (k m : Text) (now : ℕ) (c : Cache) {u : Unit {0}}
      → now < bound
      → IsLocked c
      → check_reservation k m now c ≡ ok u
      → (k == h ≡ false) × (m == n ≡ false)
  granted_apart k m now c lt l e =
      let (invoice_free, nonce_free) = granted k m now c e in
      let (x, found, long) = l.invoice_kept in
      let (y, found', long') = l.nonce_kept in
      (
        ground (arith, invoice_free, found, long, lt, get_beq c.committed_invoices k h),
        ground (arith, nonce_free, found', long', lt, get_beq c.committed_nonces m n),
      )

  reserve-IsLocked :
      (k m : Text) (expires_at now : ℕ) (c : Cache)
      → now < bound
      → IsLocked c
      → IsLocked (reserve k m expires_at now c).0
  unfolding reserve
  reserve-IsLocked k m expires_at now c lt l =
      let pruned = (prune now c).0 in
      let l' = prune-IsLocked now c lt l in
      elim (Result-cases (check_reservation k m now pruned)) [
        | inr (code, refused) ↦ rw (reserve, refused) l'
        | inl (u, accepted) ↦
            let (other_invoice, other_nonce) = granted_apart k m now pruned lt l' accepted in
            rw (reserve, accepted)
              (record {
                invoice_idle = ground (
                  arith,
                  l'.invoice_idle,
                  other_invoice,
                  get-set pruned.in_flight_invoices k tt h,
                );
                nonce_idle =
                    ground
                      (arith, l'.nonce_idle, other_nonce, get-set pruned.in_flight_nonces m tt n);
                invoice_kept = l'.invoice_kept;
                nonce_kept = l'.nonce_kept;
              })
      ]

  rollback-IsLocked : (k m : Text) (c : Cache) → IsLocked c → IsLocked (rollback k m c)
  unfolding rollback
  rollback-IsLocked k m c l = record {
    invoice_idle = ground (arith, l.invoice_idle, get-remove c.in_flight_invoices k h);
    nonce_idle = ground (arith, l.nonce_idle, get-remove c.in_flight_nonces m n);
    invoice_kept = l.invoice_kept;
    nonce_kept = l.nonce_kept;
  }

  -- A commitment of what is in flight is of another invoice with another nonce.
  commit-IsLocked :
      (k m : Text) (expires_at : ℕ) (c : Cache)
      → has c.in_flight_invoices k ≡ true
      → has c.in_flight_nonces m ≡ true
      → IsLocked c
      → IsLocked (commit k m expires_at c)
  unfolding commit
  commit-IsLocked k m expires_at c flies flies' l =
      let r = rollback-IsLocked k m c l in
      let entry : CacheEntry = record { invoice_hash = k; nonce = m; expires_at = expires_at } in
      let (x, found, long) = l.invoice_kept in
      let (y, found', long') = l.nonce_kept in
      record {
        invoice_idle = r.invoice_idle;
        nonce_idle = r.nonce_idle;
        invoice_kept = (
          x,
          ground (
            arith,
            found,
            l.invoice_idle,
            flies,
            get_beq c.in_flight_invoices k h,
            get-set c.committed_invoices k entry h,
          ),
          long,
        );
        nonce_kept = (
          y,
          ground (
            arith,
            found',
            l.nonce_idle,
            flies',
            get_beq c.in_flight_nonces m n,
            get-set c.committed_nonces m entry n,
          ),
          long',
        );
      }

  lock : (expires_at : ℕ) (c : Cache) → bound ≤ expires_at → IsLocked (commit h n expires_at c)
  unfolding commit rollback
  lock expires_at c long =
      let entry : CacheEntry = record { invoice_hash = h; nonce = n; expires_at = expires_at } in
      record {
        invoice_idle = ground (arith, get-remove c.in_flight_invoices h h, text_beq_iff h h);
        nonce_idle = ground (arith, get-remove c.in_flight_nonces n n, text_beq_iff n n);
        invoice_kept =
            (entry, ground (arith, get-set c.committed_invoices h entry h, text_beq_iff h h), long);
        nonce_kept =
            (entry, ground (arith, get-set c.committed_nonces n entry n, text_beq_iff n n), long);
      }

-- Calls at times before `bound`, where a commitment is of what is in flight, as the bridge's are.
pub data Calls (bound : ℕ) (c : Cache) : Cache → Type 0 where
  no_call : Calls bound c c
  reserves :
      {t : Cache} (k m : Text) (expires_at now : ℕ)
      → now < bound
      → Calls bound c t
      → Calls bound c (reserve k m expires_at now t).0
  commits :
      {t : Cache} (k m : Text) (expires_at : ℕ)
      → has t.in_flight_invoices k ≡ true
      → has t.in_flight_nonces m ≡ true
      → Calls bound c t
      → Calls bound c (commit k m expires_at t)
  rolls_back : {t : Cache} (k m : Text) → Calls bound c t → Calls bound c (rollback k m t)
  prunes : {t : Cache} (now : ℕ) → now < bound → Calls bound c t → Calls bound c (prune now t).0

Calls-IsLocked :
    (h n : Text) (bound : ℕ) {c t : Cache}
    → IsLocked h n bound c
    → Calls bound c t
    → IsLocked h n bound t
Calls-IsLocked h n bound l no_call = l
Calls-IsLocked h n bound l (reserves {t} k m expires_at now lt calls) =
    reserve-IsLocked h n bound k m expires_at now t lt (Calls-IsLocked h n bound l calls)
Calls-IsLocked h n bound l (commits {t} k m expires_at flies flies' calls) =
    commit-IsLocked h n bound k m expires_at t flies flies' (Calls-IsLocked h n bound l calls)
Calls-IsLocked h n bound l (rolls_back {t} k m calls) =
    rollback-IsLocked h n bound k m t (Calls-IsLocked h n bound l calls)
Calls-IsLocked h n bound l (prunes {t} now lt calls) =
    prune-IsLocked h n bound now t lt (Calls-IsLocked h n bound l calls)

abbrev pub is_granted : Result ErrorCode (Unit {0}) → Bool
is_granted (ok u) = true
is_granted (err code) = false

module _ (h n : Text) (expires_at : ℕ) (c t : Cache)
    (calls : Calls expires_at (commit h n expires_at c) t) (k m : Text) (expiry now : ℕ)
    (in_time : now < expires_at) where
  -- Once the replay cache has committed an invoice with its nonce, a reservation of that invoice or
  -- of that nonce, with whatever partner, is refused, whatever reservations, prunings, rollbacks
  -- and commitments of what is in flight come between, as long as no clock has reached the expiry
  -- that was committed.
  pub authorized_once : (k ≡ h) ⊎ (m ≡ n) → is_granted (reserve k m expiry now t).1 ≡ false
  unfolding reserve
  authorized_once same =
      let pruned = (prune now t).0 in
      let l =
        prune-IsLocked h n expires_at now t in_time
          (Calls-IsLocked h n expires_at (lock h n expires_at expires_at c (omega arith)) calls) in
      elim (Result-cases (check_reservation k m now pruned)) [
        | inr (code, refused) ↦ rw (reserve, refused)
        | inl (u, accepted) ↦
            let (other_invoice, other_nonce) =
              granted_apart h n expires_at k m now pruned in_time l accepted in
            elim same [
              | inl same_invoice ↦ ground (arith, same_invoice, other_invoice, text_beq_iff k h)
              | inr same_nonce ↦ ground (arith, same_nonce, other_nonce, text_beq_iff m n)
            ]
      ]
