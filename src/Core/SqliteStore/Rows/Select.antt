-- ===== src/Core/SqliteStore/Rows/Select.antt =====
-- What SELECT finds before and after an INSERT and an UPDATE (sqlite-invoice-store.ts).
use x402_xec.Common.{
  ℕ, ◌<◌, ◌≡◌, refl, Bool, true, false, none, some, [], ◌∷◌, ◌++◌, Text, ◌==◌, text_eq, nat_eq,
  if◌then◌else◌, arith, text_beq_iff, Bool-cases, inl, inr,
}
use x402_xec.Core.SqliteStore.Rows.{
  Row, Table, select, has_hash, next_index, update_settled, settled_row,
}

-- No two rows have one hash, as PRIMARY KEY demands.
unfoldable pub Distinct : Table → Type 0
Distinct [] = Unit
Distinct (r ∷ t) = (select (has_hash r.invoice_hash) t ≡ none) × Distinct t

-- A row that is selected passes the test.
pub select-holds : (p : Row → Bool) (t : Table) {r : Row} → select p t ≡ some r → p r ≡ true
unfolding select
select-holds p [] e = cc
select-holds p (x ∷ t) {r} e = elim (Bool-cases (p x)) [
  | inl holds ↦ ground (arith, holds)
  | inr fails ↦ select-holds p t (rw (fails, select) at e)
]

-- Where nothing passes a test, no row that another test selects passes it.
pub select-none :
    (p q : Row → Bool) (t : Table) {r : Row} → select p t ≡ none → select q t ≡ some r → p r ≡ false
unfolding select
select-none p q [] e f = cc
select-none p q (x ∷ t) {r} e f = elim (Bool-cases (p x)) [
  | inl holds ↦ cc (rw (holds, select) at e)
  | inr fails ↦ elim (Bool-cases (q x)) [
    | inl found ↦ ground (arith, rw (found, select) at f, fails)
    | inr other ↦ select-none p q t (rw (fails, select) at e) (rw (other, select) at f)
  ]
]

-- A row that is selected is the one under its hash.
pub select-by-hash :
    (p : Row → Bool) (t : Table) {r : Row}
    → Distinct t
    → select p t ≡ some r
    → select (has_hash r.invoice_hash) t ≡ some r
unfolding select Distinct
select-by-hash p [] d e = cc
select-by-hash p (x ∷ t) {r} (new, d) e = elim (Bool-cases (p x)) [
  | inl holds ↦ ground (arith, rw (holds, select) at e, text_beq_iff x.invoice_hash x.invoice_hash)
  | inr fails ↦
      let later = rw (fails, select) at e in
      ground (
        arith,
        select-by-hash p t d later,
        select-none (has_hash x.invoice_hash) p t new later,
        text_beq_iff x.invoice_hash r.invoice_hash,
        text_beq_iff r.invoice_hash x.invoice_hash,
      )
]

pub select-append :
    (p : Row → Bool) (t : Table) (r : Row)
    → select p (t ++ r ∷ [])
      ≡ elim (select p t) [ none ↦ if p r then some r else none | some x ↦ some x ]
unfolding select
select-append p [] r = ground arith
select-append p (x ∷ t) r = ground (arith, select-append p t r)

pub append-Distinct :
    (t : Table) (r : Row)
    → Distinct t
    → select (has_hash r.invoice_hash) t ≡ none
    → Distinct (t ++ r ∷ [])
unfolding Distinct select
append-Distinct [] r d new = (refl, tt)
append-Distinct (x ∷ t) r (apart, d) new = elim (Bool-cases (has_hash r.invoice_hash x)) [
  | inl same ↦ cc (rw (same, select) at new)
  | inr other ↦ (
    ground (
      arith,
      select-append (has_hash x.invoice_hash) t r,
      other,
      text_beq_iff x.invoice_hash r.invoice_hash,
      text_beq_iff r.invoice_hash x.invoice_hash,
    ),
    append-Distinct t r d (rw (other, select) at new),
  )
]

module _ (txid : Text) (h : Text) (paid_at : ℕ) where
  -- The row under `h` is replaced, and no other.
  pub select-update :
      (k : Text) (t : Table)
      → select (has_hash k) (update_settled txid h paid_at t) ≡ elim (select (has_hash k) t) [
        | none ↦ none
        | some r ↦ some (if h == k then settled_row txid paid_at r else r)
      ]
  unfolding select update_settled
  select-update k [] = refl
  select-update k (x ∷ t) = ground (
    arith,
    select-update k t,
    text_beq_iff h k,
    text_beq_iff x.invoice_hash h,
    text_beq_iff x.invoice_hash k,
  )

  pub update-Distinct : (t : Table) → Distinct t → Distinct (update_settled txid h paid_at t)
  unfolding Distinct update_settled
  update-Distinct [] d = tt
  update-Distinct (x ∷ t) (apart, d) = elim (Bool-cases (has_hash h x)) [
    | inl same ↦
        rw same (ground (arith, select-update x.invoice_hash t, apart), update-Distinct t d)
    | inr other ↦
        rw other (ground (arith, select-update x.invoice_hash t, apart), update-Distinct t d)
  ]

-- The next index is above every index.
pub select-lt-next_index :
    (p : Row → Bool) (t : Table) {r : Row} → select p t ≡ some r → r.derivation_index < next_index t
unfolding select next_index
select-lt-next_index p [] e = cc
select-lt-next_index p (x ∷ t) {r} e = elim (Bool-cases (p x)) [
  | inl holds ↦ ground (arith, rw (holds, select) at e)
  | inr fails ↦ ground (arith, select-lt-next_index p t (rw (fails, select) at e))
]
