-- ===== src/Core/SqliteStore/Unique.antt =====
-- The UNIQUE columns of sqlite-invoice-store.ts after any calls of the store.
use x402_xec.Core.SqliteStore.Rows.Select.{
  select-update, select-holds, select-append, append-Distinct, select-by-hash, update-Distinct,
  Distinct, select-none,
}
use x402_xec.Common.{
  ◌==◌, text_eq, ◌∙◌, sym, Bool-cases, ◌∷◌, if◌then◌else◌, inl, inr, none, some, [], true, false,
  ◌⊎◌, Option-cases, text_beq_iff, ◌++◌, ℕ, ◌≡◌, Text, arith,
}
use x402_xec.Core.SqliteStore.Rows.{
  settled_row, Row, Table, Column, invoice_hash_column, nonce_column, pay_to_column,
  derivation_index_column, settled_txid_column, select, has_hash, agree, is_taken,
}
use x402_xec.Core.SqliteStore.{update_settled, is_settled_by, is_other}

-- Rows of the table that agree in a UNIQUE column are one.
pub record IsTable (t : Table) : Type 0 where
  pub distinct : Distinct t
  pub unique :
      (c : Column) (h k : Text) (r s : Row)
      → select (has_hash h) t ≡ some r
      → select (has_hash k) t ≡ some s
      → agree c r s ≡ true
      → h ≡ k

agree_sym : (c : Column) (r s : Row) → agree c r s ≡ true → agree c s r ≡ true
unfolding agree
agree_sym invoice_hash_column r s e =
    ground (
      arith,
      text_beq_iff s.invoice_hash r.invoice_hash,
      text_beq_iff r.invoice_hash s.invoice_hash,
    )
agree_sym nonce_column r s e =
    ground (arith, text_beq_iff s.nonce r.nonce, text_beq_iff r.nonce s.nonce)
agree_sym pay_to_column r s e =
    ground (arith, text_beq_iff s.pay_to r.pay_to, text_beq_iff r.pay_to s.pay_to)
agree_sym derivation_index_column r s e = ground arith
agree_sym settled_txid_column r s e = elim (Option-cases r.settled_txid) [
  | inl e1 ↦ ground arith
  | inr (a, e1) ↦ elim (Option-cases s.settled_txid) [
    | inl e2 ↦ ground arith
    | inr (b, e2) ↦ ground (arith, text_beq_iff a b, text_beq_iff b a)
  ]
]

module _ (t : Table) (good : IsTable t) (r : Row)
    (free : (c : Column) → is_taken c r t ≡ false) where
  not_taken : (c : Column) → select (agree c r) t ≡ none
  not_taken c = ground (arith, free c)

  -- The row of a hash is the new one, or was there before.
  found_in_append :
      (h : Text) (x : Row)
      → select (has_hash h) (t ++ r ∷ []) ≡ some x
      → (select (has_hash h) t ≡ some x) ⊎ ((x ≡ r) × (r.invoice_hash ≡ h))
  found_in_append h x e = elim (Option-cases (select (has_hash h) t)) [
    | inl missing ↦
        inr (
          ground (arith, e, select-append (has_hash h) t r, missing, text_beq_iff r.invoice_hash h))
    | inr (y, there) ↦ inl (ground (arith, e, select-append (has_hash h) t r, there))
  ]

  append_unique :
      (c : Column) (h k : Text) (x y : Row)
      → select (has_hash h) (t ++ r ∷ []) ≡ some x
      → select (has_hash k) (t ++ r ∷ []) ≡ some y
      → agree c x y ≡ true
      → h ≡ k
  append_unique c h k x y at_h at_k same = elim (found_in_append h x at_h) [
    | inl old ↦ elim (found_in_append k y at_k) [
      | inl older ↦ good.unique c h k x y old older same
      | inr (new, by) ↦ ground (
        arith,
        select-none (agree c r) (has_hash h) t (not_taken c) old,
        agree_sym c x r (rw (← new) same),
      )
    ]
    | inr (new, by) ↦
        let agrees : agree c r y ≡ true = rw (← new) same in
        elim (found_in_append k y at_k) [
          | inl old ↦
              ground (arith, select-none (agree c r) (has_hash k) t (not_taken c) old, agrees)
          | inr (new', by') ↦ sym by ∙ by'
        ]
  ]

  pub append-IsTable : IsTable (t ++ r ∷ [])
  unfolding agree
  append-IsTable = record {
    distinct = append-Distinct t r good.distinct (not_taken invoice_hash_column);
    unique = append_unique;
  }

pub settled_agree :
    (txid : Text) (x y : Row)
    → is_settled_by txid x ≡ true
    → is_settled_by txid y ≡ true
    → agree settled_txid_column x y ≡ true
unfolding agree
settled_agree txid x y by_x by_y = elim (Option-cases x.settled_txid) [
  | inl e1 ↦ cc (rw e1 at by_x)
  | inr (a, e1) ↦ ground (arith, e1, by_x, by_y, text_beq_iff a txid)
]

module _ (txid : Text) (paid_at : ℕ) where
  agree-settled :
      (c : Column) (x y : Row)
      → agree c (settled_row txid paid_at x) y ≡ true
      → (agree c x y ≡ true) ⊎ (is_settled_by txid y ≡ true)
  unfolding agree
  agree-settled invoice_hash_column x y e = inl e
  agree-settled nonce_column x y e = inl e
  agree-settled pay_to_column x y e = inl e
  agree-settled derivation_index_column x y e = inl e
  agree-settled settled_txid_column x y e = inr e

module _ (txid h : Text) (paid_at : ℕ) (t : Table) (good : IsTable t)
    (free : is_other h (select (is_settled_by txid) t) ≡ false) where
  -- A row that the transaction settles is under `h`.
  pub settled_here :
      (k : Text) (y : Row) → select (has_hash k) t ≡ some y → is_settled_by txid y ≡ true → h ≡ k
  unfolding agree
  settled_here k y there by = elim (Option-cases (select (is_settled_by txid) t)) [
    | inl missing ↦ ground (arith, select-none (is_settled_by txid) (has_hash k) t missing there)
    | inr (x, found) ↦
        good.unique settled_txid_column h k x y
          (ground (
            arith,
            select-by-hash (is_settled_by txid) t good.distinct found,
            rw found at free,
            text_beq_iff x.invoice_hash h,
          ))
          there (settled_agree txid x y (select-holds (is_settled_by txid) t found) by)
  ]

  found_in_update :
      (k : Text) (x : Row)
      → select (has_hash k) (update_settled txid h paid_at t) ≡ some x
      → (y : Row) × (select (has_hash k) t ≡ some y)
        × (x ≡ (if h == k then settled_row txid paid_at y else y))
  found_in_update k x e = elim (Option-cases (select (has_hash k) t)) [
    | inl missing ↦ cc (rw (select-update txid h paid_at k t, missing) at e)
    | inr (y, there) ↦ (y, there, ground (arith, rw (select-update txid h paid_at k t, there) at e))
  ]

  -- The settled row agrees only with itself.
  settled_unique :
      (c : Column) (b : Text) (x y : Row)
      → select (has_hash h) t ≡ some x
      → select (has_hash b) t ≡ some y
      → agree c (settled_row txid paid_at x) y ≡ true
      → h ≡ b
  settled_unique c b x y at_h at_b same = elim (agree-settled txid paid_at c x y same) [
    | inl before ↦ good.unique c h b x y at_h at_b before
    | inr by ↦ settled_here b y at_b by
  ]

  update_unique :
      (c : Column) (a b : Text) (x y : Row)
      → select (has_hash a) (update_settled txid h paid_at t) ≡ some x
      → select (has_hash b) (update_settled txid h paid_at t) ≡ some y
      → agree c x y ≡ true
      → a ≡ b
  update_unique c a b x y at_a at_b same =
      let (x0, x0_at, x_is) = found_in_update a x at_a in
      let (y0, y0_at, y_is) = found_in_update b y at_b in
      elim (Bool-cases (h == a)) [
        | inl h_a ↦ elim (Bool-cases (h == b)) [
          | inl h_b ↦ ground (arith, text_beq_iff h a, text_beq_iff h b)
          | inr o_b ↦
              let e : h ≡ a = (text_beq_iff h a).0 h_a in
              sym e
              ∙ settled_unique c b x0 y0 (rw e x0_at) y0_at (rw (x_is, y_is, h_a, o_b) at same)
        ]
        | inr o_a ↦ elim (Bool-cases (h == b)) [
          | inl h_b ↦
              let e : h ≡ b = (text_beq_iff h b).0 h_b in
              sym (
                sym e
                ∙ settled_unique c a y0 x0 (rw e y0_at) x0_at (
                    agree_sym c x0 (settled_row txid paid_at y0)
                      (rw (x_is, y_is, o_a, h_b) at same)))
          | inr o_b ↦ good.unique c a b x0 y0 x0_at y0_at (rw (x_is, y_is, o_a, o_b) at same)
        ]
      ]

  pub update-IsTable : IsTable (update_settled txid h paid_at t)
  update-IsTable = record {
    distinct = update-Distinct txid h paid_at t good.distinct;
    unique = update_unique;
  }
