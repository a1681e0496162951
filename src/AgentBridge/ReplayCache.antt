-- ===== src/AgentBridge/ReplayCache.antt =====
-- replay-cache.ts: the invoices and nonces that are in flight or were authorized. Each method runs
-- without an interruption, and is a function of the cache.
pub mod Exclusion
pub mod History
use x402_xec.Common.{
  if◌then◌else◌, ℕ, ◌+◌, Bool, true, false, not, Option, none, some, List, [], ◌∷◌, ◌||◌, Text, leb,
  ltb, text_eq, Result, ok, err, ◌>>=◌, ◌>>◌, reject,
}
use x402_xec.Common.Dict.{Dict, get, has, set, remove, retain}

pub data ErrorCode : Type 0 where
  concurrent_conflict duplicate_invoice nonce_reuse : ErrorCode

pub record CacheEntry : Type 0 where
  pub invoice_hash : Text
  pub nonce : Text
  pub expires_at : ℕ

-- A `Set` is a dictionary without values.
pub record Cache : Type 0 where
  pub in_flight_invoices : Dict Text (Unit {0})
  pub in_flight_nonces : Dict Text (Unit {0})
  pub committed_invoices : Dict Text CacheEntry
  pub committed_nonces : Dict Text CacheEntry

abbrev pub empty_cache : Cache
empty_cache = record {
  in_flight_invoices = [];
  in_flight_nonces = [];
  committed_invoices = [];
  committed_nonces = [];
}

abbrev pub is_live : ℕ → CacheEntry → Bool
is_live now entry = not (leb entry.expires_at now)

-- How many entries of the loop are dropped.
count_expired : ℕ → Dict Text CacheEntry → ℕ
count_expired now [] = 0
count_expired now ((key, entry) ∷ m) =
    let rest = count_expired now m in if is_live now entry then rest else rest + 1

unfoldable pub prune : ℕ → Cache → Cache × ℕ
unfolding count_expired
prune now c = (
  record c {
    committed_invoices = retain (is_live now) c.committed_invoices;
    committed_nonces = retain (is_live now) c.committed_nonces;
  },
  count_expired now c.committed_invoices,
)

-- `existing && existing.expiresAt > now`
abbrev pub outlasts : ℕ → Option CacheEntry → Bool
outlasts now none = false
outlasts now (some entry) = ltb now entry.expires_at

-- The tests of `reserve`, on the cache that was pruned.
unfoldable pub check_reservation : Text → Text → ℕ → Cache → Result ErrorCode (Unit {0})
check_reservation invoice_hash nonce now c = do
  reject (has c.in_flight_invoices invoice_hash) concurrent_conflict
  reject (has c.in_flight_nonces nonce) concurrent_conflict
  reject (outlasts now (get c.committed_invoices invoice_hash)) duplicate_invoice
  reject (outlasts now (get c.committed_nonces nonce)) nonce_reuse

-- The entry's expiry is a parameter of the source's method that its body does not use.
unfoldable pub reserve : Text → Text → ℕ → ℕ → Cache → Cache × Result ErrorCode (Unit {0})
reserve invoice_hash nonce expires_at now c =
    let pruned = (prune now c).0 in
    elim (check_reservation invoice_hash nonce now pruned) [
      | err code ↦ (pruned, err code)
      | ok u ↦ (
        record pruned {
          in_flight_invoices = set pruned.in_flight_invoices invoice_hash tt;
          in_flight_nonces = set pruned.in_flight_nonces nonce tt;
        },
        ok tt,
      )
    ]

unfoldable pub rollback : Text → Text → Cache → Cache
rollback invoice_hash nonce c = record c {
  in_flight_invoices = remove c.in_flight_invoices invoice_hash;
  in_flight_nonces = remove c.in_flight_nonces nonce;
}

unfoldable pub commit : Text → Text → ℕ → Cache → Cache
commit invoice_hash nonce expires_at c =
    let entry : CacheEntry = record {
      invoice_hash = invoice_hash;
      nonce = nonce;
      expires_at = expires_at;
    } in
    record (rollback invoice_hash nonce c) {
      committed_invoices = set c.committed_invoices invoice_hash entry;
      committed_nonces = set c.committed_nonces nonce entry;
    }

abbrev pub has_seen_invoice : Text → Cache → Bool
has_seen_invoice invoice_hash c =
    has c.committed_invoices invoice_hash || has c.in_flight_invoices invoice_hash

abbrev pub has_seen_nonce : Text → Cache → Bool
has_seen_nonce nonce c = has c.committed_nonces nonce || has c.in_flight_nonces nonce

abbrev pub is_in_flight : Text → Text → Cache → Bool
is_in_flight invoice_hash nonce c =
    has c.in_flight_invoices invoice_hash || has c.in_flight_nonces nonce
