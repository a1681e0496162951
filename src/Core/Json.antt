-- ===== src/Core/Json.antt =====
-- The values of JavaScript that reach the program from outside: numbers and JSON.
use x402_xec.Common.{
  ◌%◌, ltb, arith, nat_eq, ◌≡◌, ◌≤◌, ◌<◌, ◌+◌, ◌*◌, ℕ, ◌^◌, ◌-◌, Bool, true, false, Option, none,
  some, List, [], ◌∷◌, ◌&&◌, Text, leb, if◌then◌else◌, ◌==◌, text_eq,
}

-- A JavaScript number. The integers whose digits JSON.stringify prints in full, those below 1e21 on
-- either side, are `nonneg n` for n and `negative n` for -(n + 1); `inexact s` is any other finite
-- number, with the text that JSON.stringify gives it, and `not_finite` is NaN or an infinity.
pub data Number : Type 0 where
  nonneg : ℕ → Number
  negative : ℕ → Number
  inexact : Text → Number
  not_finite : Number

-- `Number.MAX_SAFE_INTEGER`
abbrev pub max_safe_integer : ℕ
max_safe_integer = 2 ^ 53 - 1

-- A number that passes `Number.isSafeInteger(n)` and `n >= 0`, as the source tests its clocks,
-- timestamps and indices.
unfoldable pub safe_nonnegative : Number → Option ℕ
safe_nonnegative (nonneg n) = if leb n max_safe_integer then some n else none
safe_nonnegative (negative n) = none
safe_nonnegative (inexact s) = none
safe_nonnegative not_finite = none

-- Below it adding one is exact.
abbrev pub exact_limit : ℕ
exact_limit = 2 ^ 53

-- `n + 1` on a number that is an integer and not negative. From 2^53 on only every second integer
-- is a double, and from 2^54 on fewer: the sum is rounded to the nearest double, a tie to the one
-- with the even mantissa.
unfoldable pub add_one : ℕ → ℕ
add_one n =
    if ltb n exact_limit then n + 1 else if ltb n (2 * exact_limit) && n % 4 == 2 then n + 2 else n

pub le-add_one : (n : ℕ) → n ≤ add_one n
unfolding add_one
le-add_one n = ground arith

pub add_one-exact : (n : ℕ) → n < exact_limit → add_one n ≡ n + 1
unfolding add_one
add_one-exact n h = ground arith

mutual
  pub data Json : Type 0 where
    null : Json
    bool : Bool → Json
    num : Number → Json
    str : Text → Json
    arr : Items → Json
    obj : Fields → Json

  pub data Items : Type 0 where
    nil : Items
    cons : Json → Items → Items

  pub data Fields : Type 0 where
    end : Fields
    field : Text → Json → Fields → Fields

-- `o[key]`, with `undefined` as `none`.
unfoldable pub field? : Text → Fields → Option Json
field? key end = none
field? key (field k v fs) = if k == key then some v else field? key fs

abbrev contains : Text → List Text → Bool
contains k [] = false
contains k (x ∷ xs) = if k == x then true else contains k xs

-- Every key of the object is one of `allowed`, as `.strict()` demands.
unfoldable pub only_keys : List Text → Fields → Bool
only_keys allowed end = true
only_keys allowed (field k v fs) = contains k allowed && only_keys allowed fs
