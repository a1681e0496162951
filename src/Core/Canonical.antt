-- ===== src/Core/Canonical.antt =====
-- canonicalize.ts: canonical JSON, the text that every hash of the protocol is taken of. A value
-- here is JSON already, so the source's refusal of other objects has no case.
use x402_xec.Common.{
  ℕ, ◌+◌, ◌-◌, ◌/◌, ◌%◌, Bool, true, false, Option, none, some, List, [], ◌∷◌, ◌++◌, ◌&&◌, ◌||◌,
  not, Text, codes, leb, ltb, nat_beq, if◌then◌else◌,
}
use x402_xec.Common.Decimal.{to_decimal}
use x402_xec.Common.Maybe.{◌>>=◌}
use x402_xec.Core.Json.{
  Number, nonneg, negative, inexact, not_finite, Json, null, bool, num, str, arr, obj, Items, nil,
  cons, Fields, end, field,
}

abbrev is_high_surrogate : ℕ → Bool
is_high_surrogate c = leb 0xD800 c && leb c 0xDBFF

abbrev is_low_surrogate : ℕ → Bool
is_low_surrogate c = leb 0xDC00 c && leb c 0xDFFF

abbrev hex_digit : ℕ → ℕ
hex_digit d = if ltb d 10 then b'0' + d else b'a' + (d - 10)

abbrev unicode_escape : ℕ → Text
unicode_escape c =
    b'\\'
    ∷ b'u'
    ∷ hex_digit (c / 4096)
    ∷ hex_digit (c / 256 % 16)
    ∷ hex_digit (c / 16 % 16)
    ∷ hex_digit (c % 16)
    ∷ []

-- One code unit inside a JSON string. `after_high` says that a high surrogate stands before it,
-- and `before_low` that a low one follows: a surrogate alone is escaped.
escape_unit : Bool → Bool → ℕ → Text
escape_unit after_high before_low c =
    if nat_beq c b'"' || nat_beq c b'\\'
    then b'\\' ∷ c ∷ []
    else if nat_beq c 8
    then codes "\\b"
    else if nat_beq c 9
    then codes "\\t"
    else if nat_beq c 10
    then codes "\\n"
    else if nat_beq c 12
    then codes "\\f"
    else if nat_beq c 13
    then codes "\\r"
    else if ltb c 32
        || (is_high_surrogate c && not before_low)
        || (is_low_surrogate c && not after_high)
    then unicode_escape c
    else c ∷ []

abbrev next_is_low : Text → Bool
next_is_low [] = false
next_is_low (c ∷ s) = is_low_surrogate c

escape_from : Bool → Text → Text
escape_from after_high [] = []
escape_from after_high (c ∷ s) =
    let paired = is_high_surrogate c && next_is_low s in
    escape_unit after_high paired c ++ escape_from paired s

-- `JSON.stringify` of a string.
unfoldable pub quote : Text → Text
unfolding escape_from escape_unit
quote s = b'"' ∷ escape_from false s ++ b'"' ∷ []

-- `a < b` on strings, by code units.
unfoldable pub text_lt : Text → Text → Bool
text_lt s [] = false
text_lt [] (b ∷ t) = true
text_lt (a ∷ s) (b ∷ t) = ltb a b || (nat_beq a b && text_lt s t)

abbrev pub Entry : Type 0
Entry = Text × Text

-- The stable sort of an object's entries by key.
insert_entry : Entry → List Entry → List Entry
insert_entry (k, v) [] = (k, v) ∷ []
insert_entry (k, v) ((j, w) ∷ es) =
    if text_lt j k then (j, w) ∷ insert_entry (k, v) es else (k, v) ∷ (j, w) ∷ es

sort_entries : List Entry → List Entry
sort_entries [] = []
sort_entries (e ∷ es) = insert_entry e (sort_entries es)

-- `texts.join(",")`
unfoldable pub join_comma : List Text → Text
join_comma [] = []
join_comma (t ∷ []) = t
join_comma (t ∷ u ∷ ts) = t ++ b',' ∷ join_comma (u ∷ ts)

show_entries : List Entry → List Text
show_entries [] = []
show_entries ((k, v) ∷ es) = (quote k ++ b':' ∷ v) ∷ show_entries es

canonical_number : Number → Option Text
canonical_number (nonneg n) = some (to_decimal n)
canonical_number (negative n) = some (b'-' ∷ to_decimal (n + 1))
canonical_number (inexact s) = some s
canonical_number not_finite = none

unfoldable mutual
  unfolding canonical_number show_entries sort_entries insert_entry quote text_lt join_comma

  -- `none` is the TypeError for a number that is not finite.
  pub canonicalize : Json → Option Text
  canonicalize null = some (codes "null")
  canonicalize (bool true) = some (codes "true")
  canonicalize (bool false) = some (codes "false")
  canonicalize (num n) = canonical_number n
  canonicalize (str s) = some (quote s)
  canonicalize (arr xs) = do
    items ← canonicalize_items xs
    some (b'[' ∷ join_comma items ++ b']' ∷ [])
  canonicalize (obj fs) = do
    entries ← canonicalize_fields fs
    some (b'{' ∷ join_comma (show_entries (sort_entries entries)) ++ b'}' ∷ [])

  pub canonicalize_items : Items → Option (List Text)
  canonicalize_items nil = some []
  canonicalize_items (cons x xs) = do
    item ← canonicalize x
    items ← canonicalize_items xs
    some (item ∷ items)

  pub canonicalize_fields : Fields → Option (List Entry)
  canonicalize_fields end = some []
  canonicalize_fields (field k v fs) = do
    item ← canonicalize v
    entries ← canonicalize_fields fs
    some ((k, item) ∷ entries)
