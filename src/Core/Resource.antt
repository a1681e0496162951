-- ===== src/Core/Resource.antt =====
-- resource.ts: the normal form of a request, and its hash. `new URL(text)` and SHA-256 are the
-- platform's, and stand in the record `Platform`.
use x402_xec.Common.{
  ℕ, ◌-◌, Bool, Option, none, some, List, [], ◌∷◌, ◌&&◌, ◌||◌, not, Text, codes, leb, nat_beq,
  starts_with, includes, all, ◌==◌, text_eq, if◌then◌else◌,
}
use x402_xec.Common.Maybe.{◌>>=◌}
use x402_xec.Core.Json.{Json, null, str, arr, obj, Items, nil, cons, end, field}
use x402_xec.Core.Canonical.{canonicalize, text_lt}

-- The parts of a parsed URL that the program reads.
pub record Url : Type 0 where
  pub protocol : Text
  pub username : Text
  pub password : Text
  pub pathname : Text
  pub search : Text
  pub hash : Text
  pub origin : Text

pub record Platform : Type 0 where
  pub sha256_hex : Text → Text
  pub parse_url : Text → Option Url

pub record QueryPair : Type 0 where
  pub key : Text
  pub value : Text

pub record ResourceRequest : Type 0 where
  pub server_origin : Text
  pub method : Text
  pub path : Text
  pub query : Option (List QueryPair)
  pub body : Option Json

abbrev is_alphanumeric : ℕ → Bool
is_alphanumeric c =
    (leb b'0' c && leb c b'9') || (leb b'A' c && leb c b'Z') || (leb b'a' c && leb c b'z')

-- The characters of `HTTP_TOKEN`.
abbrev is_token_unit : ℕ → Bool
is_token_unit c =
    is_alphanumeric c
    || nat_beq c b'!'
    || (leb b'#' c && leb c b'\'')
    || nat_beq c b'*'
    || nat_beq c b'+'
    || nat_beq c b'-'
    || nat_beq c b'.'
    || (leb b'^' c && leb c b'`')
    || nat_beq c b'|'
    || nat_beq c b'~'

abbrev upper_unit : ℕ → ℕ
upper_unit c = if leb b'a' c && leb c b'z' then c - 32 else c

-- `toUpperCase` of a token, which is ASCII.
unfoldable pub to_upper_case : Text → Text
to_upper_case [] = []
to_upper_case (c ∷ s) = upper_unit c ∷ to_upper_case s

unfoldable pub normalize_method : Text → Option Text
unfolding to_upper_case
normalize_method [] = none
normalize_method (c ∷ s) = if all is_token_unit (c ∷ s) then some (to_upper_case (c ∷ s)) else none

unfoldable pub validate_path : Text → Option Text
validate_path path =
    if not (starts_with path (codes "/"))
      || starts_with path (codes "//")
      || includes path (codes "?")
      || includes path (codes "#")
    then none
    else some path

abbrev is_empty : Text → Bool
is_empty s = s == []

unfoldable pub origin_of : Url → Option Text
origin_of url =
    if not (url.protocol == codes "https:") && not (url.protocol == codes "http:")
    then none
    else if not (is_empty url.username) || not (is_empty url.password)
    then none
    else if not (url.pathname == codes "/") || not (is_empty url.search) || not (is_empty url.hash)
    then none
    else some url.origin

-- A pair goes behind those whose key is smaller: equal keys keep their order.
insert_pair : QueryPair → List QueryPair → List QueryPair
insert_pair p [] = p ∷ []
insert_pair p (q ∷ qs) = if text_lt q.key p.key then q ∷ insert_pair p qs else p ∷ q ∷ qs

unfoldable pub canonical_query : List QueryPair → List QueryPair
unfolding insert_pair
canonical_query [] = []
canonical_query (p ∷ ps) = insert_pair p (canonical_query ps)

query_json : List QueryPair → Items
query_json [] = nil
query_json (p ∷ ps) = cons (arr (cons (str p.key) (cons (str p.value) nil))) (query_json ps)

abbrev or_null : Option Json → Json
or_null none = null
or_null (some j) = j

abbrev or_empty : Option (List QueryPair) → List QueryPair
or_empty none = []
or_empty (some ps) = ps

module _ (p : Platform) where
  -- `canonicalHash`; `none` where canonicalize throws.
  unfoldable pub canonical_hash : Json → Option Text
  canonical_hash value = do text ← canonicalize value; some (p.sha256_hex text)

  unfoldable pub normalize_server_origin : Text → Option Text
  unfolding origin_of
  normalize_server_origin input = do url ← p.parse_url input; origin_of url

  unfoldable pub compute_body_and_query_hash : ResourceRequest → Option Text
  unfolding canonical_hash query_json
  compute_body_and_query_hash r = canonical_hash (
      obj (
        field (codes "body") (or_null r.body)
          (field (codes "query") (arr (query_json (canonical_query (or_empty r.query)))) end)))

  -- `none` where the request is refused by a TypeError.
  unfoldable pub compute_resource_hash : ResourceRequest → Option Text
  unfolding canonical_hash compute_body_and_query_hash normalize_server_origin
  compute_resource_hash r = do
    body_and_query_hash ← compute_body_and_query_hash r
    method ← normalize_method r.method
    path ← validate_path r.path
    origin ← normalize_server_origin r.server_origin
    canonical_hash (
        obj (
          field (codes "bodyAndQueryHash") (str body_and_query_hash) (
            field (codes "method") (str method)
              (field (codes "path") (str path) (field (codes "serverOrigin") (str origin) end)))))
