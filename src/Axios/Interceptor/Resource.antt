-- ===== src/Axios/Interceptor/Resource.antt =====
-- The resource that interceptor.ts reads from an answer.
use x402_xec.Axios.Interceptor.{
  cons, str, nil, resource_query, QueryPair, obj, resource_fields, pairs_of_query, ResourceRequest,
  parse_resource,
}
use x402_xec.Common.{
  Option-cases, inl, inr, List, ◌∷◌, [], ◌⊎◌, refl, ok, some, none, arith, subst, Option, Text,
  codes, text_eq, nat_eq, ◌≡◌,
}
use x402_xec.Core.Json.{Json, arr, Fields, Items, field?}

-- The items are the pairs, in their order.
pub data ArePairs : Items → List QueryPair → Type 0 where
  no_pairs : ArePairs nil []
  pair :
      {key value : Text} {items : Items} {pairs : List QueryPair}
      → ArePairs items pairs
      → ArePairs
          (cons (arr (cons (str key) (cons (str value) nil))) items)
          (record { key = key; value = value } ∷ pairs)

-- The resource that the answer names: its three texts, its query as pairs, and its body, each left
-- out where the answer leaves it out.
pub record IsResource (resource : Option Json) (r : ResourceRequest) : Type 0 where
  pub named : Fields
  pub is_object : resource ≡ some (obj named)
  pub server_origin : field? (codes "serverOrigin") named ≡ some (str r.server_origin)
  pub method : field? (codes "method") named ≡ some (str r.method)
  pub path : field? (codes "path") named ≡ some (str r.path)
  pub query :
      (field? (codes "query") named ≡ none) × (r.query ≡ none)
      ⊎ ((items : Items) × (pairs : List QueryPair) × (field? (codes "query") named
            ≡ some (arr items))
          × ArePairs items pairs
          × (r.query ≡ some pairs))
  pub body : r.body ≡ field? (codes "body") named

pairs_of_query-ArePairs :
    (items : Items) {pairs : List QueryPair}
    → pairs_of_query items ≡ some pairs
    → ArePairs items pairs
unfolding pairs_of_query
pairs_of_query-ArePairs nil {pairs} h =
    let same : [] ≡ pairs = ground arith in subst (ArePairs nil) same ArePairs.no_pairs
pairs_of_query-ArePairs (cons (arr (cons (str k) (cons (str v) nil))) rest) {pairs} h =
    elim (Option-cases (pairs_of_query rest)) [
      | inl unread ↦ cc (rw (pairs_of_query, unread) at h)
      | inr (behind, read) ↦
          let same : (record { key = k; value = v }) ∷ behind ≡ pairs =
            cc (rw (pairs_of_query, read) at h) in
          subst (ArePairs (cons (arr (cons (str k) (cons (str v) nil))) rest)) same
            (ArePairs.pair (pairs_of_query-ArePairs rest read))
    ]
pairs_of_query-ArePairs items h = ground arith

resource_query_lem :
    (o : Option Json) {query : Option (List QueryPair)}
    → resource_query o ≡ some query
    → (o ≡ none) × (query ≡ none)
      ⊎ ((items : Items) × (pairs : List QueryPair) × (o ≡ some (arr items))
          × ArePairs items pairs
          × (query ≡ some pairs))
unfolding resource_query
resource_query_lem none h = inl (refl, ground arith)
resource_query_lem (some (arr items)) h = elim (Option-cases (pairs_of_query items)) [
  | inl unread ↦ cc (rw (resource_query, unread) at h)
  | inr (pairs, read) ↦
      inr (
        items,
        pairs,
        refl,
        pairs_of_query-ArePairs items read,
        cc (rw (resource_query, read) at h),
      )
]
resource_query_lem o h = ground arith

resource_fields_lem :
    (fs : Fields) (a b c : Option Json) {r : ResourceRequest}
    → resource_fields a b c fs ≡ ok r
    → (a ≡ some (str r.server_origin))
      × (b ≡ some (str r.method))
      × (c ≡ some (str r.path))
      × (resource_query (field? (codes "query") fs) ≡ some r.query)
      × (r.body ≡ field? (codes "body") fs)
unfolding resource_fields
resource_fields_lem fs a b c h = ground arith

pub parse_resource-IsResource :
    (resource : Option Json) {r : ResourceRequest}
    → parse_resource resource ≡ ok r
    → IsResource resource r
unfolding parse_resource
parse_resource-IsResource (some (obj gs)) h =
    let (origin, method, path, query, body) = resource_fields_lem gs _ _ _ h in
    record {
      named = gs;
      is_object = refl;
      server_origin = origin;
      method = method;
      path = path;
      query = resource_query_lem (field? (codes "query") gs) query;
      body = body;
    }
parse_resource-IsResource resource h = ground arith
