-- ===== src/Engine/RouteAttributes.antt =====
-- internal/engine/routeattrs.go: semantic-convention attributes derived from a route string. The
-- attribute keys are those that the source's comments give for the constants of package semconv.
pub mod Splits
use otel_ecom_load_genrator.Prelude.{
  ℕ, ◌≡◌, ◌≢◌, Bool, true, false, ◌||◌, Option, none, some, List, [], ◌∷◌, ◌++◌, arith,
  if◌then◌else◌,
}
use otel_ecom_load_genrator.Prelude.Text.{
  Text, bytes, text_eq, text_eq_iff, contains, to_lower, to_upper, trim_space, cut, Lacks,
}

abbrev pub http_methods : List Text
http_methods =
    bytes "GET"
    ∷ bytes "POST"
    ∷ bytes "PUT"
    ∷ bytes "PATCH"
    ∷ bytes "DELETE"
    ∷ bytes "HEAD"
    ∷ bytes "OPTIONS"
    ∷ bytes "TRACE"
    ∷ bytes "CONNECT"
    ∷ []

abbrev pub messaging_operations : List Text
messaging_operations =
    bytes "publish" ∷ bytes "send" ∷ bytes "consume" ∷ bytes "receive" ∷ bytes "process" ∷ []

-- The method in upper case and the path, where the route is an HTTP route.
unfoldable pub split_http_route : Text → Option (Text × Text)
unfolding cut to_upper contains trim_space
split_http_route route = elim (cut 32 route) [
  | none ↦ none
  | some (first, rest) ↦
      if contains (to_upper first) http_methods
      then (if text_eq (trim_space rest) [] then none else some (to_upper first, trim_space rest))
      else none
]

unfoldable pub split_messaging_route : Text → Option (Text × Text)
unfolding cut to_lower contains trim_space
split_messaging_route route = elim (cut 32 route) [
  | none ↦ none
  | some (first, rest) ↦
      if contains (to_lower first) messaging_operations
      then (if text_eq (trim_space rest) [] then none else some (to_lower first, trim_space rest))
      else none
]

unfoldable pub is_entry_point : Text → Bool
unfolding to_lower text_eq
is_entry_point span_kind =
    text_eq (to_lower span_kind) (bytes "server") || text_eq (to_lower span_kind) (bytes "consumer")

-- The attributes of a route that is trimmed and not empty.
unfoldable pub trimmed_attributes : Text → Text → List (Text × Text)
unfolding split_http_route split_messaging_route is_entry_point
trimmed_attributes route span_kind = elim (split_http_route route) [
  | some (method, path) ↦
      (bytes "http.request.method", method)
      ∷ (bytes "http.route", path)
      ∷ (if is_entry_point span_kind then (bytes "url.path", path) ∷ [] else [])
  | none ↦ elim (split_messaging_route route) [
    | some (op, dest) ↦
        (bytes "messaging.operation.name", op) ∷ (bytes "messaging.destination.name", dest) ∷ []
    | none ↦ (bytes "db.operation.name", route) ∷ []
  ]
]

unfoldable pub route_attributes : Text → Text → List (Text × Text)
unfolding trim_space trimmed_attributes
route_attributes route span_kind =
    if text_eq (trim_space route) [] then [] else trimmed_attributes (trim_space route) span_kind

pub cut-append :
    (sep : ℕ) (s rest : Text) → Lacks sep s → cut sep (s ++ sep ∷ rest) ≡ some (s, rest)
unfolding cut
cut-append sep [] rest h = ground arith
cut-append sep (c ∷ s) rest h = ground (arith, cut-append sep s rest)

snoc-ne-nil : (c : ℕ) (s rest : Text) → s ++ c ∷ rest ≢ []
snoc-ne-nil c [] rest h = cc
snoc-ne-nil c (x ∷ s) rest h = cc

module _ (word rest : Text) (lacks : Lacks 32 word) (trimmed : trim_space rest ≡ rest)
    (some_rest : rest ≢ []) where
  split_http :
      split_http_route (word ++ 32 ∷ rest)
      ≡ (if contains (to_upper word) http_methods then some (to_upper word, rest) else none)
  unfolding split_http_route
  split_http = ground (arith, cut-append 32 word rest lacks, text_eq_iff rest [])

  split_messaging :
      split_messaging_route (word ++ 32 ∷ rest)
      ≡ (if contains (to_lower word) messaging_operations then some (to_lower word, rest) else none)
  unfolding split_messaging_route
  split_messaging = ground (arith, cut-append 32 word rest lacks, text_eq_iff rest [])

module _ (word rest kind : Text) (lacks : Lacks 32 word)
    (whole : trim_space (word ++ 32 ∷ rest) ≡ word ++ 32 ∷ rest) (trimmed : trim_space rest ≡ rest)
    (some_rest : rest ≢ []) where
  not_empty : text_eq (word ++ 32 ∷ rest) [] ≡ false
  not_empty = ground (arith, text_eq_iff (word ++ 32 ∷ rest) [], snoc-ne-nil 32 word rest)

  -- A trimmed route "<method> <path>" is named by the method in upper case and by http.route, in
  -- whatever case the method is written, and an entry point also by url.path.
  pub route_attributes-http :
      contains (to_upper word) http_methods ≡ true
      → route_attributes (word ++ 32 ∷ rest) kind
        ≡ (bytes "http.request.method", to_upper word)
          ∷ (bytes "http.route", rest)
          ∷ (if is_entry_point kind then (bytes "url.path", rest) ∷ [] else [])
  unfolding route_attributes
  route_attributes-http h = ground (arith, not_empty, split_http word rest lacks trimmed some_rest)

  -- A trimmed route "<operation> <destination>" whose operation is no HTTP method is named by the
  -- two messaging attributes, the operation in lower case.
  pub route_attributes-messaging :
      contains (to_upper word) http_methods ≡ false
      → contains (to_lower word) messaging_operations ≡ true
      → route_attributes (word ++ 32 ∷ rest) kind
        ≡ (bytes "messaging.operation.name", to_lower word)
          ∷ (bytes "messaging.destination.name", rest)
          ∷ []
  unfolding route_attributes
  route_attributes-messaging h h' = ground (
    arith,
    not_empty,
    split_http word rest lacks trimmed some_rest,
    split_messaging word rest lacks trimmed some_rest,
  )
