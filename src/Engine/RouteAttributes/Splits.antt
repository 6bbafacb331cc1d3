-- ===== src/Engine/RouteAttributes/Splits.antt =====
-- Which routes split into two words, and into which.
use otel_ecom_load_genrator.Prelude.{
  ◌≡◌, ◌≢◌, ◌∙◌, ap, refl, subst, Bool-cases, Option-cases, true, false, inl, inr, Option, none,
  some, List, [], ◌∷◌, ◌++◌, arith, ◌↔◌, Mem, if◌then◌else◌,
}
use otel_ecom_load_genrator.Prelude.Text.{
  Text, text_eq, text_eq_iff, contains, contains_iff, to_lower, to_upper, trim_space, cut, Lacks,
}
use otel_ecom_load_genrator.Prelude.Text.Cut.{cut-some}
use otel_ecom_load_genrator.Engine.RouteAttributes.{
  http_methods, messaging_operations, split_http_route, split_messaging_route, cut-append,
}

-- The route has a space; the part before the first one, in the given case, is one of the words; and
-- what is behind it is, without the space around it, not empty.
abbrev pub Splits : (Text → Text) → List Text → Text → Text → Text → Type 0
Splits case words route word behind =
    (first : Text) × (rest : Text) × Lacks 32 first
    × (route ≡ first ++ 32 ∷ rest)
    × (case first ≡ word)
    × Mem word words
    × (trim_space rest ≡ behind)
    × (behind ≢ [])

-- Both ways to split a route: how the first word is written, and which first words there are.
abbrev split_words : (Text → Text) → List Text → Option (Text × Text) → Option (Text × Text)
split_words case words r = elim r [
  | none ↦ none
  | some (first, behind) ↦
      if contains (case first) words
      then (if text_eq (trim_space behind) [] then none else some (case first, trim_space behind))
      else none
]

module _ (case : Text → Text) (words : List Text) (route word behind : Text) where
  split_words-Splits :
      split_words case words (cut 32 route) ≡ some (word, behind)
      → Splits case words route word behind
  split_words-Splits h = elim (Option-cases (cut 32 route)) [
    | inl e ↦ absurd (ground arith)
    | inr ((first, rest), e) ↦
        let (lacks, whole) = cut-some 32 route first rest e in
        elim (Bool-cases (contains (case first) words)) [
          | inr unknown ↦ absurd (ground arith)
          | inl known ↦ elim (Bool-cases (text_eq (trim_space rest) [])) [
            | inl nothing ↦ absurd (ground arith)
            | inr something ↦
                let same : case first ≡ word = ground arith in
                let same' : trim_space rest ≡ behind = ground arith in
                let listed = (contains_iff (case first) words).0 known in
                (
                  first,
                  rest,
                  lacks,
                  whole,
                  same,
                  subst (λ m. Mem m words) same listed,
                  same',
                  subst (λ p. p ≢ []) same'
                      (λ e'. let empty = (text_eq_iff (trim_space rest) []).1 e' in ground arith),
                )
          ]
        ]
  ]

  Splits-split_words :
      Splits case words route word behind
      → split_words case words (cut 32 route) ≡ some (word, behind)
  Splits-split_words (first, rest, lacks, whole, written, listed, trimmed, something) =
      let known : contains word words ≡ true = (contains_iff word words).1 listed in
      let present : text_eq behind [] ≡ false = ground (arith, text_eq_iff behind []) in
      let cuts : cut 32 route ≡ some (first, rest) =
        ap (cut 32) whole ∙ cut-append 32 first rest lacks in
      rw (cuts, written, trimmed, known, present) refl

-- A route splits into a method and a path exactly where it has a space, the part before the first one
-- is in upper case one of the HTTP methods, and the rest is not blank; they are that part in upper
-- case and the rest without the space around it. It splits into an operation and a destination in the
-- same way, with the messaging operations and lower case.
pub split_routes_iff :
    (route word behind : Text)
    → ((split_http_route route ≡ some (word, behind))
        ↔ Splits to_upper http_methods route word behind)
      × ((split_messaging_route route ≡ some (word, behind))
          ↔ Splits to_lower messaging_operations route word behind)
unfolding split_http_route split_messaging_route
split_routes_iff route word behind = (
  (
    split_words-Splits to_upper http_methods route word behind,
    Splits-split_words to_upper http_methods route word behind,
  ),
  (
    split_words-Splits to_lower messaging_operations route word behind,
    Splits-split_words to_lower messaging_operations route word behind,
  ),
)
