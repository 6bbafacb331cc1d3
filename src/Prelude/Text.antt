-- ===== src/Prelude/Text.antt =====
-- Go strings as lists of bytes, and the functions of the package `strings` that the program calls.
-- Case mapping and trimming are those of ASCII text.
pub mod Cut
use Prim.Native.Nat.{ℕ, ◌+◌, ◌-◌}
use Prim.Native.Char.{code}
use Prim.Native.String.{String}
use mathlib.Core.Path.{◌≡◌, refl, ap, ◌∙◌}
use mathlib.Core.Logic.{◌≢◌, ◌↔◌}
use mathlib.Core.Bool.{Bool, true, false, not, ◌&&◌, ◌||◌}
use mathlib.Core.Option.{Option, none, some}
use mathlib.Core.List.{List, [], ◌∷◌, ◌++◌, map, reverse}
use native.Mathlib.Omega.{arith}
use otel_ecom_load_genrator.Prelude.Lists.{Mem, All}
use otel_ecom_load_genrator.Prelude.Tests.{ltb, leb, ◌==◌, if◌then◌else◌}

abbrev pub Text : Type 0
Text = List ℕ

-- The bytes of an ASCII literal.
abbrev pub bytes : String → Text
bytes String.[] = []
bytes (String.◌∷◌ c s) = code c ∷ bytes s

unfoldable pub text_eq : Text → Text → Bool
text_eq [] [] = true
text_eq (a ∷ s) (b ∷ t) = a == b && text_eq s t
text_eq _ _ = false

pub text_eq_iff : (s t : Text) → (text_eq s t ≡ true) ↔ (s ≡ t)
unfolding text_eq
text_eq_iff [] [] = (λ _. refl, λ _. refl)
text_eq_iff [] (b ∷ t) = (λ h. cc, λ h. cc)
text_eq_iff (a ∷ s) [] = (λ h. cc, λ h. cc)
text_eq_iff (a ∷ s) (b ∷ t) = ground (arith, text_eq_iff s t)

pub text_eq_refl : (s : Text) → text_eq s s ≡ true
text_eq_refl s = (text_eq_iff s s).1 refl

-- `a <= b` in the byte order of Go's strings.
unfoldable pub text_leb : Text → Text → Bool
text_leb [] t = true
text_leb (a ∷ s) [] = false
text_leb (a ∷ s) (b ∷ t) = ltb a b || (a == b && text_leb s t)

-- Membership, as a Go `map[string]bool` answers it.
unfoldable pub contains : Text → List Text → Bool
contains a [] = false
contains a (x ∷ xs) = text_eq x a || contains a xs

-- strings.ToLower and strings.ToUpper.
unfoldable pub lower_byte : ℕ → ℕ
lower_byte c = if leb b'A' c && leb c b'Z' then c + 32 else c

unfoldable pub upper_byte : ℕ → ℕ
upper_byte c = if leb b'a' c && leb c b'z' then c - 32 else c

unfoldable pub to_lower : Text → Text
unfolding lower_byte
to_lower s = map lower_byte s

unfoldable pub to_upper : Text → Text
unfolding upper_byte
to_upper s = map upper_byte s

-- strings.TrimSpace.
unfoldable pub is_space : ℕ → Bool
is_space c = c == 32 || (leb 9 c && leb c 13)

unfoldable pub trim_left : Text → Text
unfolding is_space
trim_left [] = []
trim_left (c ∷ s) = if is_space c then trim_left s else c ∷ s

unfoldable pub trim_space : Text → Text
unfolding trim_left
trim_space s = reverse (trim_left (reverse (trim_left s)))

-- strings.Cut at a one-byte separator: what stands before and behind its first occurrence.
unfoldable pub cut : ℕ → Text → Option (Text × Text)
cut sep [] = none
cut sep (c ∷ s) =
    if c == sep
    then some ([], s)
    else elim (cut sep s) [ none ↦ none | some (before, after) ↦ some (c ∷ before, after) ]

-- strings.Split at a one-byte separator: always at least one piece.
abbrev grow : ℕ → List Text → List Text
grow c [] = (c ∷ []) ∷ []
grow c (x ∷ xs) = (c ∷ x) ∷ xs

unfoldable pub split_byte : ℕ → Text → List Text
split_byte sep [] = [] ∷ []
split_byte sep (c ∷ s) = let rest = split_byte sep s in if c == sep then [] ∷ rest else grow c rest

-- The messages of errors.Join, one a line.
abbrev pub join_lines : List Text → Text
join_lines [] = []
join_lines (m ∷ []) = m
join_lines (m ∷ n ∷ ms) = m ++ 10 ∷ join_lines (n ∷ ms)

-- s[:i] for the first index i of a byte, and the whole text where it does not occur.
unfoldable pub before_byte : ℕ → Text → Text
before_byte sep [] = []
before_byte sep (c ∷ s) = if c == sep then [] else c ∷ before_byte sep s

-- strings.HasPrefix and strings.TrimPrefix in one: the rest behind the prefix.
unfoldable pub strip_prefix : Text → Text → Option Text
strip_prefix [] s = some s
strip_prefix (p ∷ ps) [] = none
strip_prefix (p ∷ ps) (c ∷ s) = if p == c then strip_prefix ps s else none

pub strip_prefix-append : (p s : Text) → strip_prefix p (p ++ s) ≡ some s
unfolding strip_prefix
strip_prefix-append [] s = refl
strip_prefix-append (c ∷ p) s = ground (arith, strip_prefix-append p s)

pub contains_iff : (a : Text) (xs : List Text) → (contains a xs ≡ true) ↔ Mem a xs
unfolding contains
contains_iff a [] = (λ h. cc, λ h. absurd h)
contains_iff a (x ∷ xs) = (
  λ h. ground (arith, text_eq_iff x a, contains_iff a xs),
  λ h. ground (arith, text_eq_iff x a, contains_iff a xs),
)

pub not-contains_iff : (a : Text) (xs : List Text) → (not (contains a xs) ≡ true) ↔ (¬ Mem a xs)
not-contains_iff a xs = ground (arith, contains_iff a xs)

pub not-text_eq_iff : (s t : Text) → (not (text_eq s t) ≡ true) ↔ (s ≢ t)
not-text_eq_iff s t = ground (arith, text_eq_iff s t)

-- No byte of the text is `sep`.
abbrev pub Lacks : ℕ → Text → Type 0
Lacks sep [] = Unit
Lacks sep (c ∷ s) = (c ≢ sep) × Lacks sep s

pub split_byte-Lacks : (sep : ℕ) (s : Text) → Lacks sep s → split_byte sep s ≡ s ∷ []
unfolding split_byte
split_byte-Lacks sep [] h = refl
split_byte-Lacks sep (c ∷ s) h = ground (arith, split_byte-Lacks sep s)

pub split_byte-append :
    (sep : ℕ) (s rest : Text)
    → Lacks sep s
    → split_byte sep (s ++ sep ∷ rest) ≡ s ∷ split_byte sep rest
unfolding split_byte
split_byte-append sep [] rest h = ground arith
split_byte-append sep (c ∷ s) rest h = ground (arith, split_byte-append sep s rest)

-- Splitting a text into lines gives back the lines that were joined.
pub split_byte-join_lines :
    (m : Text) (ms : List Text)
    → All (Lacks 10) (m ∷ ms)
    → split_byte 10 (join_lines (m ∷ ms)) ≡ m ∷ ms
split_byte-join_lines m [] h = split_byte-Lacks 10 m h.0
split_byte-join_lines m (n ∷ ms) h =
    split_byte-append 10 m (join_lines (n ∷ ms)) h.0
    ∙ ap (λ rest. m ∷ rest) (split_byte-join_lines n ms h.1)
