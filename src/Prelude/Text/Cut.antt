-- ===== src/Prelude/Text/Cut.antt =====
-- What cutting a text at a byte leaves.
use otel_ecom_load_genrator.Prelude.{
  ℕ, ◌≡◌, refl, Option, none, some, [], ◌∷◌, ◌++◌, arith, if◌then◌else◌, ◌==◌,
}
use otel_ecom_load_genrator.Prelude.Text.{Text, cut, Lacks}

cut-step :
    (sep c : ℕ) (s a b : Text) (r : Option (Text × Text))
    → ((x y : Text) → r ≡ some (x, y) → Lacks sep x × (s ≡ x ++ sep ∷ y))
    → if◌then◌else◌ {A = Option (Text × Text)}
        (c == sep)
        (some ([], s))
        (elim r [ none ↦ none | some (before, after) ↦ some (c ∷ before, after) ])
      ≡ some (a, b)
    → Lacks sep a × (c ∷ s ≡ a ++ sep ∷ b)
cut-step sep c s a b none ih h = ground arith
cut-step sep c s a b (some (x, y)) ih h = let (lacks, same) = ih x y refl in ground arith

pub cut-some : (sep : ℕ) (s a b : Text) → cut sep s ≡ some (a, b) → Lacks sep a × (s ≡ a ++ sep ∷ b)
unfolding cut
cut-some sep [] a b h = cc
cut-some sep (c ∷ s) a b h = cut-step sep c s a b (cut sep s) (cut-some sep s) h
