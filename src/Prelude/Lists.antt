-- ===== src/Prelude/Lists.antt =====
-- Lists measured and indexed by native numbers, membership by recursion, and predicates on lists.
use Prim.Native.Nat.{ℕ, zero, suc, ◌+◌}
use mathlib.Core.Path.{◌≡◌, refl, sym, ap, subst}
use mathlib.Core.Logic.{◌≢◌, ◌⊎◌, inl, inr}
use mathlib.Core.List.{List, [], ◌∷◌, ◌++◌, map}
use mathlib.Core.Option.{Option, none, some}
use native.Mathlib.Omega.{arith}

module _ {ℓ} {A : Type ℓ} where
  abbrev pub length : List A → ℕ
  length [] = 0
  length (x ∷ xs) = suc (length xs)

  abbrev pub get_elem? : List A → ℕ → Option A
  get_elem? [] i = none
  get_elem? (x ∷ xs) zero = some x
  get_elem? (x ∷ xs) (suc i) = get_elem? xs i

  pub length-append : (xs ys : List A) → length (xs ++ ys) ≡ length xs + length ys
  length-append [] ys = omega arith
  length-append (x ∷ xs) ys = omega (arith, length-append xs ys)

module _ {A : Type 0} where
  -- Membership that computes: a chain of alternatives.
  abbrev pub Mem : A → List A → Type 0
  Mem a [] = ⊥
  Mem a (x ∷ xs) = (a ≡ x) ⊎ Mem a xs

  pub mem-append_left : (a : A) (xs ys : List A) → Mem a xs → Mem a (xs ++ ys)
  mem-append_left a [] ys m = absurd m
  mem-append_left a (x ∷ xs) ys (inl e) = inl e
  mem-append_left a (x ∷ xs) ys (inr m) = inr (mem-append_left a xs ys m)

  pub mem-append_right : (a : A) (xs ys : List A) → Mem a ys → Mem a (xs ++ ys)
  mem-append_right a [] ys m = m
  mem-append_right a (x ∷ xs) ys m = inr (mem-append_right a xs ys m)

  pub mem-append_cases : (a : A) (xs ys : List A) → Mem a (xs ++ ys) → Mem a xs ⊎ Mem a ys
  mem-append_cases a [] ys m = inr m
  mem-append_cases a (x ∷ xs) ys (inl e) = inl (inl e)
  mem-append_cases a (x ∷ xs) ys (inr m) = elim (mem-append_cases a xs ys m) [
    | inl l ↦ inl (inr l)
    | inr r ↦ inr r
  ]

abbrev pub All {ℓ κ} : {A : Type ℓ} → (A → Type κ) → List A → Type κ
All P [] = Unit
All P (x ∷ xs) = P x × All P xs

pub All-mem {κ} : {A : Type 0} (P : A → Type κ) (a : A) (xs : List A) → All P xs → Mem a xs → P a
All-mem P a [] h m = absurd m
All-mem P a (x ∷ xs) h (inl e) = subst P (sym e) h.0
All-mem P a (x ∷ xs) h (inr m) = All-mem P a xs h.1 m

pub length-map {ℓ κ} :
    {A : Type ℓ} {B : Type κ} (f : A → B) (xs : List A) → length (map f xs) ≡ length xs
length-map f [] = refl
length-map f (x ∷ xs) = ap suc (length-map f xs)

pub mem-map : {A B : Type 0} (f : A → B) (a : A) (xs : List A) → Mem a xs → Mem (f a) (map f xs)
mem-map f a [] m = absurd m
mem-map f a (x ∷ xs) (inl e) = inl (ap f e)
mem-map f a (x ∷ xs) (inr m) = inr (mem-map f a xs m)

-- Two lists of equal length whose elements are related, place by place.
abbrev pub Alike : {A B : Type 0} → (A → B → Type 0) → List A → List B → Type 0
Alike R [] [] = Unit
Alike R (x ∷ xs) (y ∷ ys) = R x y × Alike R xs ys
Alike R _ _ = ⊥

pub All-Alike :
    {A B : Type 0} (R : A → B → Type 0) (P : A → Type 0) (Q : B → Type 0)
    → ((a : A) (b : B) → R a b → P a → Q b)
    → (xs : List A) (ys : List B) → Alike R xs ys
    → All P xs
    → All Q ys
All-Alike R P Q step [] [] alike h = tt
All-Alike R P Q step (x ∷ xs) (y ∷ ys) alike h =
    (step x y alike.0 h.0, All-Alike R P Q step xs ys alike.1 h.1)
All-Alike R P Q step [] (y ∷ ys) alike h = absurd alike
All-Alike R P Q step (x ∷ xs) [] alike h = absurd alike

pub Alike-map :
    {A B : Type 0} (R S : A → B → Type 0)
    → ((a : A) (b : B) → R a b → S a b)
    → (xs : List A) (ys : List B) → Alike R xs ys
    → Alike S xs ys
Alike-map R S step [] [] h = tt
Alike-map R S step (x ∷ xs) (y ∷ ys) h = (step x y h.0, Alike-map R S step xs ys h.1)
Alike-map R S step [] (y ∷ ys) h = absurd h
Alike-map R S step (x ∷ xs) [] h = absurd h

pub All-imp :
    {A : Type 0} (P Q : A → Type 0) → ((a : A) → P a → Q a) → (xs : List A) → All P xs → All Q xs
All-imp P Q step [] h = tt
All-imp P Q step (x ∷ xs) h = (step x h.0, All-imp P Q step xs h.1)

pub nonempty :
    {A B : Type 0} (R : A → B → Type 0) (xs : List A) (ys : List B)
    → Alike R xs ys
    → xs ≢ []
    → ys ≢ []
nonempty R [] [] h k = absurd (k refl)
nonempty R (x ∷ xs) (y ∷ ys) h k = λ e. cc
nonempty R [] (y ∷ ys) h k = absurd h
nonempty R (x ∷ xs) [] h k = absurd h
