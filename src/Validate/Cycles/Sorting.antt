-- ===== src/Validate/Cycles/Sorting.antt =====
-- sort.Strings gives one list for all the orders of the strings that it is given.
use mathlib.Core.List.{Permᴰ}
use otel_ecom_load_genrator.Prelude.{◌≡◌, refl, sym, ◌∙◌, true, ◌⊎◌, inl, inr, List, [], ◌∷◌, arith}
use otel_ecom_load_genrator.Prelude.Text.{Text, text_leb}
use otel_ecom_load_genrator.Validate.Cycles.{insert_sorted, sort_strings}

text_leb_total : (s t : Text) → (text_leb s t ≡ true) ⊎ (text_leb t s ≡ true)
unfolding text_leb
text_leb_total [] t = inl refl
text_leb_total (a ∷ s) [] = inr refl
text_leb_total (a ∷ s) (b ∷ t) = ground (arith, text_leb_total s t)

text_leb_antisym : (s t : Text) → text_leb s t ≡ true → text_leb t s ≡ true → s ≡ t
unfolding text_leb
text_leb_antisym [] [] h k = refl
text_leb_antisym [] (b ∷ t) h k = cc
text_leb_antisym (a ∷ s) [] h k = cc
text_leb_antisym (a ∷ s) (b ∷ t) h k = ground (arith, text_leb_antisym s t)

text_leb_trans : (s t u : Text) → text_leb s t ≡ true → text_leb t u ≡ true → text_leb s u ≡ true
unfolding text_leb
text_leb_trans [] t u h k = refl
text_leb_trans (a ∷ s) [] u h k = cc
text_leb_trans (a ∷ s) (b ∷ t) [] h k = cc
text_leb_trans (a ∷ s) (b ∷ t) (c ∷ u) h k = ground (arith, text_leb_trans s t u)

insert_comm :
    (a b : Text) (xs : List Text)
    → insert_sorted a (insert_sorted b xs) ≡ insert_sorted b (insert_sorted a xs)
unfolding insert_sorted
insert_comm a b [] = ground (arith, text_leb_total a b, text_leb_antisym a b)
insert_comm a b (x ∷ xs) = ground (
  arith,
  insert_comm a b xs,
  text_leb_total a b,
  text_leb_antisym a b,
  text_leb_total a x,
  text_leb_total b x,
  text_leb_trans a b x,
  text_leb_trans b a x,
)

pub sort_strings-Permᴰ : {xs ys : List Text} → Permᴰ xs ys → sort_strings xs ≡ sort_strings ys
unfolding sort_strings
sort_strings-Permᴰ Permᴰ.nil = refl
sort_strings-Permᴰ (Permᴰ.cons e d) = rw (e, sort_strings-Permᴰ d)
sort_strings-Permᴰ (Permᴰ.swap {a = a} {b = b} {l = l} e₁ e₂) =
    rw (sym e₁, sym e₂) (insert_comm a b (sort_strings l))
sort_strings-Permᴰ (Permᴰ.trans d₁ d₂) = sort_strings-Permᴰ d₁ ∙ sort_strings-Permᴰ d₂
