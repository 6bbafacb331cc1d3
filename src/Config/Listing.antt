-- ===== src/Config/Listing.antt =====
-- A Go map is gone through in any order: its listings are permutations, with the same keys and values.
use mathlib.Core.List.{Permᴰ}
use mathlib.Core.List.Permᴰ
use otel_ecom_load_genrator.Prelude.{
  ◌≡◌, ◌≢◌, refl, sym, ap, ◌∙◌, subst, inl, inr, Bool-cases, List, ◌∷◌, Mem, All,
}
use otel_ecom_load_genrator.Prelude.Text.{Text, text_eq, text_eq_iff}
use otel_ecom_load_genrator.Config.{lookup}
use otel_ecom_load_genrator.Config.Lookup.{keys, Distinct}

module _ {V : Type 0} where
  pub keys-Permᴰ : {m m' : List (Text × V)} → Permᴰ m m' → Permᴰ (keys m) (keys m')
  keys-Permᴰ Permᴰ.nil = Permᴰ.nil
  keys-Permᴰ (Permᴰ.cons {a = (j, v)} {b = (k, w)} e d) =
      Permᴰ.cons (ap (λ p. p.0) e) (keys-Permᴰ d)
  keys-Permᴰ (Permᴰ.swap {a = (i, u)} {b = (j, v)} {a' = (k, w)} {b' = (l, x)} e₁ e₂) =
      Permᴰ.swap (ap (λ p. p.0) e₁) (ap (λ p. p.0) e₂)
  keys-Permᴰ (Permᴰ.trans d₁ d₂) = Permᴰ.trans (keys-Permᴰ d₁) (keys-Permᴰ d₂)

Mem-Permᴰ : {A : Type 0} (a : A) {xs ys : List A} → Permᴰ xs ys → Mem a xs → Mem a ys
Mem-Permᴰ a Permᴰ.nil h = h
Mem-Permᴰ a (Permᴰ.cons e d) h = elim h [ inl p ↦ inl (p ∙ e) | inr m ↦ inr (Mem-Permᴰ a d m) ]
Mem-Permᴰ a (Permᴰ.swap e₁ e₂) h = elim h [
  | inl p ↦ inr (inl (p ∙ e₁))
  | inr m ↦ elim m [ inl p ↦ inl (p ∙ e₂) | inr r ↦ inr (inr r) ]
]
Mem-Permᴰ a (Permᴰ.trans d₁ d₂) h = Mem-Permᴰ a d₂ (Mem-Permᴰ a d₁ h)

Distinct-Permᴰ : {xs ys : List Text} → Permᴰ xs ys → Distinct xs → Distinct ys
Distinct-Permᴰ Permᴰ.nil h = h
Distinct-Permᴰ (Permᴰ.cons {a = a} {l₂ = ys} e d) h =
    (λ m. h.0 (Mem-Permᴰ a (Permᴰ.symm d) (subst (λ x. Mem x ys) (sym e) m)), Distinct-Permᴰ d h.1)
Distinct-Permᴰ (Permᴰ.swap {a = a} {b = b} {l = xs} e₁ e₂) h = (
  λ m. elim m [
    | inl p ↦ h.0 (inl (e₁ ∙ sym p ∙ sym e₂))
    | inr r ↦ h.1.0 (subst (λ x. Mem x xs) (sym e₂) r)
  ],
  (λ m. h.0 (inr (subst (λ x. Mem x xs) (sym e₁) m)), h.1.1),
)
Distinct-Permᴰ (Permᴰ.trans d₁ d₂) h = Distinct-Permᴰ d₂ (Distinct-Permᴰ d₁ h)

module _ {V : Type 0} where
  lookup_swap :
      (k i j : Text) (u v : V) (m : List (Text × V))
      → i ≢ j
      → lookup k ((i, u) ∷ (j, v) ∷ m) ≡ lookup k ((j, v) ∷ (i, u) ∷ m)
  unfolding lookup
  lookup_swap k i j u v m h = elim (Bool-cases (text_eq i k)) [
    | inl e ↦ elim (Bool-cases (text_eq j k)) [
      | inl e' ↦ absurd (h ((text_eq_iff i k).0 e ∙ sym ((text_eq_iff j k).0 e')))
      | inr e' ↦ rw (e, e') refl
    ]
    | inr e ↦ rw e refl
  ]

  pub lookup-Permᴰ :
      (k : Text) {m m' : List (Text × V)}
      → Permᴰ m m'
      → Distinct (keys m)
      → lookup k m ≡ lookup k m'
  unfolding lookup
  lookup-Permᴰ k Permᴰ.nil h = refl
  lookup-Permᴰ k (Permᴰ.cons {a = (i, u)} {b = (j, v)} e d) h =
      rw (ap (λ p. p.0) e, ap (λ p. p.1) e, lookup-Permᴰ k d h.1)
  lookup-Permᴰ k (Permᴰ.swap {a = (i, u)} {b = (j, v)} {l = m} e₁ e₂) h =
      lookup_swap k i j u v m (λ e. h.0 (inl e)) ∙ (λ t. lookup k (e₂ t ∷ e₁ t ∷ m))
  lookup-Permᴰ k (Permᴰ.trans d₁ d₂) h =
      lookup-Permᴰ k d₁ h ∙ lookup-Permᴰ k d₂ (Distinct-Permᴰ (keys-Permᴰ d₁) h)

pub All-Permᴰ : {A : Type 0} (P : A → Type 0) {xs ys : List A} → Permᴰ xs ys → All P xs → All P ys
All-Permᴰ P Permᴰ.nil h = tt
All-Permᴰ P (Permᴰ.cons e d) h = (subst P e h.0, All-Permᴰ P d h.1)
All-Permᴰ P (Permᴰ.swap e₁ e₂) h = (subst P e₂ h.1.0, (subst P e₁ h.0, h.1.1))
All-Permᴰ P (Permᴰ.trans d₁ d₂) h = All-Permᴰ P d₂ (All-Permᴰ P d₁ h)
