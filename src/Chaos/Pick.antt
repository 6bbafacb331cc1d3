-- ===== src/Chaos/Pick.antt =====
-- The selections: in range, never an unselectable index, and what a list of selectable weights gives.
use otel_ecom_load_genrator.Prelude.{
  if◌then◌else◌, ltb, leb, ◌-◌, ℕ, zero, suc, ◌+◌, ◌≤◌, ◌<◌, ◌≡◌, inl, inr, refl, some, List, [],
  ◌∷◌, ap, arith, get_elem?, Bool-cases,
}
use otel_ecom_load_genrator.Prelude.Int.{
  ℤ, pos, negsuc, pos_part, neg_part, ◌+ℤ◌, ◌-ℤ◌, ◌≤ℤ◌, ◌<ℤ◌, ltb_ℤ, eqb_ℤ, IsInt64, int64_half,
  +ℤ_parts, -ℤ_parts, pos_add, sub_ℕ, wrap64-Fits,
}
use otel_ecom_load_genrator.Chaos.{
  Source, InRange, intn, int_range_ordered, int_range, total_weight, pick_from, pick_weighted,
}

-- Intn stays in [0, n), and is 0 for a degenerate bound.
pub intn_bounds :
    (draw : Source) (n : ℤ)
    → InRange draw
    → (pos 0 ≤ℤ intn draw n) × ((pos 1 ≤ℤ n) → intn draw n <ℤ n)
unfolding intn
intn_bounds draw n h = ground (arith, h (pos_part n))

-- The exact width of a range whose bounds are less than 2^63 - 1 apart.
range_width :
    (lo hi : ℤ)
    → lo <ℤ hi
    → pos_part hi + neg_part lo + 1 < int64_half
    → (n : ℕ) × ((hi -ℤ lo) +ℤ pos 1 ≡ pos n)
      × (pos_part lo + neg_part hi + n ≡ pos_part hi + neg_part lo + 1)
range_width lo hi less small = (
  pos_part ((hi -ℤ lo) +ℤ pos 1),
  ground (arith, -ℤ_parts hi lo, +ℤ_parts (hi -ℤ lo) (pos 1)),
  ground (arith, -ℤ_parts hi lo, +ℤ_parts (hi -ℤ lo) (pos 1)),
)

int_range_ordered_bounds :
    (draw : Source) (lo hi : ℤ)
    → InRange draw
    → lo ≤ℤ hi
    → IsInt64 lo × IsInt64 hi × (pos_part hi + neg_part lo + 1 < int64_half)
    → (lo ≤ℤ int_range_ordered draw lo hi) × (int_range_ordered draw lo hi ≤ℤ hi)
unfolding int_range_ordered intn
int_range_ordered_bounds draw lo hi h le (low, high, small) = elim (Bool-cases (eqb_ℤ lo hi)) [
  | inl e ↦ ground arith
  | inr e ↦
      let (n, width, size) = range_width lo hi (ground arith) small in
      ground (arith, h n, +ℤ_parts lo (pos (draw n)))
]

abbrev pub lower : ℤ → ℤ → ℤ
lower a b = if ltb_ℤ b a then b else a

abbrev pub upper : ℤ → ℤ → ℤ
upper a b = if ltb_ℤ b a then a else b

-- IntRange returns a value between the smaller and the larger of its bounds, in whichever order they
-- are given, when the bounds are int64 values less than 2^63 - 1 apart.
pub int_range_bounds :
    (draw : Source) (lo hi : ℤ)
    → InRange draw
    → IsInt64 lo
    → IsInt64 hi
    → pos_part (upper lo hi) + neg_part (lower lo hi) + 1 < int64_half
    → (lower lo hi ≤ℤ int_range draw lo hi) × (int_range draw lo hi ≤ℤ upper lo hi)
unfolding int_range
int_range_bounds draw lo hi h low high apart = elim (Bool-cases (ltb_ℤ hi lo)) [
  | inl e ↦
      let swapped =
        int_range_ordered_bounds draw hi lo h (ground arith) (high, low, ground arith) in
      ground arith
  | inr e ↦
      let kept = int_range_ordered_bounds draw lo hi h (ground arith) (low, high, ground arith) in
      ground arith
]

-- The exact sum of the positive weights, and of those among the first k.
abbrev pub wsum : List ℤ → ℕ
wsum [] = 0
wsum (w ∷ ws) = pos_part w + wsum ws

abbrev pub before : ℕ → List ℤ → ℕ
before k [] = 0
before zero (w ∷ ws) = 0
before (suc k) (w ∷ ws) = pos_part w + before k ws

total_weight-wsum :
    (a : ℕ) (ws : List ℤ) → a + wsum ws < int64_half → total_weight (pos a) ws ≡ pos (a + wsum ws)
unfolding total_weight
total_weight-wsum a [] h = ground arith
total_weight-wsum a (pos zero ∷ ws) h = ground (arith, total_weight-wsum a ws)
total_weight-wsum a (pos (suc n) ∷ ws) h =
    ground (arith, pos_add a (suc n), total_weight-wsum (a + suc n) ws)
total_weight-wsum a (negsuc n ∷ ws) h = ground (arith, total_weight-wsum a ws)

-- The index k that a number r selects: its weight covers r, counted from the sum before it.
pub record Covers (ws : List ℤ) (r k : ℕ) : Type 0 where
  pub weight : ℤ
  pub at : get_elem? ws k ≡ some weight
  pub low : before k ws ≤ r
  pub high : r < before k ws + pos_part weight

Covers-suc :
    (w : ℤ) (ws : List ℤ) (r r' k : ℕ)
    → r ≡ pos_part w + r'
    → Covers ws r' k
    → Covers (w ∷ ws) r (suc k)
Covers-suc w ws r r' k e c = record {
  weight = c.weight;
  at = c.at;
  low = omega (arith, c.low);
  high = omega (arith, c.high);
}

sub_pos : (r n : ℕ) → r < int64_half → n < int64_half → pos r -ℤ pos n ≡ sub_ℕ r n
unfolding ◌-ℤ◌
sub_pos r n h k = ground (arith, wrap64-Fits (r + 0) (0 + n))

pick_from-Covers :
    (i r : ℕ) (ws : List ℤ)
    → r < wsum ws
    → wsum ws < int64_half
    → (k : ℕ) × (pick_from i (pos r) ws ≡ some (i + k)) × Covers ws r k
unfolding pick_from
pick_from-Covers i r [] h s = absurd (omega arith)
pick_from-Covers i r (negsuc n ∷ ws) h s =
    let (k, e, c) = pick_from-Covers (suc i) r ws (omega arith) (omega arith) in
    (suc k, ground arith, Covers-suc (negsuc n) ws r r k (omega arith) c)
pick_from-Covers i r (pos zero ∷ ws) h s =
    let (k, e, c) = pick_from-Covers (suc i) r ws (omega arith) (omega arith) in
    (suc k, ground arith, Covers-suc (pos zero) ws r r k (omega arith) c)
pick_from-Covers i r (pos (suc n) ∷ ws) h s = elim (Bool-cases (ltb r (suc n))) [
  | inl e ↦ (
    0,
    ground (arith, sub_pos r (suc n)),
    record { weight = pos (suc n); at = refl; low = omega arith; high = ground arith },
  )
  | inr e ↦
      let (k, eq, c) = pick_from-Covers (suc i) (r - suc n) ws (ground arith) (omega arith) in
      (
        suc k,
        ground (arith, sub_pos r (suc n)),
        Covers-suc (pos (suc n)) ws r (r - suc n) k (ground arith) c,
      )
]

Covers-tail :
    (w : ℤ) (ws : List ℤ) (r k : ℕ) → Covers (w ∷ ws) r (suc k) → Covers ws (r - pos_part w) k
Covers-tail w ws r k c = record { weight = weight; at = at; low = omega arith; high = omega arith }
  where
    open c use {weight, at, low, high}

Covers-zero : (w : ℤ) (ws : List ℤ) (r : ℕ) → Covers (w ∷ ws) r zero → r < pos_part w
Covers-zero w ws r c = let e = c.at in let h = c.high in ground arith

Covers-unique : (ws : List ℤ) (r k j : ℕ) → Covers ws r k → Covers ws r j → j ≡ k
Covers-unique [] r k j c d = let e = c.at in cc
Covers-unique (w ∷ ws) r zero zero c d = refl
Covers-unique (w ∷ ws) r zero (suc j) c d =
    let h = Covers-zero w ws r c in let l = d.low in absurd (omega arith)
Covers-unique (w ∷ ws) r (suc k) zero c d =
    let h = Covers-zero w ws r d in let l = c.low in absurd (omega arith)
Covers-unique (w ∷ ws) r (suc k) (suc j) c d =
    ap suc (Covers-unique ws (r - pos_part w) k j (Covers-tail w ws r k c) (Covers-tail w ws r j d))

-- PickWeighted normalises against the real sum. When the exact sum S of the positive weights is
-- positive and below 2^63, it draws one number r below S, by Intn, and returns the index whose
-- weight covers r, counted from the sum of the weights before it; no other index covers r.
pub pick_weighted-Covers :
    (draw : Source) (ws : List ℤ)
    → InRange draw
    → 0 < wsum ws
    → wsum ws < int64_half
    → (r k : ℕ) × (intn draw (pos (wsum ws)) ≡ pos r)
      × (r < wsum ws)
      × (pick_weighted draw ws ≡ pos k)
      × Covers ws r k
      × ((j : ℕ) → Covers ws r j → j ≡ k)
unfolding pick_weighted intn
pick_weighted-Covers draw ws h some_weight small =
    let total = total_weight-wsum 0 ws (omega arith) in
    elim (Bool-cases (leb (wsum ws) 1)) [
      | inl e ↦
          let (k, eq, c) = pick_from-Covers 0 0 ws some_weight small in
          (0, k, ground arith, some_weight, ground arith, c, λ j. Covers-unique ws 0 k j c)
      | inr e ↦
          let r = draw (wsum ws) in
          let below = h (wsum ws) some_weight in
          let (k, eq, c) = pick_from-Covers 0 r ws below small in
          (r, k, ground arith, below, ground arith, c, λ j. Covers-unique ws r k j c)
    ]

-- Without a positive weight PickWeighted selects nothing, whatever is drawn.
pub pick_weighted_none :
    (draw : Source) (ws : List ℤ) → wsum ws ≡ 0 → pick_weighted draw ws ≡ negsuc 0
unfolding pick_weighted
pick_weighted_none draw ws e = ground (arith, total_weight-wsum 0 ws)
