-- ===== src/Engine/Timing/Nested.antt =====
-- With nested timing the spans of the calls lie within the span that makes them.
use otel_ecom_load_genrator.Prelude.{ℕ, ◌+◌, ◌*◌, ◌≤◌, ◌<◌, ◌-◌, List, arith}
use otel_ecom_load_genrator.Prelude.Int.{ℤ, pos, ◌≤ℤ◌, int64_half, pos_mul, -ℤ_parts}
use otel_ecom_load_genrator.Prelude.Text.{Text}
use otel_ecom_load_genrator.Prelude.Float64.{Float64}
use otel_ecom_load_genrator.Config.{Topology}
use otel_ecom_load_genrator.Validate.Verdict.{Node}
use otel_ecom_load_genrator.Engine.Timing.{
  TimingMode, synthetic, nested, millisecond, timed, Timeds, nil, cons, both, length_of, wake_at,
  end_of, Emits, skipped, visited, Forks, joined, forked,
}

-- Every span lies between the two times, and the spans of its calls within itself.
abbrev pub Within : ℕ → ℤ → Timeds → Type 0
Within lo hi nil = Unit
Within lo hi (cons (timed start end duration below) rest) =
    (lo ≤ start) × (pos start ≤ℤ end) × (end ≤ℤ hi) × Within start end below × Within lo hi rest

Within-widen :
    (lo lo' : ℕ) (hi hi' : ℤ) (spans : Timeds)
    → lo' ≤ lo
    → hi ≤ℤ hi'
    → Within lo hi spans
    → Within lo' hi' spans
Within-widen lo lo' hi hi' nil low high h = tt
Within-widen lo lo' hi hi' (cons (timed start end duration below) rest) low high
      (l, order, h, inner, outer) =
    (omega arith, order, omega arith, inner, Within-widen lo lo' hi hi' rest low high outer)

Within-both :
    (lo : ℕ) (hi : ℤ) (ts us : Timeds)
    → Within lo hi ts
    → Within lo hi us
    → Within lo hi (both ts us)
Within-both lo hi nil us h k = k
Within-both lo hi (cons (timed start end duration below) ts) us (l, order, high, inner, outer) k =
    (l, order, high, inner, Within-both lo hi ts us outer k)

pub wake_at-le :
    (mode : TimingMode) (start now late : ℕ) (duration : ℤ)
    → now ≤ wake_at mode start now duration late
unfolding wake_at
wake_at-le synthetic start now late duration = omega arith
wake_at-le nested start now late duration = ground arith

-- Nested timing sleeps until a span has lasted its duration at least.
pub wake_at-duration :
    (start now late millis : ℕ)
    → start ≤ now
    → now < int64_half
    → millis * millisecond < int64_half
    → start + millis * millisecond ≤ wake_at nested start now (pos millis) late
unfolding wake_at length_of
wake_at-duration start now late millis order near short =
    ground
      (arith, pos_mul millis millisecond, -ℤ_parts (pos (millis * millisecond)) (pos (now - start)))

module _ {F : Type 0} ⦃fl : Float64 F⦄ (t : Topology F) (emitters : List Text)
    (mode : TimingMode) where
  mutual
    pub Emits-le : (a b : ℕ) (n : Node) (spans : Timeds) → Emits t emitters mode a n spans b → a ≤ b
    Emits-le _ _ _ _ (skipped a b n e h) = h
    Emits-le _ _ _ _
          (visited a start now clock b late n s r d below duration e draw h forks woken back) =
        omega (arith, Forks-le start now _ below forks, wake_at-le mode start now late duration)

    pub Forks-le :
        (a b : ℕ) (ns : List Node) (spans : Timeds) → Forks t emitters mode a ns spans b → a ≤ b
    Forks-le _ _ _ _ (joined a b h) = h
    Forks-le _ _ _ _ (forked a start back b n ns first rest h emits later forks) =
        Forks-le a b ns rest forks

module _ {F : Type 0} ⦃fl : Float64 F⦄ (t : Topology F) (emitters : List Text) where
  mutual
    unfolding end_of

    Emits-Within :
        (a b : ℕ) (n : Node) (spans : Timeds)
        → Emits t emitters nested a n spans b
        → Within a (pos b) spans
    Emits-Within _ _ _ _ (skipped a b n e h) = tt
    Emits-Within _ _ _ _
          (visited a start now clock b late n s r d below duration e draw h forks woken back) =
        let inner = Forks-Within start now _ below forks in
        let order = Forks-le t emitters nested start now _ below forks in
        let awake = wake_at-le nested start now late duration in
        (
          h,
          omega arith,
          omega arith,
          Within-widen start start (pos now) (pos clock) below (omega arith) (omega arith) inner,
          tt,
        )

    Forks-Within :
        (a b : ℕ) (ns : List Node) (spans : Timeds)
        → Forks t emitters nested a ns spans b
        → Within a (pos b) spans
    Forks-Within _ _ _ _ (joined a b h) = tt
    Forks-Within _ _ _ _ (forked a start back b n ns first rest h emits later forks) =
        Within-both a (pos b) first rest
          (Within-widen start a (pos back) (pos b) first h (omega arith)
            (Emits-Within start back n first emits))
          (Forks-Within a b ns rest forks)

-- With nested timing every span of an emission lies between the call and its return, and the spans
-- of the calls lie, at every depth, within the span that makes them, however the goroutines run.
pub Emits-nested-Within :
    {F : Type 0} ⦃fl : Float64 F⦄ (t : Topology F) (emitters : List Text) (a b : ℕ) (n : Node)
    (spans : Timeds)
    → Emits t emitters nested a n spans b
    → Within a (pos b) spans
Emits-nested-Within t emitters a b n spans h = Emits-Within t emitters a b n spans h
