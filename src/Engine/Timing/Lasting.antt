-- ===== src/Engine/Timing/Lasting.antt =====
-- How the length of a span compares with the duration that RecordRED records for it.
use otel_ecom_load_genrator.Prelude.{ℕ, ◌+◌, ◌*◌, ◌≤◌, ◌<◌, ◌≡◌, List, arith, subst}
use otel_ecom_load_genrator.Prelude.Int.{ℤ, pos, ◌≤ℤ◌, int64_half, pos_mul}
use otel_ecom_load_genrator.Prelude.Text.{Text}
use otel_ecom_load_genrator.Prelude.Float64.{Float64}
use otel_ecom_load_genrator.Config.{Topology}
use otel_ecom_load_genrator.Validate.Verdict.{Node}
use otel_ecom_load_genrator.Engine.Timing.{
  TimingMode, synthetic, nested, millisecond, timed, Timeds, nil, cons, both, length_of, wake_at,
  end_of, Emits, skipped, visited, Forks, joined, forked,
}
use otel_ecom_load_genrator.Engine.Timing.Nested.{wake_at-le, wake_at-duration, Forks-le}

-- Every drawn duration is non-negative, and a time.Duration has room for it.
abbrev pub IsShort : Timeds → Type 0
IsShort nil = Unit
IsShort (cons (timed start end duration below) rest) =
    ((millis : ℕ) × (duration ≡ pos millis) × (millis * millisecond < int64_half))
    × IsShort below
    × IsShort rest

-- A synthetic span ends exactly its drawn duration after its start, a nested one then or later.
abbrev pub Lasting : TimingMode → ℕ → ℤ → ℕ → Type 0
Lasting synthetic start end millis = end ≡ pos (start + millis * millisecond)
Lasting nested start end millis = pos (start + millis * millisecond) ≤ℤ end

abbrev pub Lasts : TimingMode → Timeds → Type 0
Lasts mode nil = Unit
Lasts mode (cons (timed start end duration below) rest) =
    ((millis : ℕ) → duration ≡ pos millis → Lasting mode start end millis)
    × Lasts mode below
    × Lasts mode rest

IsShort-both : (ts us : Timeds) → IsShort (both ts us) → IsShort ts × IsShort us
IsShort-both nil us h = (tt, h)
IsShort-both (cons (timed start end duration below) ts) us (short, inner, rest) =
    let (front, back) = IsShort-both ts us rest in ((short, inner, front), back)

Lasts-both :
    (mode : TimingMode) (ts us : Timeds) → Lasts mode ts → Lasts mode us → Lasts mode (both ts us)
Lasts-both mode nil us h k = k
Lasts-both mode (cons (timed start end duration below) ts) us (len, inner, rest) k =
    (len, inner, Lasts-both mode ts us rest k)

end_of-synthetic :
    (start : ℕ) (clock : ℕ) (millis : ℕ)
    → millis * millisecond < int64_half
    → end_of synthetic start (pos millis) clock ≡ pos (start + millis * millisecond)
unfolding end_of length_of
end_of-synthetic start clock millis short = ground (arith, pos_mul millis millisecond)

same : {m n : ℕ} {x : ℤ} → x ≡ pos m → x ≡ pos n → m ≡ n
same e e' = ground arith

-- The end of a span, from what its goroutine waits for.
end_of-Lasting :
    (mode : TimingMode) (start now clock late : ℕ) (duration : ℤ)
    → ((millis : ℕ) × (duration ≡ pos millis) × (millis * millisecond < int64_half))
    → start ≤ now
    → now < int64_half
    → wake_at mode start now duration late ≤ clock
    → (millis : ℕ) → duration ≡ pos millis
    → Lasting mode start (end_of mode start duration clock) millis
unfolding end_of
end_of-Lasting synthetic start now clock late duration (m, e, short) order near woken millis e' =
    rw e' (
      end_of-synthetic start clock millis
        (subst (λ x. x * millisecond < int64_half) (same e e') short))
end_of-Lasting nested start now clock late duration (m, e, short) order near woken millis e' =
    let short' = subst (λ x. x * millisecond < int64_half) (same e e') short in
    let woken' = subst (λ x. wake_at nested start now x late ≤ clock) e' woken in
    let slept = wake_at-duration start now late millis order near short' in omega arith

module _ {F : Type 0} ⦃fl : Float64 F⦄ (t : Topology F) (emitters : List Text)
    (mode : TimingMode) where
  mutual
    Emits-Lasts_from :
        (a b : ℕ) (n : Node) (spans : Timeds)
        → Emits t emitters mode a n spans b
        → b < int64_half
        → IsShort spans
        → Lasts mode spans
    Emits-Lasts_from _ _ _ _ (skipped a b n e h) near short = tt
    Emits-Lasts_from _ _ _ _
          (visited a start now clock b late n s r d below duration e draw h forks woken back) near
          (fits, short, last) =
        let order = Forks-le t emitters mode start now _ below forks in
        let awake = wake_at-le mode start now late duration in
        (
          end_of-Lasting mode start now clock late duration fits order (omega arith) woken,
          Forks-Lasts start now _ below forks (omega arith) short,
          tt,
        )

    Forks-Lasts :
        (a b : ℕ) (ns : List Node) (spans : Timeds)
        → Forks t emitters mode a ns spans b
        → b < int64_half
        → IsShort spans
        → Lasts mode spans
    Forks-Lasts _ _ _ _ (joined a b h) near short = tt
    Forks-Lasts _ _ _ _ (forked a start back b n ns first rest h emits later forks) near short =
        let (front, others) = IsShort-both first rest short in
        Lasts-both mode first rest (Emits-Lasts_from start back n first emits (omega arith) front)
          (Forks-Lasts a b ns rest forks near others)

  -- However the goroutines run, a synthetic span ends exactly as many milliseconds after its start
  -- as were drawn, and a nested span then or later, at every depth, where the clock at the return
  -- and the drawn durations fit in an int64.
  pub Emits-Lasts :
      (a b : ℕ) (n : Node) (spans : Timeds)
      → Emits t emitters mode a n spans b
      → b < int64_half
      → IsShort spans
      → Lasts mode spans
  Emits-Lasts a b n spans h near short = Emits-Lasts_from a b n spans h near short
