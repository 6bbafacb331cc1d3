-- ===== src/Engine/Scheduler/RunLaws.antt =====
-- Every order of the goroutines emits as often as ticks were heard.
use otel_ecom_load_genrator.Prelude.{
  ℕ, suc, ◌+◌, ◌≡◌, ◌↔◌, refl, ap, ◌∙◌, Bool, true, false, List, [], ◌∷◌, ◌++◌, arith, All, length,
  if◌then◌else◌,
}
use otel_ecom_load_genrator.Prelude.Int.{ℤ, eqb_ℤ}
use otel_ecom_load_genrator.Prelude.Float64.{Float64}
use otel_ecom_load_genrator.Config.{RootRoute, Surge}
use otel_ecom_load_genrator.Engine.Scheduler.{Action, emit, reset, Ticking, run_route}
use otel_ecom_load_genrator.Engine.Scheduler.Loop.{
  heard, is_cancelled, asked, interval_at, one_tick, run_route_lem,
}
use otel_ecom_load_genrator.Engine.Scheduler.Run.{
  Routine, Woven, left, right, RunActions, no_roots, and_root, run_returns,
}

abbrev pub emissions : List Action → ℕ
emissions [] = 0
emissions (emit _ _ ∷ xs) = suc (emissions xs)
emissions (reset _ ∷ xs) = emissions xs

-- The ticks that the goroutines hear before they are cancelled.
abbrev pub ticks : List Routine → ℕ
ticks [] = 0
ticks (g ∷ gs) = length (heard g.wakes) + ticks gs

emissions-append : (xs ys : List Action) → emissions (xs ++ ys) ≡ emissions xs + emissions ys
emissions-append [] ys = omega arith
emissions-append (emit _ _ ∷ xs) ys = omega (arith, emissions-append xs ys)
emissions-append (reset _ ∷ xs) ys = emissions-append xs ys

emissions-Woven :
    (xs ys zs : List Action) → Woven xs ys zs → emissions zs ≡ emissions xs + emissions ys
emissions-Woven _ _ _ Woven.ended = omega arith
emissions-Woven _ _ _ (left (emit _ _) xs ys zs h) = omega (arith, emissions-Woven xs ys zs h)
emissions-Woven _ _ _ (left (reset _) xs ys zs h) = emissions-Woven xs ys zs h
emissions-Woven _ _ _ (right (emit _ _) xs ys zs h) = omega (arith, emissions-Woven xs ys zs h)
emissions-Woven _ _ _ (right (reset _) xs ys zs h) = emissions-Woven xs ys zs h

module _ {F : Type 0} ⦃fl : Float64 F⦄ (surges : List (Surge F)) where
  emissions-one_tick :
      (root : RootRoute) (current : ℤ) (since : ℕ)
      → emissions (one_tick surges root current since) ≡ 1
  emissions-one_tick root current since = by_test (eqb_ℤ (interval_at surges root since) current)
    where
      by_test :
          (b : Bool)
          → emissions (
              emit root.service root.route
              ∷ (if b then [] else reset (interval_at surges root since) ∷ []))
            ≡ 1
      by_test true = refl
      by_test false = refl

  emissions-asked :
      (root : RootRoute) (current : ℤ) (ts : List ℕ)
      → emissions (asked surges root current ts) ≡ length ts
  emissions-asked root current [] = refl
  emissions-asked root current (t ∷ ts) = omega (
    arith,
    emissions-append (one_tick surges root current t)
        (asked surges root (interval_at surges root t) ts),
    emissions-one_tick root current t,
    emissions-asked root (interval_at surges root t) ts,
  )

  emissions-run_route :
      (g : Routine)
      → emissions (run_route surges g.root g.since g.wakes).actions ≡ length (heard g.wakes)
  emissions-run_route g =
      ap (λ (s : Ticking). emissions s.actions) (run_route_lem surges g.root g.since g.wakes)
      ∙ emissions-asked g.root (interval_at surges g.root g.since) (heard g.wakes)

  emissions-RunActions :
      (gs : List Routine) (actions : List Action)
      → RunActions surges gs actions
      → emissions actions ≡ ticks gs
  emissions-RunActions _ _ no_roots = refl
  emissions-RunActions _ _ (and_root g gs rest all h woven) = omega (
    arith,
    emissions-Woven (run_route surges g.root g.since g.wakes).actions rest all woven,
    emissions-run_route g,
    emissions-RunActions gs rest h,
  )

  run_returns_iff :
      (gs : List Routine)
      → (run_returns surges gs ≡ true) ↔ All (λ (g : Routine). is_cancelled g.wakes ≡ true) gs
  unfolding run_returns
  run_returns_iff [] = (λ _. tt, λ _. refl)
  run_returns_iff (g ∷ gs) =
      let stopped = ap (λ (s : Ticking). s.stopped) (run_route_lem surges g.root g.since g.wakes) in
      let rest = run_returns_iff gs in ground arith

  -- Run returns exactly when each goroutine hears the cancellation, and however the goroutines
  -- interleave, the emissions started are as many as the ticks heard before it.
  pub RunActions_lem :
      (gs : List Routine) (actions : List Action)
      → RunActions surges gs actions
      → (emissions actions ≡ ticks gs)
        × ((run_returns surges gs ≡ true) ↔ All (λ (g : Routine). is_cancelled g.wakes ≡ true) gs)
  RunActions_lem gs actions h = (emissions-RunActions gs actions h, run_returns_iff gs)
