-- ===== src/Validate/Cycles/Ends.antt =====
-- The recursion of detectCycles ends: the fuel, one more than the declared nodes, is never spent.
use otel_ecom_load_genrator.Prelude.{
  ℕ, zero, suc, ◌≤◌, ◌<◌, ◌≡◌, ◌≢◌, inl, inr, refl, sym, Bool, true, false, List, [], ◌∷◌, arith,
  Mem, subst, if◌then◌else◌, length,
}
use otel_ecom_load_genrator.Config.{Topology, File}
use otel_ecom_load_genrator.Validate.Verdict.{Node}
use otel_ecom_load_genrator.Validate.Cycles.{
  Mark, unvisited, on_stack, done, Walk, Outcome, finished, found, spent, set_mark, enter, leave,
  and_then, visit_all, callees, visit, known, fresh, root_nodes, detect_cycles,
}
use otel_ecom_load_genrator.Validate.Cycles.Graph.{
  node_eq_iff_to, node_eq_refl, callees-known, visit_all-nil, step_rule,
}

abbrev is_open : Mark → Bool
is_open unvisited = true
is_open _ = false

-- How many of the listed nodes are unvisited.
open_count : (Node → Mark) → List Node → ℕ
open_count state [] = 0
open_count state (n ∷ ns) =
    if is_open (state n) then suc (open_count state ns) else open_count state ns

open_count-le : (state : Node → Mark) (ns : List Node) → open_count state ns ≤ length ns
unfolding open_count
open_count-le state [] = omega arith
open_count-le state (n ∷ ns) = ground (arith, open_count-le state ns)

module _ (state : Node → Mark) (n : Node) (m : Mark) (closed : is_open m ≡ false) where
  open_count-set_mark_le :
      (ns : List Node) → open_count (set_mark state n m) ns ≤ open_count state ns
  unfolding open_count set_mark
  open_count-set_mark_le [] = omega arith
  open_count-set_mark_le (x ∷ ns) = ground (arith, open_count-set_mark_le ns)

  open_count-set_mark_lt :
      (ns : List Node)
      → Mem n ns
      → state n ≡ unvisited
      → open_count (set_mark state n m) ns < open_count state ns
  unfolding open_count set_mark
  open_count-set_mark_lt [] h e = absurd h
  open_count-set_mark_lt (x ∷ ns) h e = ground (
    arith,
    open_count-set_mark_lt ns,
    open_count-set_mark_le ns,
    node_eq_iff_to n x,
    node_eq_refl n,
  )

module _ (ns : List Node) where
  -- A call that returns has not opened a node again.
  abbrev Ends : ℕ → Outcome → Type 0
  Ends limit (finished w) = open_count w.state ns < limit
  Ends limit (found _ _) = Unit
  Ends limit spent = ⊥

  and_then-Ends :
      (limit : ℕ) (o : Outcome) (k : Walk → Outcome)
      → Ends limit o
      → ((w : Walk) → open_count w.state ns < limit → Ends limit (k w))
      → Ends limit (and_then o k)
  and_then-Ends limit (finished w) k h each = each w h
  and_then-Ends limit (found _ _) k h each = tt
  and_then-Ends limit spent k h each = h

  visit_all-Ends :
      (go : Node → Walk → Outcome) (limit : ℕ)
      → ((n : Node) (w : Walk) → open_count w.state ns < limit → Ends limit (go n w))
      → (next : List Node) (w : Walk) → open_count w.state ns < limit
      → Ends limit (visit_all go next w)
  unfolding visit_all
  visit_all-Ends go limit each [] w h = h
  visit_all-Ends go limit each (n ∷ next) w h =
      and_then-Ends limit (go n w) (visit_all go next) (each n w h)
        (visit_all-Ends go limit each next)

  leave-Ends : (n : Node) (limit : ℕ) (o : Outcome) → Ends limit o → Ends limit (leave n o)
  unfolding leave
  leave-Ends n limit (finished w) h = omega (arith, open_count-set_mark_le w.state n done refl ns)
  leave-Ends n limit (found _ _) h = tt
  leave-Ends n limit spent h = h

  Ends-mono : (a b : ℕ) (o : Outcome) → a ≤ b → Ends a o → Ends b o
  Ends-mono a b (finished w) le h = omega arith
  Ends-mono a b (found _ _) le h = tt
  Ends-mono a b spent le h = h

module _ {F : Type 0} (t : Topology F) where
  -- A call for an unvisited node: without callees it returns, and with callees it marks a known node.
  descend-Ends :
      (fuel : ℕ)
      → ((n : Node) (w : Walk)
          → open_count w.state (known t) < fuel
          → Ends (known t) fuel (visit t fuel n w))
      → (n : Node) (w : Walk) → w.state n ≡ unvisited
      → open_count w.state (known t) < suc fuel
      → Ends (known t) (suc fuel) (visit_all (visit t fuel) (callees t n) (enter n w))
  unfolding enter
  descend-Ends fuel each n w e h = elim (callees-known t n) [
    | inl none_called ↦
        subst (λ next. Ends (known t) (suc fuel) (visit_all (visit t fuel) next (enter n w)))
          (sym none_called)
          (subst (Ends (known t) (suc fuel)) (sym (visit_all-nil (visit t fuel) (enter n w)))
            (omega (arith, open_count-set_mark_le w.state n on_stack refl (known t))))
    | inr declared ↦ Ends-mono (known t) fuel (suc fuel) _ (omega arith) (
        visit_all-Ends (known t) (visit t fuel) fuel each (callees t n) (enter n w)
          (omega (arith, open_count-set_mark_lt w.state n on_stack refl (known t) declared e)))
  ]

  visit-Ends :
      (fuel : ℕ) (n : Node) (w : Walk)
      → open_count w.state (known t) < fuel
      → Ends (known t) fuel (visit t fuel n w)
  unfolding visit
  visit-Ends zero n w h = absurd (omega arith)
  visit-Ends (suc fuel) n w h =
      step_rule (Ends (known t) (suc fuel)) (visit t fuel) (callees t n) n w
        (λ e. leave-Ends (known t) n (suc fuel) _ (descend-Ends fuel (visit-Ends fuel) n w e h))
        (λ _. tt) (λ _. h)

-- detectCycles always returns: no document makes its recursion run out of the fuel given.
pub detect_cycles_returns : {F : Type 0} (f : File F) → detect_cycles f ≢ spent
unfolding detect_cycles
detect_cycles_returns f e =
    let t = f.topology in
    let fuel = suc (length (known t)) in
    subst (Ends (known t) fuel) e (
      visit_all-Ends (known t) (visit t fuel) fuel (visit-Ends t fuel) (root_nodes f.root_routes)
        fresh (omega (arith, open_count-le fresh.state (known t))))
