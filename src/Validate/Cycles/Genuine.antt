-- ===== src/Validate/Cycles/Genuine.antt =====
-- When detectCycles reports a cycle, the topology has it, on a walk from a root route.
use otel_ecom_load_genrator.Prelude.{
  ℕ, zero, suc, ◌≡◌, inl, inr, refl, sym, some, List, [], ◌∷◌, ◌++◌, arith, Mem, subst, length,
  Bool-cases, mem-append_left, mem-append_right, mem-append_cases, ap, ◌∙◌,
}
use otel_ecom_load_genrator.Config.{Topology, File}
use otel_ecom_load_genrator.Validate.Verdict.{Node}
use otel_ecom_load_genrator.Validate.Cycles.{
  node_eq, on_stack, done, Walk, Outcome, finished, found, spent, set_mark, pop, enter, leave,
  and_then, visit_all, callees, visit, known, fresh, root_nodes, detect_cycles, from_first,
  cycle_of,
}
use otel_ecom_load_genrator.Validate.Cycles.Graph.{
  node_eq_iff_to, node_eq_refl, Calls, IsWalk, StartsIn, Calls-of_mem-callees, step_rule,
}
use otel_ecom_load_genrator.Validate.Cycles.Acyclic.{set_mark_self, set_mark_old}

pop-snoc : {A : Type 0} (xs : List A) (x : A) → pop (xs ++ x ∷ []) ≡ xs
unfolding pop
pop-snoc [] x = refl
pop-snoc (y ∷ []) x = refl
pop-snoc (y ∷ z ∷ xs) x = ap (λ r. y ∷ r) (pop-snoc (z ∷ xs) x)

StartsIn-append : (roots xs ys : List Node) → StartsIn roots xs → StartsIn roots (xs ++ ys)
StartsIn-append roots [] ys h = absurd h
StartsIn-append roots (x ∷ xs) ys h = h

module _ {F : Type 0} (t : Topology F) where
  pub IsWalk-snoc :
      (xs : List Node) (m n : Node)
      → IsWalk t (xs ++ m ∷ [])
      → Calls t m n
      → IsWalk t ((xs ++ m ∷ []) ++ n ∷ [])
  IsWalk-snoc [] m n h c = (c, tt)
  IsWalk-snoc (x ∷ []) m n h c = (h.0, (c, tt))
  IsWalk-snoc (x ∷ y ∷ xs) m n h c = (h.0, IsWalk-snoc (y ∷ xs) m n h.1 c)

  IsWalk-tail : (x : Node) (xs : List Node) → IsWalk t (x ∷ xs) → IsWalk t xs
  IsWalk-tail x [] h = tt
  IsWalk-tail x (y ∷ xs) h = h.1

  module _ (roots : List Node) where
    -- The way on which a call for `n` stands: from a root, along the stack.
    record IsOnWay (n : Node) (w : Walk) : Type 0 where
      walk : IsWalk t (w.stack ++ n ∷ [])
      start : StartsIn roots (w.stack ++ n ∷ [])
      marked : (x : Node) → w.state x ≡ on_stack → Mem x w.stack

    -- A return leaves the stack as it was; a report carries a walk that comes back to its node.
    abbrev Reports : List Node → Outcome → Type 0
    Reports stack (finished w) =
        (w.stack ≡ stack) × ((x : Node) → w.state x ≡ on_stack → Mem x stack)
    Reports stack (found s n) = IsWalk t (s ++ n ∷ []) × StartsIn roots (s ++ n ∷ []) × Mem n s
    Reports stack spent = Unit

    abbrev Reporting : (Node → Walk → Outcome) → Type 0
    Reporting go = (n : Node) (w : Walk) → IsOnWay n w → Reports w.stack (go n w)

    and_then-Reports :
        (stack : List Node) (o : Outcome) (k : Walk → Outcome)
        → Reports stack o
        → ((w : Walk) → Reports stack (finished w) → Reports stack (k w))
        → Reports stack (and_then o k)
    and_then-Reports stack (finished w) k h each = each w h
    and_then-Reports stack (found _ _) k h each = h
    and_then-Reports stack spent k h each = tt

    visit_all-Reports :
        (go : Node → Walk → Outcome) (stack ns : List Node)
        → Reporting go
        → ((m : Node) → Mem m ns → IsWalk t (stack ++ m ∷ []) × StartsIn roots (stack ++ m ∷ []))
        → (w : Walk) → Reports stack (finished w)
        → Reports stack (visit_all go ns w)
    unfolding visit_all
    visit_all-Reports go stack [] each way w h = h
    visit_all-Reports go stack (n ∷ ns) each way w h =
        and_then-Reports stack (go n w) (visit_all go ns)
          (subst (λ s. Reports s (go n w)) h.0 (each n w on_way))
          (visit_all-Reports go stack ns each (λ m later. way m (inr later)))
      where
        on_way : IsOnWay n w
        on_way = record {
          walk = subst (λ s. IsWalk t (s ++ n ∷ [])) (sym h.0) (way n (inl refl)).0;
          start = subst (λ s. StartsIn roots (s ++ n ∷ [])) (sym h.0) (way n (inl refl)).1;
          marked = λ x e. subst (Mem x) (sym h.0) (h.1 x e);
        }

    enter-Reports :
        (n : Node) (w : Walk) → IsOnWay n w → Reports (w.stack ++ n ∷ []) (finished (enter n w))
    unfolding enter
    enter-Reports n w way = (
      refl,
      λ x e. elim (set_mark_old w.state n on_stack on_stack x e) [
        | inl old ↦ mem-append_left x w.stack (n ∷ []) (way.marked x old)
        | inr (same, _) ↦ mem-append_right x w.stack (n ∷ []) (inl (sym same))
      ],
    )

    leave-Reports :
        (n : Node) (stack : List Node) (o : Outcome)
        → Reports (stack ++ n ∷ []) o
        → Reports stack (leave n o)
    unfolding leave
    leave-Reports n stack (finished u) (same_stack, marked) = (
      ap pop same_stack ∙ pop-snoc stack n,
      λ x e. elim (set_mark_old u.state n done on_stack x e) [
        | inl old ↦ elim (mem-append_cases x stack (n ∷ []) (marked x old)) [
          | inl before ↦ before
          | inr (inl itself) ↦ absurd (left x e itself)
          | inr (inr absent) ↦ absurd absent
        ]
        | inr (_, wrong) ↦ absurd (done_on_stack wrong)
      ],
    )
      where
        done_on_stack : done ≡ on_stack → ⊥
        done_on_stack wrong = cc

        left : (x : Node) → set_mark u.state n done x ≡ on_stack → x ≡ n → ⊥
        left x e itself = done_on_stack (
            sym (set_mark_self u.state n done)
            ∙ subst (λ y. set_mark u.state n done y ≡ on_stack) itself e)
    leave-Reports n stack (found s m) h = h
    leave-Reports n stack spent h = tt

    visit-Reports : (fuel : ℕ) → Reporting (visit t fuel)
    unfolding visit
    visit-Reports zero n w way = tt
    visit-Reports (suc fuel) n w way =
        step_rule (Reports w.stack) (visit t fuel) (callees t n) n w
          (λ new. leave-Reports n w.stack _ (
            visit_all-Reports (visit t fuel) (w.stack ++ n ∷ []) (callees t n) (visit-Reports fuel)
              further (enter n w) (enter-Reports n w way)))
          (λ again. (way.walk, way.start, way.marked n again)) (λ old. (refl, way.marked))
      where
        further :
            (m : Node)
            → Mem m (callees t n)
            → IsWalk t ((w.stack ++ n ∷ []) ++ m ∷ [])
              × StartsIn roots ((w.stack ++ n ∷ []) ++ m ∷ [])
        further m called = (
          IsWalk-snoc w.stack n m way.walk (Calls-of_mem-callees t n m called),
          StartsIn-append roots (w.stack ++ n ∷ []) (m ∷ []) way.start,
        )

  -- The part of a walk from the first `n` on.
  from_first-IsWalk :
      (s : List Node) (n : Node)
      → Mem n s
      → IsWalk t (s ++ n ∷ [])
      → (rest : List Node) × (from_first s n ≡ some (n ∷ rest)) × IsWalk t (n ∷ (rest ++ n ∷ []))
  unfolding from_first
  from_first-IsWalk [] n m h = absurd m
  from_first-IsWalk (x ∷ s) n m h = elim (Bool-cases (node_eq x n)) [
    | inl e ↦
        let same = node_eq_iff_to x n e in
        (
          s,
          rw (e, from_first) (ap (λ y. some (y ∷ s)) same),
          subst (λ y. IsWalk t (y ∷ (s ++ n ∷ []))) same h,
        )
    | inr e ↦
        let later : Mem n s = ground (arith, node_eq_refl n) in
        let (rest, found_at, walk) = from_first-IsWalk s n later (IsWalk-tail x (s ++ n ∷ []) h) in
        (rest, rw (e, from_first) found_at, walk)
  ]

-- A reported cycle is real. The stack with the repeated node is a walk of the call graph from a
-- root route, and the part that formatCycle prints is a walk from the repeated node back to it.
pub detect_cycles-IsWalk :
    {F : Type 0} (f : File F) (stack : List Node) (n : Node)
    → detect_cycles f ≡ found stack n
    → IsWalk f.topology (stack ++ n ∷ [])
      × StartsIn (root_nodes f.root_routes) (stack ++ n ∷ [])
      × ((rest : List Node) × (cycle_of stack n ≡ n ∷ rest)
          × IsWalk f.topology (n ∷ (rest ++ n ∷ [])))
unfolding detect_cycles cycle_of
detect_cycles-IsWalk f stack n e =
    let t = f.topology in
    let roots = root_nodes f.root_routes in
    let go = visit t (suc (length (known t))) in
    let (walk, start, again) = subst (Reports t roots []) e (
      visit_all-Reports t roots go [] roots (visit-Reports t roots (suc (length (known t))))
        (λ m h. (tt, h)) fresh (refl, λ x wrong. cc)) in
    let (rest, first, closed) = from_first-IsWalk t stack n again walk in
    (walk, start, (rest, ground arith, closed))
