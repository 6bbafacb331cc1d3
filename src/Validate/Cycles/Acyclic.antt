-- ===== src/Validate/Cycles/Acyclic.antt =====
-- When detectCycles finds nothing, no chain of calls from a root route is endless.
use otel_ecom_load_genrator.Prelude.{
  ℕ, zero, suc, ◌≡◌, ◌⊎◌, inl, inr, refl, sym, List, [], ◌∷◌, arith, Mem, subst, length,
}
use otel_ecom_load_genrator.Config.{Topology, File}
use otel_ecom_load_genrator.Validate.Verdict.{Node}
use otel_ecom_load_genrator.Validate.Cycles.{
  Mark, unvisited, on_stack, done, Walk, Outcome, finished, found, spent, set_mark, enter, leave,
  and_then, visit_all, callees, visit, known, fresh, root_nodes, detect_cycles,
}
use otel_ecom_load_genrator.Validate.Cycles.Graph.{
  node_eq_iff_to, node_eq_refl, Terminates, ends, mem-callees, step_rule,
}

pub set_mark_self : (state : Node → Mark) (n : Node) (m : Mark) → set_mark state n m n ≡ m
unfolding set_mark
set_mark_self state n m = ground (arith, node_eq_refl n)

-- What a mark other than the new one says was said before.
pub set_mark_old :
    (state : Node → Mark) (n : Node) (m k : Mark) (x : Node)
    → set_mark state n m x ≡ k
    → (state x ≡ k) ⊎ (n ≡ x) × (m ≡ k)
unfolding set_mark
set_mark_old state n m k x h = ground (arith, node_eq_iff_to n x)

set_mark_keeps :
    (state : Node → Mark) (n : Node) (m k : Mark) (x : Node)
    → (n ≡ x → m ≡ k)
    → state x ≡ k
    → set_mark state n m x ≡ k
unfolding set_mark
set_mark_keeps state n m k x h e = ground (arith, node_eq_iff_to n x)

module _ {F : Type 0} (t : Topology F) where
  abbrev IsSettled : Walk → Type 0
  IsSettled w = (x : Node) → w.state x ≡ done → Terminates t x

  abbrev Keeps : Walk → Walk → Type 0
  Keeps w w' = (x : Node) → w.state x ≡ done → w'.state x ≡ done

  -- A loop that returns has settled each of its nodes.
  abbrev Settles : List Node → Walk → Outcome → Type 0
  Settles ns w (finished w') =
      IsSettled w' × Keeps w w' × ((x : Node) → Mem x ns → w'.state x ≡ done)
  Settles ns w (found _ _) = Unit
  Settles ns w spent = Unit

  and_then-Settles :
      (n : Node) (ns : List Node) (w : Walk) (o : Outcome) (k : Walk → Outcome)
      → Settles (n ∷ []) w o
      → ((w' : Walk) → IsSettled w' → Settles ns w' (k w'))
      → Settles (n ∷ ns) w (and_then o k)
  and_then-Settles n ns w (finished w') k h each = combine (k w') (each w' h.0)
    where
      combine : (o : Outcome) → Settles ns w' o → Settles (n ∷ ns) w o
      combine (finished u) r = (
        r.0,
        λ x e. r.1 x (h.1 x e),
        λ x m. elim m [ inl same ↦ r.1 x (h.2 x (inl same)) | inr later ↦ r.2 x later ],
      )
      combine (found _ _) r = tt
      combine spent r = tt
  and_then-Settles n ns w (found _ _) k h each = tt
  and_then-Settles n ns w spent k h each = tt

  visit_all-Settles :
      (go : Node → Walk → Outcome)
      → ((n : Node) (w : Walk) → IsSettled w → Settles (n ∷ []) w (go n w))
      → (ns : List Node) (w : Walk) → IsSettled w
      → Settles ns w (visit_all go ns w)
  unfolding visit_all
  visit_all-Settles go each [] w h = (h, λ x e. e, λ x m. absurd m)
  visit_all-Settles go each (n ∷ ns) w h =
      and_then-Settles n ns w (go n w) (visit_all go ns) (each n w h) (visit_all-Settles go each ns)

  enter-IsSettled : (n : Node) (w : Walk) → IsSettled w → IsSettled (enter n w)
  unfolding enter
  enter-IsSettled n w h x e = elim (set_mark_old w.state n on_stack done x e) [
    | inl old ↦ h x old
    | inr (_, wrong) ↦ cc
  ]

  leave-Settles :
      (n : Node) (w : Walk) (o : Outcome)
      → w.state n ≡ unvisited
      → Settles (callees t n) (enter n w) o
      → Settles (n ∷ []) w (leave n o)
  unfolding leave enter
  leave-Settles n w (finished u) new (settled, kept, called) = (
    λ x e. elim (set_mark_old u.state n done done x e) [
      | inl old ↦ settled x old
      | inr (same, _) ↦ subst (Terminates t) same n_ends
    ],
    λ x e.
        set_mark_keeps u.state n done done x (λ _. refl)
          (kept x (set_mark_keeps w.state n on_stack done x (λ same. cc) e)),
    λ x m. elim m [
      | inl same ↦
          subst (λ y. set_mark u.state n done y ≡ done) (sym same) (set_mark_self u.state n done)
      | inr absent ↦ absurd absent
    ],
  )
    where
      n_ends : Terminates t n
      n_ends = ends n (λ m c. settled m (called m (mem-callees t n m c)))
  leave-Settles n w (found _ _) new h = tt
  leave-Settles n w spent new h = tt

  visit-Settles :
      (fuel : ℕ) (n : Node) (w : Walk) → IsSettled w → Settles (n ∷ []) w (visit t fuel n w)
  unfolding visit
  visit-Settles zero n w h = tt
  visit-Settles (suc fuel) n w h =
      step_rule (Settles (n ∷ []) w) (visit t fuel) (callees t n) n w
        (λ new. leave-Settles n w _ new (
          visit_all-Settles (visit t fuel) (visit-Settles fuel) (callees t n) (enter n w)
            (enter-IsSettled n w h)))
        (λ _. tt)
        (λ old. (
          h,
          λ x e. e,
          λ x m. elim m [
            | inl same ↦ subst (λ y. w.state y ≡ done) (sym same) old
            | inr absent ↦ absurd absent
          ],
        ))

-- If detectCycles reports no cycle, every chain of calls from every root route ends.
pub detect_cycles-Terminates :
    {F : Type 0} (f : File F) (w : Walk) (n : Node)
    → detect_cycles f ≡ finished w
    → Mem n (root_nodes f.root_routes)
    → Terminates f.topology n
unfolding detect_cycles
detect_cycles-Terminates f w n e m =
    let t = f.topology in
    let go = visit t (suc (length (known t))) in
    let (settled, _, roots) = subst (Settles t (root_nodes f.root_routes) fresh) e (
      visit_all-Settles t go (visit-Settles t (suc (length (known t)))) (root_nodes f.root_routes)
        fresh (λ x wrong. cc)) in
    settled n (roots n m)
