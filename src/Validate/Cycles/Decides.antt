-- ===== src/Validate/Cycles/Decides.antt =====
-- detectCycles decides whether the calls from the root routes all end.
use otel_ecom_load_genrator.Prelude.{◌≡◌, ◌↔◌, refl, List, [], ◌∷◌, ◌++◌, Mem}
use otel_ecom_load_genrator.Config.{Topology, File}
use otel_ecom_load_genrator.Validate.Verdict.{Node}
use otel_ecom_load_genrator.Validate.Cycles.{
  Walk, Outcome, finished, found, spent, root_nodes, detect_cycles,
}
use otel_ecom_load_genrator.Validate.Cycles.Graph.{Terminates, ends, IsWalk, StartsIn}
use otel_ecom_load_genrator.Validate.Cycles.Ends.{detect_cycles_returns}
use otel_ecom_load_genrator.Validate.Cycles.Acyclic.{detect_cycles-Terminates}
use otel_ecom_load_genrator.Validate.Cycles.Genuine.{IsWalk-snoc, detect_cycles-IsWalk}

module _ {F : Type 0} (t : Topology F) where
  -- A walk that comes back to its start can be walked again from its second node.
  pub no_return :
      (n : Node) → Terminates t n → (rest : List Node) → IsWalk t (n ∷ (rest ++ n ∷ [])) → ⊥
  no_return n (ends _ h) [] w = no_return n (h n w.0) [] w
  no_return n (ends _ h) (m ∷ rest) w =
      no_return m (h m w.0) (rest ++ n ∷ []) (IsWalk-snoc t (m ∷ rest) n m w.1 w.0)

  Terminates-last :
      (xs : List Node) (x n : Node)
      → Terminates t x
      → IsWalk t (x ∷ (xs ++ n ∷ []))
      → Terminates t n
  Terminates-last [] x n (ends _ h) w = h n w.0
  Terminates-last (y ∷ xs) x n (ends _ h) w = Terminates-last xs y n (h y w.0) w.1

  Terminates-walk :
      (roots stack : List Node) (n : Node)
      → ((r : Node) → Mem r roots → Terminates t r)
      → StartsIn roots (stack ++ n ∷ [])
      → IsWalk t (stack ++ n ∷ [])
      → Terminates t n
  Terminates-walk roots [] n all start w = all n start
  Terminates-walk roots (x ∷ xs) n all start w = Terminates-last xs x n (all x start) w

abbrev pub AllEnd : {F : Type 0} → File F → Type 0
AllEnd f = (n : Node) → Mem n (root_nodes f.root_routes) → Terminates f.topology n

abbrev pub ReportsNone : {F : Type 0} → File F → Type 0
ReportsNone f = (w : Walk) × (detect_cycles f ≡ finished w)

AllEnd-ReportsNone : {F : Type 0} (f : File F) → AllEnd f → ReportsNone f
AllEnd-ReportsNone f all = by_outcome (detect_cycles f) refl
  where
    by_outcome : (o : Outcome) → detect_cycles f ≡ o → ReportsNone f
    by_outcome (finished w) e = (w, e)
    by_outcome (found stack n) e =
        let (walk, start, (rest, _, closed)) = detect_cycles-IsWalk f stack n e in
        let n_ends = Terminates-walk f.topology (root_nodes f.root_routes) stack n all start walk in
        absurd (no_return f.topology n n_ends rest closed)
    by_outcome spent e = absurd (detect_cycles_returns f e)

-- detectCycles reports no cycle exactly when every chain of calls from every root route ends.
pub detect_cycles_decides : {F : Type 0} (f : File F) → ReportsNone f ↔ AllEnd f
detect_cycles_decides f = (
  λ none_found n m. detect_cycles-Terminates f none_found.0 n none_found.1 m,
  AllEnd-ReportsNone f,
)
