-- ===== src/Engine/Emission/Returns.antt =====
-- The recursion of EmitTrace ends on a validated topology.
use otel_ecom_load_genrator.Prelude.{
  ℕ, zero, suc, ◌<◌, ◌≡◌, refl, sym, subst, false, Option, none, some, List, [], ◌∷◌, ◌++◌, arith,
  Mem, All, All-mem, length, Option-cases, Bool-cases, inl, inr,
}
use otel_ecom_load_genrator.Prelude.Text.{Text, contains}
use otel_ecom_load_genrator.Prelude.Float64.{Float64}
use otel_ecom_load_genrator.Config.{Service, Route, Topology, File, find_service, find_route}
use otel_ecom_load_genrator.Config.Lookup.{
  Distinct, keys, mem-lookup, find_service-mem, find_route-mem,
}
use otel_ecom_load_genrator.Validate.{validate_with_warnings}
use otel_ecom_load_genrator.Validate.Verdict.{Node, Accepts}
use otel_ecom_load_genrator.Validate.Cycles.{root_nodes, known}
use otel_ecom_load_genrator.Validate.Cycles.Graph.{Calls, Terminates, ends, IsWalk, found-known}
use otel_ecom_load_genrator.Validate.Cycles.Genuine.{IsWalk-snoc}
use otel_ecom_load_genrator.Validate.Cycles.Decides.{no_return}
use otel_ecom_load_genrator.Validate.ReachEnds.{unseen_count, unseen_count-le, unseen_count-cons_lt}
use otel_ecom_load_genrator.Validate.FileExact.{validate_with_warnings_iff}
use otel_ecom_load_genrator.Validate.Reached.{mem-pair_nodes, mem-has_node}
use otel_ecom_load_genrator.Validate.Reachable.{pair_nodes, has_node}
use otel_ecom_load_genrator.Engine.Emission.{
  Counters, SpanDraws, SpanRecord, span_of, Emitted, bind_emitted, emit_all, resolve_visit,
  emit_visit, emit_trace,
}

-- Each downstreamCalls is a Go map: no key stands in it twice.
abbrev pub IsDecoded : {F : Type 0} → Topology F → Type 0
IsDecoded {F} t =
    All (λ (s : Service F). All (λ (r : Route F). Distinct (keys r.downstream_calls)) s.routes)
      t.services

-- The look-ups of a visit that emits.
pub resolve_visit-some :
    {F : Type 0} (t : Topology F) (emitters : List Text) (n : Node) (s : Service F) (r : Route F)
    → resolve_visit t emitters n ≡ some (s, r)
    → (find_service t n.service ≡ some s) × (find_route s n.route ≡ some r)
unfolding resolve_visit
resolve_visit-some t emitters n s r h = elim (Option-cases (find_service t n.service)) [
  | inl e ↦ ground arith
  | inr (s', e) ↦ elim (Option-cases (find_route s' n.route)) [
    | inl e' ↦ ground arith
    | inr (r', e') ↦ elim (Bool-cases (contains n.service emitters)) [
      | inl e'' ↦ ground arith
      | inr e'' ↦ ground arith
    ]
  ]
]

module _ {F : Type 0} (t : Topology F) where
  -- What a visit goes on to is what its route calls.
  pub Calls-of_mem-pair_nodes :
      (n m : Node) (s : Service F) (r : Route F)
      → IsDecoded t
      → find_service t n.service ≡ some s
      → find_route s n.route ≡ some r
      → Mem m (pair_nodes r.downstream_calls)
      → Calls t n m
  Calls-of_mem-pair_nodes n m s r decoded hs hr h =
      let in_services = (find_service-mem t n.service s hs).0 in
      let in_routes = (find_route-mem s n.route r hr).0 in
      let distinct =
        All-mem (λ (x : Route F). Distinct (keys x.downstream_calls)) r s.routes
          (All-mem
            (λ (x : Service F). All (λ (y : Route F). Distinct (keys y.downstream_calls)) x.routes)
            s t.services decoded in_services)
          in_routes in
      record {
        svc = s;
        route = r;
        found_service = hs;
        found_route = hr;
        target =
            mem-lookup m.service r.downstream_calls distinct
              (mem-pair_nodes r.downstream_calls m h);
      }

module _ {F : Type 0} where
  abbrev IsSome : Emitted F → Type 0
  IsSome e = (out : List (SpanRecord F) × Counters) × (e ≡ some out)

  bind_emitted-IsSome :
      (e : Emitted F) (k : List (SpanRecord F) → Counters → Emitted F)
      → IsSome e
      → ((spans : List (SpanRecord F)) (c : Counters) → IsSome (k spans c))
      → IsSome (bind_emitted e k)
  bind_emitted-IsSome e k ((spans, c), h) each = rw h (each spans c)

  emit_all-IsSome :
      (go : List ℕ → Node → Counters → Emitted F) (ns : List Node)
      → ((m : Node) → Mem m ns → (p : List ℕ) (c : Counters) → IsSome (go p m c))
      → (position : List ℕ) (i : ℕ) (c : Counters) → IsSome (emit_all go position i ns c)
  unfolding emit_all
  emit_all-IsSome go [] each position i c = (([], c), refl)
  emit_all-IsSome go (n ∷ ns) each position i c =
      bind_emitted-IsSome (go (position ++ i ∷ []) n c) _ (each n (inl refl) _ c) λ spans c1.
        bind_emitted-IsSome (emit_all go position (suc i) ns c1) _
          (emit_all-IsSome go ns (λ m h. each m (inr h)) position (suc i) c1)
          λ more c2. ((spans ++ more, c2), refl)

module _ {F : Type 0} (t : Topology F) where
  abbrev Leads : Node → Node → Type 0
  Leads v n = (mid : List Node) × IsWalk t (v ∷ (mid ++ n ∷ []))

  way_on :
      (n m : Node) (above : List Node)
      → ((v : Node) → Mem v above → Leads v n)
      → Calls t n m
      → (v : Node) → Mem v (n ∷ above)
      → Leads v m
  way_on n m above way call v (inl same) = subst (λ x. Leads x m) (sym same) ([], (call, tt))
  way_on n m above way call v (inr higher) =
      let (mid, walk) = way v higher in (mid ++ n ∷ [], IsWalk-snoc t (v ∷ mid) n m walk call)

  new_on_way :
      (n : Node) (above : List Node)
      → Terminates t n
      → ((v : Node) → Mem v above → Leads v n)
      → has_node n above ≡ false
  new_on_way n above n_ends way = elim (Bool-cases (has_node n above)) [
    | inl old ↦
        let (mid, walk) = way n (mem-has_node n above old) in absurd (no_return t n n_ends mid walk)
    | inr new ↦ new
  ]

module _ {F : Type 0} ⦃fl : Float64 F⦄ (t : Topology F) (emitters : List Text)
    (plan : List ℕ → SpanDraws F) where
  visit-IsSome :
      (fuel : ℕ) (p : List ℕ) (n : Node) (found : Option (Service F × Route F)) (c : Counters)
      → ((s : Service F) (r : Route F)
          → found ≡ some (s, r)
          → (m : Node) → Mem m (pair_nodes r.downstream_calls)
          → (q : List ℕ) (c' : Counters) → IsSome (emit_trace t emitters plan fuel q m c'))
      → IsSome (emit_visit (emit_trace t emitters plan fuel) (plan p) p n found c)
  unfolding emit_visit
  visit-IsSome fuel p n none c each = (([], c), refl)
  visit-IsSome fuel p n (some (s, r)) c each =
      bind_emitted-IsSome _ _
        (emit_all-IsSome (emit_trace t emitters plan fuel) (pair_nodes r.downstream_calls)
          (each s r refl) p 0 _)
        λ spans c1. ((span_of (plan p) p n s r ∷ spans, c1), refl)

  -- The nodes `above` lie on the way to n. None of them is n, so n is a declared node that counts.
  emit_trace-IsSome :
      IsDecoded t
      → (fuel : ℕ) (n : Node) (above : List Node) → Terminates t n
      → ((v : Node) → Mem v above → Leads t v n)
      → unseen_count above (known t) < fuel
      → (p : List ℕ) (c : Counters) → IsSome (emit_trace t emitters plan fuel p n c)
  unfolding emit_trace
  emit_trace-IsSome decoded zero n above n_ends way h p c = absurd (omega arith)
  emit_trace-IsSome decoded (suc fuel) n above (ends _ below) way h p c =
      visit-IsSome fuel p n (resolve_visit t emitters n) c λ s r e m called.
        let (hs, hr) = resolve_visit-some t emitters n s r e in
        let call = Calls-of_mem-pair_nodes t n m s r decoded hs hr called in
        let new = new_on_way t n above (ends n below) way in
        emit_trace-IsSome decoded fuel m (n ∷ above) (below m call) (way_on t n m above way call)
          (omega (arith, unseen_count-cons_lt n above (known t) (found-known t n s r hs hr) new))

-- On a document that ValidateWithWarnings accepts, EmitTrace returns from every root route, whatever
-- is drawn and whichever services have an emitter, at every position and from every state of the
-- counters: its recursion is never deeper than the number of declared routes and one more.
pub emit_trace_returns :
    {F : Type 0} ⦃fl : Float64 F⦄ (f : File F) (emitters : List Text) (plan : List ℕ → SpanDraws F)
    (n : Node) (fuel : ℕ) (p : List ℕ) (c : Counters)
    → Accepts (validate_with_warnings (some f))
    → IsDecoded f.topology
    → Mem n (root_nodes f.root_routes)
    → length (known f.topology) < fuel
    → (out : List (SpanRecord F) × Counters) × (emit_trace f.topology emitters plan fuel p n c
        ≡ some out)
emit_trace_returns f emitters plan n fuel p c accepted decoded root enough =
    emit_trace-IsSome f.topology emitters plan decoded fuel n []
      (((validate_with_warnings_iff f).0 accepted).all_end n root) (λ v h. absurd h)
      (omega (arith, unseen_count-le [] (known f.topology))) p c
