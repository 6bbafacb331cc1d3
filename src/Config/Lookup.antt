-- ===== src/Config/Lookup.antt =====
-- Look-ups by name return the first entry of that name, and fail only where there is none.
use otel_ecom_load_genrator.Prelude.{
  ◌≡◌, subst, sym, some, List, [], ◌∷◌, arith, Bool-cases, inl, inr, Mem,
}
use otel_ecom_load_genrator.Prelude.Text.{Text, text_eq, text_eq_iff}
use otel_ecom_load_genrator.Config.{
  Service, Route, lookup, Topology, find_service_in, find_service, find_route_in, find_route,
}

pub lookup-mem :
    {V : Type 0} (k : Text) (m : List (Text × V)) {v : V} → lookup k m ≡ some v → Mem (k, v) m
unfolding lookup
lookup-mem k [] h = cc
lookup-mem k ((j, w) ∷ m) {v} h = elim (Bool-cases (text_eq j k)) [
  | inl e ↦ inl (cc (h, e, (text_eq_iff j k).0 e))
  | inr e ↦ inr (lookup-mem k m (rw (e, lookup) at h))
]

-- In a map with distinct keys each pair is found.
abbrev pub Distinct : List Text → Type 0
Distinct [] = Unit
Distinct (x ∷ xs) = ¬ Mem x xs × Distinct xs

abbrev pub keys : {V : Type 0} → List (Text × V) → List Text
keys [] = []
keys ((k, _) ∷ m) = k ∷ keys m

pub mem-keys : {V : Type 0} (k : Text) (v : V) (m : List (Text × V)) → Mem (k, v) m → Mem k (keys m)
mem-keys k v [] h = absurd h
mem-keys k v ((j, w) ∷ m) (inl e) = inl (cc)
mem-keys k v ((j, w) ∷ m) (inr h) = inr (mem-keys k v m h)

pub mem-lookup :
    {V : Type 0} (k : Text) (m : List (Text × V)) {v : V}
    → Distinct (keys m)
    → Mem (k, v) m
    → lookup k m ≡ some v
unfolding lookup
mem-lookup k [] d h = absurd h
mem-lookup k ((j, w) ∷ m) {v = v} d (inl e) = ground (arith, text_eq_iff j k)
mem-lookup k ((j, w) ∷ m) {v = v} d (inr h) = elim (Bool-cases (text_eq j k)) [
  | inl e ↦
      absurd (d.0 (subst (λ x. Mem x (keys m)) (sym ((text_eq_iff j k).0 e)) (mem-keys k v m h)))
  | inr e ↦ rw e (mem-lookup k m d.1 h)
]

module _ {F : Type 0} where
  find_service_in-mem :
      (ss : List (Service F)) (name : Text) (s : Service F)
      → find_service_in ss name ≡ some s
      → Mem s ss × (s.service_name ≡ name)
  unfolding find_service_in
  find_service_in-mem [] name s h = cc
  find_service_in-mem (x ∷ xs) name s h = elim (Bool-cases (text_eq x.service_name name)) [
    | inl e ↦
        let same : x ≡ s = ground arith in
        (
          inl (sym same),
          subst (λ (y : Service F). y.service_name ≡ name) same ((text_eq_iff _ _).0 e),
        )
    | inr e ↦
        let (m, n) = find_service_in-mem xs name s (rw (e, find_service_in) at h) in (inr m, n)
  ]

  pub find_service-mem :
      (t : Topology F) (name : Text) (s : Service F)
      → find_service t name ≡ some s
      → Mem s t.services × (s.service_name ≡ name)
  unfolding find_service
  find_service-mem t name s h = find_service_in-mem t.services name s h

  find_route_in-mem :
      (rs : List (Route F)) (name : Text) (r : Route F)
      → find_route_in rs name ≡ some r
      → Mem r rs × (r.route ≡ name)
  unfolding find_route_in
  find_route_in-mem [] name r h = cc
  find_route_in-mem (x ∷ xs) name r h = elim (Bool-cases (text_eq x.route name)) [
    | inl e ↦
        let same : x ≡ r = ground arith in
        (inl (sym same), subst (λ (y : Route F). y.route ≡ name) same ((text_eq_iff _ _).0 e))
    | inr e ↦ let (m, n) = find_route_in-mem xs name r (rw (e, find_route_in) at h) in (inr m, n)
  ]

  pub find_route-mem :
      (s : Service F) (name : Text) (r : Route F)
      → find_route s name ≡ some r
      → Mem r s.routes × (r.route ≡ name)
  unfolding find_route
  find_route-mem s name r h = find_route_in-mem s.routes name r h
