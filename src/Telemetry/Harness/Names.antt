-- ===== src/Telemetry/Harness/Names.antt =====
-- The names that CollectMetricNames returns.
use otel_ecom_load_genrator.Prelude.{
  ◌≡◌, refl, sym, Bool-cases, subst, some, List, [], ◌∷◌, Mem, ◌⊎◌, inl, inr, ◌↔◌, arith,
}
use otel_ecom_load_genrator.Prelude.Text.{Text, contains, contains_iff}
use otel_ecom_load_genrator.Telemetry.Harness.{
  gathered, add_name, add_names, scope_names, collect_metric_names,
}

add_name-Mem :
    (name n : Text) (out : List Text) → Mem name (add_name n out) ↔ ((name ≡ n) ⊎ Mem name out)
add_name-Mem name n out = elim (Bool-cases (contains n out)) [
  | inl e ↦ rw e (
    (λ m. inr m),
    (λ h. elim h [
      | inl same ↦ subst (λ x. Mem x out) (sym same) ((contains_iff n out).0 e)
      | inr m ↦ m
    ]),
  )
  | inr e ↦ rw e ((λ h. h), (λ h. h))
]

add_names-Mem :
    (name : Text) (names out : List Text)
    → Mem name (add_names names out) ↔ (Mem name names ⊎ Mem name out)
unfolding add_names
add_names-Mem name [] out = ground arith
add_names-Mem name (n ∷ names) out =
    let added_first = add_name-Mem name n out in
    let rest = add_names-Mem name names (add_name n out) in ground arith

scope_names-Mem :
    (name : Text) (scopes : List (List Text)) (out : List Text)
    → Mem name (scope_names scopes out)
      ↔ (((names : List Text) × Mem names scopes × Mem name names) ⊎ Mem name out)
unfolding scope_names
scope_names-Mem name [] out = (λ m. inr m, λ h. elim h [ inl x ↦ absurd x.1 | inr m ↦ m ])
scope_names-Mem name (names ∷ scopes) out =
    let rest = scope_names-Mem name scopes (add_names names out) in
    let here = add_names-Mem name names out in
    (
      λ m. elim (rest.0 m) [
        | inl x ↦ inl (x.0, inr x.1, x.2)
        | inr k ↦ elim (here.0 k) [ inl k' ↦ inl (names, inl refl, k') | inr k' ↦ inr k' ]
      ],
      λ h. elim h [
        | inl x ↦ elim x.1 [
          | inl same ↦ rest.1 (inr (here.1 (inl (subst (λ xs. Mem name xs) same x.2))))
          | inr k ↦ rest.1 (inl (x.0, k, x.2))
        ]
        | inr k ↦ rest.1 (inr (here.1 (inr k)))
      ],
    )

-- CollectMetricNames returns a name exactly where a metric of that name stands in some scope.
pub collect_metric_names_iff :
    (scopes : List (List Text)) (out : List Text) (name : Text)
    → collect_metric_names (gathered scopes) ≡ some out
    → Mem name out ↔ ((names : List Text) × Mem names scopes × Mem name names)
unfolding collect_metric_names
collect_metric_names_iff scopes out name h =
    let all = scope_names-Mem name scopes [] in
    let same : scope_names scopes [] ≡ out = ground arith in
    subst (λ xs. Mem name xs ↔ ((names : List Text) × Mem names scopes × Mem name names)) same
      (λ m. elim (all.0 m) [ inl x ↦ x | inr nothing ↦ absurd nothing ], λ x. all.1 (inl x))
