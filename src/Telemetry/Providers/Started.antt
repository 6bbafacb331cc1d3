-- ===== src/Telemetry/Providers/Started.antt =====
-- The loop of Setup over the services, by induction on them.
use otel_ecom_load_genrator.Prelude.{
  ℕ, zero, suc, ◌+◌, ◌≤◌, ◌<◌, ◌≡◌, ◌↔◌, ◌⊎◌, inl, inr, refl, sym, ap, subst, Bool, true, false,
  none, some, List, [], ◌∷◌, ◌++◌, map, arith, Mem, length, Option-cases,
}
use otel_ecom_load_genrator.Prelude.Text.{Text}
use otel_ecom_load_genrator.Config.{Service}
use otel_ecom_load_genrator.Telemetry.Endpoint.{Protocol, grpc, http}
use otel_ecom_load_genrator.Telemetry.Providers.{
  Providers, Sdk, shutdown, Build, stages, first_error, register, SetUp, ready, refused,
  not_connected, given_up, add_services,
}

-- 0, 1, ..., n - 1.
abbrev pub upto : ℕ → List ℕ
upto zero = []
upto (suc n) = upto n ++ n ∷ []

abbrev pub has_conn : Protocol → Bool
has_conn grpc = true
has_conn http = false

-- The providers of the first n services.
pub record Trios (n : ℕ) (conn : Bool) (p : Providers) : Type 0 where
  pub trace : p.trace_providers ≡ upto n
  pub metric : p.metric_providers ≡ upto n
  pub log : p.log_providers ≡ upto n
  pub connected : p.conn ≡ conn

Trios-register :
    (i : ℕ) (conn : Bool) (name : Text) (p : Providers)
    → Trios i conn p
    → Trios (suc i) conn (register i name p)
unfolding register
Trios-register i conn name p h = record {
  trace = ap (λ xs. xs ++ i ∷ []) h.trace;
  metric = ap (λ xs. xs ++ i ∷ []) h.metric;
  log = ap (λ xs. xs ++ i ∷ []) h.log;
  connected = h.connected;
}

module _ {F : Type 0} where
  abbrev pub names : List (Service F) → List Text
  names ss = map (λ (s : Service F). s.service_name) ss

module _ (build : Build) (sdk : Sdk) (conn : Bool) where
  -- Where the loop gives up: the first error of a service, after a Shutdown of those before it.
  abbrev pub GivenUp : SetUp → Type 0
  GivenUp (given_up j stage e d) =
      (first_error build j stages ≡ some (stage, e))
      × ((q : Providers) × Trios j conn q × (d ≡ shutdown sdk q))
  GivenUp _ = Unit

module _ {F : Type 0} (build : Build) (sdk : Sdk) (conn : Bool) where
  pub add_services-GivenUp :
      (i : ℕ) (ss : List (Service F)) (p : Providers)
      → Trios i conn p
      → GivenUp build sdk conn (add_services build sdk i ss p)
  unfolding add_services
  add_services-GivenUp i [] p h = tt
  add_services-GivenUp i (s ∷ ss) p h = elim (Option-cases (first_error build i stages)) [
    | inl e ↦ rw e (
        add_services-GivenUp (suc i) ss (register i s.service_name p)
          (Trios-register i conn s.service_name p h))
    | inr ((stage, x), e) ↦ rw e (e, (p, h, refl))
  ]

  -- Where it does not: every service is registered.
  abbrev pub Ready : ℕ → List (Service F) → Providers → SetUp → Type 0
  Ready i ss p (ready q) =
      Trios (i + length ss) conn q
      × ((name : Text) → Mem name q.emitters ↔ (Mem name p.emitters ⊎ Mem name (names ss)))
      × ((j : ℕ) → i ≤ j → j < i + length ss → first_error build j stages ≡ none)
  Ready i ss p _ = Unit

  Ready-cons :
      (i : ℕ) (s : Service F) (ss : List (Service F)) (p : Providers) (o : SetUp)
      → first_error build i stages ≡ none
      → Ready (suc i) ss (register i s.service_name p) o
      → Ready i (s ∷ ss) p o
  unfolding register
  Ready-cons i s ss p (ready q) e (trios, listed, fine) = (
    let count : suc i + length ss ≡ i + suc (length ss) = omega arith in
        subst (λ n. Trios n conn q) count trios,
    λ name. (
      λ m. elim ((listed name).0 m) [
        | inl (inl same) ↦ inr (inl same)
        | inl (inr old) ↦ inl old
        | inr later ↦ inr (inr later)
      ],
      λ m. (listed name).1 (elim m [
        | inl old ↦ inl (inr old)
        | inr (inl same) ↦ inl (inl same)
        | inr (inr later) ↦ inr later
      ]),
    ),
    λ j low high. elim (first_or_later j low) [
      | inl here ↦ subst (λ k. first_error build k stages ≡ none) here e
      | inr later ↦ fine j later (omega arith)
    ],
  )
    where
      first_or_later : (j : ℕ) → i ≤ j → (i ≡ j) ⊎ (suc i ≤ j)
      first_or_later j low = ground arith
  Ready-cons i s ss p (refused _) e h = tt
  Ready-cons i s ss p (not_connected _) e h = tt
  Ready-cons i s ss p (given_up _ _ _ _) e h = tt

  pub add_services-Ready :
      (i : ℕ) (ss : List (Service F)) (p : Providers)
      → Trios i conn p
      → Ready i ss p (add_services build sdk i ss p)
  unfolding add_services
  add_services-Ready i [] p h = (
    let count : i ≡ i + 0 = omega arith in subst (λ n. Trios n conn p) count h,
    λ name. (λ m. inl m, λ m. elim m [ inl old ↦ old | inr wrong ↦ absurd wrong ]),
    λ j low high. absurd (omega arith),
  )
  add_services-Ready i (s ∷ ss) p h = elim (Option-cases (first_error build i stages)) [
    | inl e ↦ subst (Ready i (s ∷ ss) p) (sym (goes_on e)) (
        Ready-cons i s ss p _ e (
          add_services-Ready (suc i) ss (register i s.service_name p)
            (Trios-register i conn s.service_name p h)))
    | inr ((stage, x), e) ↦ rw e tt
  ]
    where
      goes_on :
          first_error build i stages ≡ none
          → add_services build sdk i (s ∷ ss) p
            ≡ add_services build sdk (suc i) ss (register i s.service_name p)
      goes_on e = rw e refl
