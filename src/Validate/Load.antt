-- ===== src/Validate/Load.antt =====
-- internal/config/load.go. os.ReadFile and the JSON decoder, which refuses unknown fields, are given
-- by arguments: each returns its error, or the bytes and the document.
use otel_ecom_load_genrator.Prelude.{◌≡◌, none, some, List, [], inl, inr, arith, Option-cases}
use otel_ecom_load_genrator.Prelude.Text.{Text}
use otel_ecom_load_genrator.Prelude.Float64.{Float64}
use otel_ecom_load_genrator.Config.{File}
use otel_ecom_load_genrator.Validate.Verdict.{Error, Warning, Accepts}
use otel_ecom_load_genrator.Validate.{validate_with_warnings}

pub data Attempt (A : Type 0) : Type 0 where
  done : A → Attempt A
  broken : Text → Attempt A

pub data LoadFault : Type 0 where
  unreadable unparsable : Text → LoadFault
  invalid : Error → LoadFault

-- The document with its warnings, or the warnings up to an error.
pub data Loaded (F : Type 0) : Type 0 where
  loaded : File F → List Warning → Loaded F
  not_loaded : List Warning → LoadFault → Loaded F

module _ {F : Type 0} ⦃fl : Float64 F⦄ where
  unfoldable pub load_decoded : File F → Loaded F
  unfolding validate_with_warnings
  load_decoded f =
      let report = validate_with_warnings (some f) in
      elim report.error [
        | none ↦ loaded f report.warnings
        | some e ↦ not_loaded report.warnings (invalid e)
      ]

  unfoldable pub load : (Text → Attempt Text) → (Text → Attempt (File F)) → Text → Loaded F
  unfolding load_decoded
  load read decode path = elim (read path) [
    | broken e ↦ not_loaded [] (unreadable e)
    | done raw ↦ elim (decode raw) [
      | broken e ↦ not_loaded [] (unparsable e)
      | done f ↦ load_decoded f
    ]
  ]

  load_decoded-Accepts :
      (f f' : File F) (ws : List Warning)
      → load_decoded f ≡ loaded f' ws
      → Accepts (validate_with_warnings (some f'))
  unfolding load_decoded
  load_decoded-Accepts f f' ws h = elim (Option-cases (validate_with_warnings (some f)).error) [
    | inl e ↦ ground arith
    | inr (x, e) ↦ ground arith
  ]

  -- What is loaded was accepted.
  pub load-Accepts :
      (read : Text → Attempt Text) (decode : Text → Attempt (File F)) (path : Text) (f : File F)
      (ws : List Warning)
      → load read decode path ≡ loaded f ws
      → Accepts (validate_with_warnings (some f))
  unfolding load
  load-Accepts read decode path f ws h = by_read (read path) h
    where
      by_decode :
          (d : Attempt (File F))
          → elim d [ broken e ↦ not_loaded [] (unparsable e) | done f' ↦ load_decoded f' ]
            ≡ loaded f ws
          → Accepts (validate_with_warnings (some f))
      by_decode (broken e) k = cc
      by_decode (done f') k = load_decoded-Accepts f' f ws k

      by_read :
          (r : Attempt Text)
          → elim r [
            | broken e ↦ not_loaded [] (unreadable e)
            | done raw ↦ elim (decode raw) [
              | broken e ↦ not_loaded [] (unparsable e)
              | done f' ↦ load_decoded f'
            ]
          ]
            ≡ loaded f ws
          → Accepts (validate_with_warnings (some f))
      by_read (broken e) k = cc
      by_read (done raw) k = by_decode (decode raw) k
