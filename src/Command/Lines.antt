-- ===== src/Command/Lines.antt =====
-- firstLine on the message of a failed Shutdown.
use otel_ecom_load_genrator.Prelude.{
  ◌≡◌, refl, ◌∙◌, suc, List, [], ◌∷◌, ◌++◌, map, length, All, ap, length-map,
}
use otel_ecom_load_genrator.Prelude.Int.{pos}
use otel_ecom_load_genrator.Prelude.Text.{
  Text, bytes, trim_space, split_byte, Lacks, split_byte-join_lines,
}
use otel_ecom_load_genrator.Telemetry.Attributes.{format_int}
use otel_ecom_load_genrator.Telemetry.Providers.{Call}
use otel_ecom_load_genrator.Command.Report.{line_of, message, first_of, first_line}

All-map_lines :
    (errors : List (Call × Text))
    → All (λ (e : Call × Text). Lacks 10 (line_of e)) errors
    → All (Lacks 10) (map line_of errors)
All-map_lines [] h = tt
All-map_lines (e ∷ es) h = (h.0, All-map_lines es h.1)

-- firstLine renders the message of a Shutdown as the first of its errors with the number of the
-- others, and a single error as it stands, where no error has a line break and the message neither
-- begins nor ends with white space.
pub first_line-message :
    (e : Call × Text) (es : List (Call × Text))
    → All (λ (x : Call × Text). Lacks 10 (line_of x)) (e ∷ es)
    → trim_space (message (e ∷ es)) ≡ message (e ∷ es)
    → first_line (message (e ∷ es)) ≡ elim es [
      | [] ↦ line_of e
      | _ ∷ more ↦
          line_of e ++ (bytes " (and " ++ (format_int (pos (suc (length more))) ++ bytes " more)"))
    ]
unfolding first_line message
first_line-message e es whole trimmed =
    ap (first_of (message (e ∷ es))) (
      ap (split_byte 10) trimmed
      ∙ split_byte-join_lines (line_of e) (map line_of es) (All-map_lines (e ∷ es) whole))
    ∙ shortened es
  where
    shortened :
        (rest : List (Call × Text))
        → first_of (message (e ∷ rest)) (line_of e ∷ map line_of rest) ≡ elim rest [
          | [] ↦ line_of e
          | _ ∷ more ↦
              line_of e
              ++ (bytes " (and " ++ (format_int (pos (suc (length more))) ++ bytes " more)"))
        ]
    shortened [] = unfold first_of in refl
    shortened (x ∷ more) = unfold first_of in rw (length-map line_of more) refl
