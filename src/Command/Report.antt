-- ===== src/Command/Report.antt =====
-- The message of a failed Shutdown, and firstLine, which shortens it.
use otel_ecom_load_genrator.Prelude.{suc, List, [], ◌∷◌, ◌++◌, map, length}
use otel_ecom_load_genrator.Prelude.Int.{pos}
use otel_ecom_load_genrator.Prelude.Text.{Text, bytes, trim_space, split_byte, join_lines}
use otel_ecom_load_genrator.Telemetry.Attributes.{format_int}
use otel_ecom_load_genrator.Telemetry.Providers.{
  Call, on, close, Op, flushing, shutting_down, Signal, traces, metrics, logs,
}

abbrev pub op_text : Op → Text
op_text flushing = bytes "flushing"
op_text shutting_down = bytes "shutting down"

abbrev pub signal_text : Signal → Text
signal_text traces = bytes " traces: "
signal_text metrics = bytes " metrics: "
signal_text logs = bytes " logs: "

-- The errors that forEachProvider and Shutdown wrap.
unfoldable pub line_of : Call × Text → Text
line_of (on op signal i, e) = op_text op ++ (signal_text signal ++ e)
line_of (close, e) = bytes "closing the gRPC connection: " ++ e

unfoldable pub message : List (Call × Text) → Text
unfolding line_of
message errors = join_lines (map line_of errors)

-- One line is returned as the message came; of more, the first and the number of the others.
unfoldable pub first_of : Text → List Text → Text
unfolding format_int
first_of msg [] = msg
first_of msg (line ∷ []) = msg
first_of msg (line ∷ next ∷ rest) =
    line ++ (bytes " (and " ++ (format_int (pos (suc (length rest))) ++ bytes " more)"))

unfoldable pub first_line : Text → Text
unfolding trim_space split_byte first_of
first_line msg = first_of msg (split_byte 10 (trim_space msg))
