-- ===== src/Examiner/Trace.antt =====
-- pkg/http/examiner.go: reading the body of a trace request.
use xray_knife.Prelude.{List, [], ◌∷◌, Option, none, some, if◌then◌else◌, ◌==◌}
use xray_knife.Text.{Text, bytes, eq_text, is_empty, cut, split}
use xray_knife.Examiner.Types.{Result}

-- parseTraceBody: bufio.Scanner's lines, of which a trailing carriage return is no part.
unfoldable pub drop_cr : Text → Text
drop_cr line = elim (trim_suffix_cr line) [ none ↦ line | some l ↦ l ]
  where
    trim_suffix_cr : Text → Option Text
    trim_suffix_cr [] = none
    trim_suffix_cr (a ∷ []) = if a == 13 then some [] else none
    trim_suffix_cr (a ∷ b ∷ s) = elim (trim_suffix_cr (b ∷ s)) [
      | none ↦ none
      | some t ↦ some (a ∷ t)
    ]

unfoldable pub trace_line : {P : Type 0} → Result P → Text → Result P
unfolding drop_cr
trace_line r line = elim (cut (drop_cr line) (bytes "=")) [
  | none ↦ r
  | some (key, val) ↦
      if eq_text key (bytes "ip")
      then record r { real_ip_addr = val }
      else if eq_text key (bytes "loc")
      then record r { ip_addr_loc = val }
      else r
]

unfoldable pub trace_lines : {P : Type 0} → Result P → List Text → Result P
unfolding trace_line
trace_lines r [] = r
trace_lines r (line ∷ lines) = trace_lines (trace_line r line) lines

unfoldable pub parse_trace_body : {P : Type 0} → Text → Result P → Result P
unfolding trace_lines
parse_trace_body body r = if is_empty body then r else trace_lines r (split body 10)
