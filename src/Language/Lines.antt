-- ===== src/Language/Lines.antt =====
-- The logical lines of a source: splitLogicalLines (satis/parser.go).
pub mod Plain
use satis.Base.{
  ℕ, zero, suc, ◌+◌, Text, bytes, text_eq, Bool, true, false, not, ◌&&◌, ◌==◌, if◌then◌else◌, List,
  [], ◌∷◌, ◌++◌,
}
use satis.Vfs.Names.{trim_space}
use satis.Language.Chars.{has_prefix, opening, closing}

-- What parsing returns: an error names a line, and its message is not modelled.
pub data Parsed {ℓ} (A : Type ℓ) : Type ℓ where
  ok : A → Parsed A
  err : ℕ → Parsed A

pub record LogicalLine : Type 0 where
  pub line_no : ℕ
  pub text : Text

-- `inTriple` and `inComment`, which are never both set.
pub data Mode : Type 0 where
  plain in_triple in_comment : Mode

pub record Splitter : Type 0 where
  pub lines : List LogicalLine
  pub current : Text
  pub line_no : ℕ
  pub start_line : ℕ
  pub mode : Mode

abbrev pub is_empty : Text → Bool
is_empty [] = true
is_empty (c ∷ cs) = false

-- builderIsBlank
abbrev pub is_blank_text : Text → Bool
is_blank_text s = is_empty (trim_space s)

-- `current.WriteString(s)`, behind the note of where the logical line starts.
abbrev pub write : Text → Splitter → Splitter
write s st = record st {
  current = st.current ++ s;
  start_line = if is_empty st.current then st.line_no else st.start_line;
}

abbrev pub end_line : Splitter → Splitter
end_line st = record st {
  lines = st.lines ++ record { line_no = st.start_line; text = st.current } ∷ [];
  current = [];
  line_no = st.line_no + 1;
  start_line = st.line_no + 1;
}

-- How many bytes behind the first one are passed over, and the next state.
abbrev pub step_comment : Text → ℕ → Splitter → ℕ × Splitter
step_comment rest c st =
    if has_prefix (bytes "*/") rest
    then (1, record st { mode = plain })
    else if c == b'\n'
    then (0, record st { line_no = st.line_no + 1 })
    else (0, st)

abbrev pub step_triple : Text → ℕ → Splitter → ℕ × Splitter
step_triple rest c st =
    if has_prefix closing rest
    then (2, record st { current = st.current ++ closing; mode = plain })
    else if c == b'\n'
    then (0, record st { current = st.current ++ c ∷ []; line_no = st.line_no + 1 })
    else (0, record st { current = st.current ++ c ∷ [] })

abbrev pub step_plain : Text → ℕ → Splitter → ℕ × Splitter
step_plain rest c st =
    if has_prefix (bytes "/*") rest && is_blank_text st.current
    then (1, record st { mode = in_comment })
    else if has_prefix opening rest
    then (2, record (write opening st) { mode = in_triple })
    else if c == b'\r'
    then (0, st)
    else if c == b'\n'
    then (0, end_line st)
    else (0, write (c ∷ []) st)

unfoldable pub split_step : Text → ℕ → Splitter → ℕ × Splitter
unfolding has_prefix trim_space
split_step rest c st = elim st.mode [
  | in_comment ↦ step_comment rest c st
  | in_triple ↦ step_triple rest c st
  | plain ↦ step_plain rest c st
]

-- The loop; the first argument is how many bytes are still passed over.
unfoldable pub split_from : ℕ → Text → Splitter → Splitter
unfolding split_step
split_from k [] st = st
split_from (suc k) (c ∷ cs) st = split_from k cs st
split_from zero (c ∷ cs) st = let next = split_step (c ∷ cs) c st in split_from next.0 cs next.1

abbrev pub last_line : Splitter → List LogicalLine
last_line st =
    if is_empty st.current && not (elim st.lines [ [] ↦ true | _ ∷ _ ↦ false ])
    then st.lines
    else st.lines ++ record { line_no = st.start_line; text = st.current } ∷ []

abbrev pub ended : Splitter → Parsed (List LogicalLine)
ended st = elim st.mode [
  | in_comment ↦ err st.line_no
  | in_triple ↦ err st.start_line
  | plain ↦ ok (last_line st)
]

abbrev pub start_splitter : Splitter
start_splitter = record { lines = []; current = []; line_no = 1; start_line = 1; mode = plain }

unfoldable pub split_logical_lines : Text → Parsed (List LogicalLine)
unfolding split_from
split_logical_lines src = ended (split_from 0 src start_splitter)
