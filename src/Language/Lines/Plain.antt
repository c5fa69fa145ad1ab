-- ===== src/Language/Lines/Plain.antt =====
-- A source without triple brackets, comments and carriage returns: its logical lines are its lines.
use mathlib.Core.List.{append-nil, append_assoc}
use satis.Base.{
  ℕ, ◌+◌, Text, bytes, Bool, true, false, not, ◌||◌, ◌==◌, ==_iff, if◌then◌else◌, Bool-cases, inl,
  inr, List, [], ◌∷◌, ◌++◌, ◌≡◌, refl, sym, ap, ◌∙◌, arith,
}
use satis.Vfs.Names.{split, onto_first}
use satis.Language.Chars.{all_bytes, has_prefix, opening}
use satis.Language.Lines.{
  ok, LogicalLine, plain, Splitter, is_empty, split_step, split_from, last_line, ended,
  split_logical_lines,
}

-- A byte that opens nothing.
abbrev pub is_plain : ℕ → Bool
is_plain c = not (c == b'[' || c == b'*' || c == b'\r')

-- The pieces behind the first one; an empty one at the end is no line.
abbrev pub behind : List Text → List Text
behind [] = []
behind (p ∷ []) = if is_empty p then [] else p ∷ []
behind (p ∷ q ∷ ps) = p ∷ behind (q ∷ ps)

abbrev pub line_texts : List Text → List Text
line_texts [] = []
line_texts (p ∷ ps) = p ∷ behind ps

-- Lines with their numbers.
abbrev pub numbered : ℕ → List Text → List LogicalLine
numbered n [] = []
numbered n (p ∷ ps) = record { line_no = n; text = p } ∷ numbered (n + 1) ps

abbrev at : List LogicalLine → Text → ℕ → Splitter
at done current n = record {
  lines = done;
  current = current;
  line_no = n;
  start_line = n;
  mode = plain;
}

-- The splitter behind some pieces, of which the last is the current one.
abbrev laid : List LogicalLine → ℕ → Text → List Text → Splitter
laid done n current [] = at done current n
laid done n current (p ∷ ps) =
    laid (done ++ record { line_no = n; text = current } ∷ []) (n + 1) p ps

abbrev first_of : List Text → Text
first_of [] = []
first_of (p ∷ ps) = p

abbrev rest_of : List Text → List Text
rest_of [] = []
rest_of (p ∷ ps) = ps

onto_first_shape :
    (c : ℕ) (ps : List Text)
    → ps ≡ first_of ps ∷ rest_of ps
    → onto_first c ps ≡ (c ∷ first_of ps) ∷ rest_of ps
onto_first_shape c [] e = refl
onto_first_shape c (p ∷ ps) e = refl

split_shape : (sep : ℕ) (s : Text) → split sep s ≡ first_of (split sep s) ∷ rest_of (split sep s)
unfolding split
split_shape sep [] = refl
split_shape sep (c ∷ cs) = elim (Bool-cases (c == sep)) [
  | inl e ↦ rw e refl
  | inr e ↦ rw e (rw (onto_first_shape c (split sep cs) (split_shape sep cs)) refl)
]

no_star : (cs : Text) → all_bytes is_plain cs ≡ true → has_prefix (bytes "*") cs ≡ false
unfolding all_bytes has_prefix
no_star [] h = refl
no_star (c ∷ cs) h = ground arith

if_same {ℓ} : {A : Type ℓ} (b : Bool) (x : A) → (if b then x else x) ≡ x
if_same true x = refl
if_same false x = refl

no_comment :
    (c : ℕ) (cs : Text) → all_bytes is_plain cs ≡ true → has_prefix (bytes "/*") (c ∷ cs) ≡ false
unfolding has_prefix
no_comment c cs k = ground (arith, no_star cs k)

no_triple : (c : ℕ) (cs : Text) → is_plain c ≡ true → has_prefix opening (c ∷ cs) ≡ false
unfolding has_prefix
no_triple c cs h = ground arith

-- A byte that is no newline is written to the current line.
step_byte :
    (c : ℕ) (cs : Text) (done : List LogicalLine) (current : Text) (n : ℕ)
    → is_plain c ≡ true
    → all_bytes is_plain cs ≡ true
    → c == b'\n' ≡ false
    → split_step (c ∷ cs) c (at done current n) ≡ (0, at done (current ++ c ∷ []) n)
unfolding split_step
step_byte c cs done current n h k e =
    let r : c == b'\r' ≡ false = ground arith in
    rw (no_comment c cs k, no_triple c cs h, r, e, if_same (is_empty current) n) refl

step_newline :
    (cs : Text) (done : List LogicalLine) (current : Text) (n : ℕ)
    → split_step (b'\n' ∷ cs) b'\n' (at done current n)
      ≡ (0, at (done ++ record { line_no = n; text = current } ∷ []) [] (n + 1))
unfolding split_step has_prefix
step_newline cs done current n = refl

-- What the loop does with the first byte.
split_from_step :
    (c : ℕ) (cs : Text) (st next : Splitter)
    → split_step (c ∷ cs) c st ≡ (0, next)
    → split_from 0 (c ∷ cs) st ≡ split_from 0 cs next
unfolding split_from
split_from_step c cs st next e = rw e refl

split_newline :
    (cs : Text)
    → split b'\n' (b'\n' ∷ cs) ≡ [] ∷ first_of (split b'\n' cs) ∷ rest_of (split b'\n' cs)
unfolding split
split_newline cs = ap (λ ps. [] ∷ ps) (split_shape b'\n' cs)

split_byte :
    (c : ℕ) (cs : Text)
    → c == b'\n' ≡ false
    → split b'\n' (c ∷ cs) ≡ (c ∷ first_of (split b'\n' cs)) ∷ rest_of (split b'\n' cs)
unfolding split
split_byte c cs e = rw e (onto_first_shape c (split b'\n' cs) (split_shape b'\n' cs))

-- The state behind a text, from its pieces.
abbrev behind_text : List LogicalLine → Text → ℕ → List Text → Splitter
behind_text done current n ps = laid done n (current ++ first_of ps) (rest_of ps)

laid_nothing :
    (done : List LogicalLine) (current : Text) (n : ℕ)
    → split_from 0 [] (at done current n) ≡ behind_text done current n (split b'\n' [])
unfolding split_from split
laid_nothing done current n = rw (append-nil current) refl

split_from-laid :
    (s : Text) (done : List LogicalLine) (current : Text) (n : ℕ)
    → all_bytes is_plain s ≡ true
    → split_from 0 s (at done current n) ≡ behind_text done current n (split b'\n' s)
unfolding all_bytes
split_from-laid [] done current n h = laid_nothing done current n
split_from-laid (c ∷ cs) done current n h = elim (Bool-cases (c == b'\n')) [
  | inl e ↦ rw ((==_iff c b'\n').0 e) (
      split_from_step b'\n' cs (at done current n)
        (at (done ++ record { line_no = n; text = current } ∷ []) [] (n + 1))
        (step_newline cs done current n)
      ∙ split_from-laid cs (done ++ record { line_no = n; text = current } ∷ []) [] (n + 1)
          (ground arith)
      ∙ rw (split_newline cs) (rw (append-nil current) refl))
  | inr e ↦
      split_from_step c cs (at done current n) (at done (current ++ c ∷ []) n)
        (step_byte c cs done current n (ground arith) (ground arith) e)
      ∙ split_from-laid cs done (current ++ c ∷ []) n (ground arith)
      ∙ rw (split_byte c cs e, append_assoc current (c ∷ []) (first_of (split b'\n' cs))) refl
]

-- The lines, once the source has ended.
last_line-laid :
    (done : List LogicalLine) (n : ℕ) (current p : Text) (ps : List Text)
    → last_line (laid done n current (p ∷ ps))
      ≡ done ++ record { line_no = n; text = current } ∷ numbered (n + 1) (behind (p ∷ ps))
last_line-laid [] n current [] [] = refl
last_line-laid (x ∷ done) n current [] [] = refl
last_line-laid done n current (c ∷ cs) [] =
    append_assoc done (record { line_no = n; text = current } ∷ []) _
last_line-laid done n current p (q ∷ ps) =
    last_line-laid (done ++ record { line_no = n; text = current } ∷ []) (n + 1) p q ps
    ∙ append_assoc done (record { line_no = n; text = current } ∷ []) _

laid_mode :
    (done : List LogicalLine) (n : ℕ) (current : Text) (ps : List Text)
    → (laid done n current ps).mode ≡ plain
laid_mode done n current [] = refl
laid_mode done n current (p ∷ ps) =
    laid_mode (done ++ record { line_no = n; text = current } ∷ []) (n + 1) p ps

ended_plain : (st : Splitter) → st.mode ≡ plain → ended st ≡ ok (last_line st)
ended_plain st e = rw e refl

last_line-first :
    (n : ℕ) (current : Text) (ps : List Text)
    → last_line (laid [] n current ps) ≡ numbered n (line_texts (current ∷ ps))
last_line-first n [] [] = refl
last_line-first n (c ∷ cs) [] = refl
last_line-first n current (p ∷ ps) = last_line-laid [] n current p ps

-- In a source without `[`, `*` and carriage returns, the logical lines are the pieces between the newlines,
-- numbered from 1; an empty piece behind the last newline is no line.
pub split_logical_lines-plain :
    (s : Text)
    → all_bytes is_plain s ≡ true
    → split_logical_lines s ≡ ok (numbered 1 (line_texts (split b'\n' s)))
unfolding split_logical_lines
split_logical_lines-plain s h =
    let ps = split b'\n' s in
    ap ended (split_from-laid s [] [] 1 h)
    ∙ ended_plain (behind_text [] [] 1 ps) (laid_mode [] 1 (first_of ps) (rest_of ps))
    ∙ ap ok (
        last_line-first 1 (first_of ps) (rest_of ps)
        ∙ ap (λ qs. numbered 1 (line_texts qs)) (sym (split_shape b'\n' s)))
