-- ===== src/Language/Tokens.antt =====
-- The tokens of a line: tokenizeCommandLine and the scanners that it calls (satis/parser.go).
pub mod Enough
pub mod Quoted
use satis.Base.{
  ℕ, zero, suc, Text, bytes, length, drop, Bool, true, false, ◌==◌, if◌then◌else◌, Option, none,
  some, List, [], ◌∷◌, ◌++◌,
}
use satis.Language.Chars.{is_space, has_prefix, opening, closing}

-- A token, and what is behind it.
abbrev pub Scan : Type 0
Scan = Option (Text × Text)

-- A byte in front of the token that is scanned.
abbrev pub onto : ℕ → Scan → Scan
onto c none = none
onto c (some (token, rest)) = some (c ∷ token, rest)

-- The scanners start behind the opening quote.
unfoldable pub scan_single_quoted : Text → Scan
scan_single_quoted [] = none
scan_single_quoted (c ∷ cs) =
    let rest = scan_single_quoted cs in if c == b'\'' then some ([], cs) else onto c rest

unfoldable pub scan_double_quoted : Text → Scan
scan_double_quoted [] = none
scan_double_quoted (c ∷ []) = if c == b'"' then some ([], []) else none
scan_double_quoted (c ∷ d ∷ cs) =
    let escaped = onto d (scan_double_quoted cs) in
    let plain = onto c (scan_double_quoted (d ∷ cs)) in
    if c == b'"' then some ([], d ∷ cs) else if c == b'\\' then escaped else plain

unfoldable pub scan_bare_token : Text → Scan
scan_bare_token [] = some ([], [])
scan_bare_token (c ∷ []) =
    if is_space c then some ([], c ∷ []) else if c == b'\\' then none else some (c ∷ [], [])
scan_bare_token (c ∷ d ∷ cs) =
    let escaped = onto d (scan_bare_token cs) in
    let plain = onto c (scan_bare_token (d ∷ cs)) in
    if is_space c then some ([], c ∷ d ∷ cs) else if c == b'\\' then escaped else plain

-- Up to the first `]]]`, which is part of the token.
unfoldable pub scan_triple : Text → Scan
unfolding has_prefix
scan_triple [] = none
scan_triple (c ∷ cs) =
    let rest = onto c (scan_triple cs) in
    if has_prefix closing (c ∷ cs) then some (closing, drop 3 (c ∷ cs)) else rest

abbrev with_opening : Scan → Scan
with_opening none = none
with_opening (some (token, rest)) = some (opening ++ token, rest)

-- The token at the front of a text that starts with no space.
unfoldable pub scan_token : Text → Scan
unfolding scan_single_quoted scan_double_quoted scan_bare_token scan_triple has_prefix
scan_token [] = some ([], [])
scan_token (c ∷ cs) =
    if has_prefix opening (c ∷ cs)
    then with_opening (scan_triple (drop 3 (c ∷ cs)))
    else if c == b'\''
    then scan_single_quoted cs
    else if c == b'"'
    then scan_double_quoted cs
    else scan_bare_token (c ∷ cs)

unfoldable pub skip_spaces : Text → Text
skip_spaces [] = []
skip_spaces (c ∷ cs) = let rest = skip_spaces cs in if is_space c then rest else c ∷ cs

abbrev pub onto_tokens : Text → Option (List Text) → Option (List Text)
onto_tokens token none = none
onto_tokens token (some tokens) = some (token ∷ tokens)

abbrev pub next_tokens : (Text → Option (List Text)) → Text → Option (List Text)
next_tokens more [] = some []
next_tokens more (c ∷ cs) = elim (scan_token (c ∷ cs)) [
  | none ↦ none
  | some scan ↦ onto_tokens scan.0 (more scan.1)
]

-- The loop. Each round takes a byte at least, so the length of the line is fuel enough.
unfoldable pub tokens_from : ℕ → Text → Option (List Text)
unfolding scan_token skip_spaces
tokens_from zero s = none
tokens_from (suc fuel) s = next_tokens (tokens_from fuel) (skip_spaces s)

unfoldable pub tokenize_command_line : Text → Option (List Text)
unfolding tokens_from
tokenize_command_line s = tokens_from (suc (length s)) s
