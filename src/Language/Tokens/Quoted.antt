-- ===== src/Language/Tokens/Quoted.antt =====
-- Every list of tokens can be written as a line: each in double quotes, behind a space.
use satis.Base.{
  ℕ, Text, Bool, false, ◌||◌, ◌==◌, if◌then◌else◌, Bool-cases, inl, inr, some, List, [], ◌∷◌, ◌≡◌,
  refl, ap, ◌∙◌, arith,
}
use satis.Language.Chars.{has_prefix}
use satis.Language.Tokens.{
  onto, scan_double_quoted, scan_token, skip_spaces, onto_tokens, next_tokens,
  tokenize_command_line,
}
use satis.Language.Tokens.Enough.{tokenize_command_line_rounds}

-- The bytes that take a backslash.
abbrev is_special : ℕ → Bool
is_special c = c == b'"' || c == b'\\'

-- A token behind its opening quote, and the closing one, in front of the rest of the line.
unfoldable pub quote_onto : Text → Text → Text
quote_onto [] rest = b'"' ∷ rest
quote_onto (c ∷ cs) rest =
    let quoted = quote_onto cs rest in if is_special c then b'\\' ∷ c ∷ quoted else c ∷ quoted

unfoldable pub print_tokens : List Text → Text
unfolding quote_onto
print_tokens [] = []
print_tokens (token ∷ tokens) = b' ' ∷ b'"' ∷ quote_onto token (print_tokens tokens)

scan_plain :
    (c : ℕ) (s token rest : Text)
    → is_special c ≡ false
    → scan_double_quoted s ≡ some (token, rest)
    → scan_double_quoted (c ∷ s) ≡ some (c ∷ token, rest)
unfolding scan_double_quoted
scan_plain c [] token rest e h = cc
scan_plain c (d ∷ s) token rest e h =
    let q : c == b'"' ≡ false = ground arith in
    let b : c == b'\\' ≡ false = ground arith in rw (q, b) (ap (onto c) h)

scan_end : (rest : Text) → scan_double_quoted (b'"' ∷ rest) ≡ some ([], rest)
unfolding scan_double_quoted
scan_end [] = refl
scan_end (c ∷ cs) = refl

pub scan_double_quoted-quote_onto :
    (token rest : Text) → scan_double_quoted (quote_onto token rest) ≡ some (token, rest)
unfolding scan_double_quoted quote_onto
scan_double_quoted-quote_onto [] rest = scan_end rest
scan_double_quoted-quote_onto (c ∷ cs) rest = elim (Bool-cases (is_special c)) [
  | inl e ↦ rw e (ap (onto c) (scan_double_quoted-quote_onto cs rest))
  | inr e ↦
      rw e (scan_plain c (quote_onto cs rest) cs rest e (scan_double_quoted-quote_onto cs rest))
]

-- The tokens of a line on which each token stands in double quotes, with a backslash before the quotes and
-- backslashes in it, are these tokens, whatever bytes they have.
pub tokenize_command_line-print_tokens :
    (tokens : List Text) → tokenize_command_line (print_tokens tokens) ≡ some tokens
unfolding print_tokens skip_spaces scan_token has_prefix
tokenize_command_line-print_tokens [] = tokenize_command_line_rounds []
tokenize_command_line-print_tokens (token ∷ tokens) =
    tokenize_command_line_rounds (print_tokens (token ∷ tokens))
    ∙ rw (scan_double_quoted-quote_onto token (print_tokens tokens), next_tokens)
        (ap (onto_tokens token) (tokenize_command_line-print_tokens tokens))
