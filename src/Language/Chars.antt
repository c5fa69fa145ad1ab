-- ===== src/Language/Chars.antt =====
-- The characters, and the regular expressions of satis/parser.go as recognisers.
use satis.Base.{
  ℕ, ◌+◌, ◌*◌, ◌-◌, ◌^◌, Text, bytes, text_eq, drop, Bool, true, false, not, ◌&&◌, ◌||◌, ◌==◌, leb,
  ltb, if◌then◌else◌, Option, none, some, [], ◌∷◌,
}
use satis.Base.Ints.{ℤ, pos, negsuc}

abbrev pub is_space : ℕ → Bool
is_space c = c == b' ' || c == b'\t' || c == b'\n' || c == b'\r'

abbrev pub is_digit : ℕ → Bool
is_digit c = leb b'0' c && leb c b'9'

-- `[A-Za-z_]`
abbrev pub is_name_start : ℕ → Bool
is_name_start c = (leb b'A' c && leb c b'Z') || (leb b'a' c && leb c b'z') || c == b'_'

-- `[A-Za-z0-9_]`
abbrev pub is_name_byte : ℕ → Bool
is_name_byte c = is_name_start c || is_digit c

unfoldable pub all_bytes : (ℕ → Bool) → Text → Bool
all_bytes test [] = true
all_bytes test (c ∷ cs) = test c && all_bytes test cs

-- The longest front whose bytes pass a test, and the rest.
unfoldable pub span_bytes : (ℕ → Bool) → Text → Text × Text
span_bytes test [] = ([], [])
span_bytes test (c ∷ cs) =
    let rest = span_bytes test cs in if test c then (c ∷ rest.0, rest.1) else ([], c ∷ cs)

-- variablePattern
unfoldable pub is_variable : Text → Bool
unfolding all_bytes
is_variable [] = false
is_variable (c ∷ []) = false
is_variable (c ∷ d ∷ ds) = c == b'@' && (is_name_start d && all_bytes is_name_byte ds)

unfoldable pub has_prefix : Text → Text → Bool
has_prefix [] s = true
has_prefix (c ∷ cs) [] = false
has_prefix (c ∷ cs) (d ∷ ds) = c == d && has_prefix cs ds

abbrev pub opening : Text
opening = bytes "[[["

abbrev pub closing : Text
closing = bytes "]]]"

-- What stands before `]]]` at the end of a text.
unfoldable pub before_closing : Text → Option Text
unfolding text_eq
before_closing [] = none
before_closing (c ∷ cs) =
    let rest = before_closing cs in
    if text_eq (c ∷ cs) closing
    then some []
    else elim rest [ none ↦ none | some raw ↦ some (c ∷ raw) ]

-- tripleBracketPattern, and its group.
unfoldable pub triple_bracket_group : Text → Option Text
unfolding has_prefix before_closing
triple_bracket_group token =
    if has_prefix opening token then before_closing (drop 3 token) else none

abbrev fold_digits : ℕ → Text → ℕ
fold_digits n [] = n
fold_digits n (c ∷ cs) = fold_digits (n * 10 + (c - b'0')) cs

abbrev limit : ℕ
limit = 2 ^ 63

-- The digits of a number, in the range of `int`.
abbrev natural : Text → Option ℤ
natural ds = let n = fold_digits 0 ds in if ltb n limit then some (pos n) else none

abbrev negated : Text → Option ℤ
negated ds =
    let n = fold_digits 0 ds in
    if n == 0 then some (pos 0) else if leb n limit then some (negsuc (n - 1)) else none

abbrev digits_of : (Text → Option ℤ) → Text → Option ℤ
digits_of read [] = none
digits_of read (c ∷ cs) = if all_bytes is_digit (c ∷ cs) then read (c ∷ cs) else none

-- strconv.Atoi
unfoldable pub atoi : Text → Option ℤ
unfolding all_bytes
atoi [] = none
atoi (c ∷ cs) =
    if c == b'-'
    then digits_of negated cs
    else if c == b'+'
    then digits_of natural cs
    else digits_of natural (c ∷ cs)

-- headerPattern, on a trimmed line: its two groups.
abbrev header_value : Text → Text → Option (Text × Text)
header_value key [] = none
header_value key (c ∷ cs) =
    if all_bytes (λ b. not (b == b'\n')) (c ∷ cs) then some (key, c ∷ cs) else none

-- `\s`
abbrev is_blank : ℕ → Bool
is_blank c = is_space c || c == 12

abbrev header_colon : Text → Text → Option (Text × Text)
header_colon key [] = none
header_colon key (c ∷ cs) = if c == b':' then header_value key (span_bytes is_blank cs).1 else none

unfoldable pub parse_header_line : Text → Option (Text × Text)
unfolding all_bytes span_bytes
parse_header_line [] = none
parse_header_line (c ∷ cs) =
    let parts = span_bytes (λ b. is_name_byte b || b == b'-') cs in
    if is_name_start c then header_colon (c ∷ parts.0) (span_bytes is_blank parts.1).1 else none
