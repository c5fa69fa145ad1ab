-- ===== src/Language/Values/Escape.antt =====
-- Texts in triple brackets: what is escaped comes back.
use satis.Base.{
  ℕ, Text, text_eq, text_eq_iff, length, length-append, false, ◌==◌, ==_iff, if◌then◌else◌,
  Bool-cases, inl, inr, some, [], ◌∷◌, ◌++◌, ◌≡◌, refl, sym, ap, arith,
}
use satis.Language.Chars.{has_prefix, opening, closing, before_closing, triple_bracket_group}
use satis.Language.Values.{onto_raw, unescape_triple_bracket, parse_triple_bracket}

-- How a character is written between triple brackets.
abbrev escaped : ℕ → Text → Text
escaped c rest =
    if c == b'\\'
    then b'\\' ∷ b'\\' ∷ rest
    else if c == b'\n'
    then b'\\' ∷ b'n' ∷ rest
    else if c == b'\t'
    then b'\\' ∷ b't' ∷ rest
    else c ∷ rest

unfoldable pub escape : Text → Text
escape [] = []
escape (c ∷ cs) = escaped c (escape cs)

-- A character that is no backslash stands for itself.
unescape_plain :
    (c : ℕ) (s t : Text)
    → c == b'\\' ≡ false
    → unescape_triple_bracket s ≡ some t
    → unescape_triple_bracket (c ∷ s) ≡ some (c ∷ t)
unfolding unescape_triple_bracket
unescape_plain c [] t e h = rw e (ap (onto_raw c) h)
unescape_plain c (d ∷ s) t e h = rw e (ap (onto_raw c) h)

pub unescape-escape : (s : Text) → unescape_triple_bracket (escape s) ≡ some s
unfolding unescape_triple_bracket escape
unescape-escape [] = refl
unescape-escape (c ∷ cs) = elim (Bool-cases (c == b'\\')) [
  | inl e ↦ rw e (rw (unescape-escape cs) (ap (λ d. some (d ∷ cs)) (sym ((==_iff c b'\\').0 e))))
  | inr e ↦ elim (Bool-cases (c == b'\n')) [
    | inl n ↦
        rw (e, n) (rw (unescape-escape cs) (ap (λ d. some (d ∷ cs)) (sym ((==_iff c b'\n').0 n))))
    | inr n ↦ elim (Bool-cases (c == b'\t')) [
      | inl t ↦
          rw (e, n, t)
            (rw (unescape-escape cs) (ap (λ d. some (d ∷ cs)) (sym ((==_iff c b'\t').0 t))))
      | inr t ↦ rw (e, n, t) (unescape_plain c (escape cs) cs e (unescape-escape cs))
    ]
  ]
]

before_closing_long : (c : ℕ) (s : Text) → text_eq (c ∷ s ++ closing) closing ≡ false
before_closing_long c s = elim (Bool-cases (text_eq (c ∷ s ++ closing) closing)) [
  | inr e ↦ e
  | inl e ↦ absurd (
      omega
        (arith, ap length ((text_eq_iff (c ∷ s ++ closing) closing).0 e), length-append s closing))
]

pub before_closing-closing : (s : Text) → before_closing (s ++ closing) ≡ some s
unfolding before_closing
before_closing-closing [] = refl
before_closing-closing (c ∷ cs) =
    rw (before_closing_long c cs) (rw (before_closing-closing cs) refl)

-- What is escaped and put between triple brackets is read back.
pub parse_triple_bracket-escape :
    (s : Text) → parse_triple_bracket (opening ++ escape s ++ closing) ≡ some s
unfolding parse_triple_bracket triple_bracket_group has_prefix
parse_triple_bracket-escape s = rw (before_closing-closing (escape s)) (unescape-escape s)
