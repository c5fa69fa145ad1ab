-- ===== src/Language/Tokens/Enough.antt =====
-- The scanners take a byte at least, so that the loop over a line ends by itself.
use satis.Base.{
  ℕ, zero, suc, ◌≤◌, ◌<◌, Text, length, drop, Bool, true, false, ◌==◌, if◌then◌else◌, Bool-cases,
  inl, inr, Option, none, some, List, [], ◌∷◌, ◌≡◌, refl, ap, arith,
}
use satis.Language.Chars.{is_space, has_prefix, opening, closing}
use satis.Language.Tokens.{
  Scan, onto, scan_single_quoted, scan_double_quoted, scan_bare_token, scan_triple, with_opening,
  scan_token, skip_spaces, onto_tokens, next_tokens, tokens_from, tokenize_command_line,
}

-- At most so many bytes are left behind the token.
abbrev pub Leaves : ℕ → Scan → Type 0
Leaves n none = Unit
Leaves n (some scan) = length scan.1 ≤ n

Leaves-onto : (n c : ℕ) (o : Scan) → Leaves n o → Leaves n (onto c o)
Leaves-onto n c none h = h
Leaves-onto n c (some scan) h = h

Leaves-more : (m n : ℕ) → m ≤ n → (o : Scan) → Leaves m o → Leaves n o
Leaves-more m n l none h = h
Leaves-more m n l (some scan) h = omega arith

Leaves-if :
    (n : ℕ) (b : Bool) (o p : Scan)
    → (b ≡ true → Leaves n o)
    → (b ≡ false → Leaves n p)
    → Leaves n (if b then o else p)
Leaves-if n true o p h k = h refl
Leaves-if n false o p h k = k refl

Leaves-opening : (n : ℕ) (o : Scan) → Leaves n o → Leaves n (with_opening o)
Leaves-opening n none h = h
Leaves-opening n (some scan) h = h

scan_single_quoted-Leaves : (s : Text) → Leaves (length s) (scan_single_quoted s)
unfolding scan_single_quoted
scan_single_quoted-Leaves [] = tt
scan_single_quoted-Leaves (c ∷ cs) =
    Leaves-if (suc (length cs)) (c == b'\'') (some ([], cs)) (onto c (scan_single_quoted cs))
      (λ e. omega arith)
      (λ e. Leaves-onto (suc (length cs)) c (scan_single_quoted cs) (
        Leaves-more (length cs) (suc (length cs)) (omega arith) (scan_single_quoted cs)
          (scan_single_quoted-Leaves cs)))

-- A byte in front of what is scanned.
Leaves-cons : (m n c : ℕ) (o : Scan) → m ≤ n → Leaves m o → Leaves n (onto c o)
Leaves-cons m n c o l h = Leaves-onto n c o (Leaves-more m n l o h)

scan_double_quoted-Leaves : (s : Text) → Leaves (length s) (scan_double_quoted s)
unfolding scan_double_quoted
scan_double_quoted-Leaves [] = tt
scan_double_quoted-Leaves (c ∷ []) =
    Leaves-if 1 (c == b'"') (some ([], [])) none (λ e. omega arith) (λ e. tt)
scan_double_quoted-Leaves (c ∷ d ∷ cs) =
    let n : ℕ = suc (suc (length cs)) in
    Leaves-if n (c == b'"') (some ([], d ∷ cs))
      (if c == b'\\' then onto d (scan_double_quoted cs) else onto c (scan_double_quoted (d ∷ cs)))
      (λ e. omega arith)
      (λ e.
        Leaves-if n (c == b'\\') (onto d (scan_double_quoted cs))
          (onto c (scan_double_quoted (d ∷ cs)))
          (λ f.
            Leaves-cons (length cs) n d (scan_double_quoted cs) (omega arith)
              (scan_double_quoted-Leaves cs))
          (λ f.
            Leaves-cons (suc (length cs)) n c (scan_double_quoted (d ∷ cs)) (omega arith)
              (scan_double_quoted-Leaves (d ∷ cs))))

scan_bare_token-Leaves : (s : Text) → Leaves (length s) (scan_bare_token s)
unfolding scan_bare_token
scan_bare_token-Leaves [] = omega arith
scan_bare_token-Leaves (c ∷ []) =
    Leaves-if 1 (is_space c) (some ([], c ∷ [])) (if c == b'\\' then none else some (c ∷ [], []))
      (λ e. omega arith)
      (λ e. Leaves-if 1 (c == b'\\') none (some (c ∷ [], [])) (λ f. tt) (λ f. omega arith))
scan_bare_token-Leaves (c ∷ d ∷ cs) =
    let n : ℕ = suc (suc (length cs)) in
    Leaves-if n (is_space c) (some ([], c ∷ d ∷ cs))
      (if c == b'\\' then onto d (scan_bare_token cs) else onto c (scan_bare_token (d ∷ cs)))
      (λ e. omega arith)
      (λ e.
        Leaves-if n (c == b'\\') (onto d (scan_bare_token cs)) (onto c (scan_bare_token (d ∷ cs)))
          (λ f.
            Leaves-cons (length cs) n d (scan_bare_token cs) (omega arith)
              (scan_bare_token-Leaves cs))
          (λ f.
            Leaves-cons (suc (length cs)) n c (scan_bare_token (d ∷ cs)) (omega arith)
              (scan_bare_token-Leaves (d ∷ cs))))

-- A bare token that starts with no space takes its first byte.
scan_bare_token_front :
    (c : ℕ) (cs : Text) → is_space c ≡ false → Leaves (length cs) (scan_bare_token (c ∷ cs))
unfolding scan_bare_token
scan_bare_token_front c [] e =
    rw e (Leaves-if 0 (c == b'\\') none (some (c ∷ [], [])) (λ f. tt) (λ f. omega arith))
scan_bare_token_front c (d ∷ cs) e = rw e (
    Leaves-if (suc (length cs)) (c == b'\\') (onto d (scan_bare_token cs))
      (onto c (scan_bare_token (d ∷ cs)))
      (λ f.
        Leaves-cons (length cs) (suc (length cs)) d (scan_bare_token cs) (omega arith)
          (scan_bare_token-Leaves cs))
      (λ f.
        Leaves-onto (suc (length cs)) c (scan_bare_token (d ∷ cs))
          (scan_bare_token-Leaves (d ∷ cs))))

length-drop : (n : ℕ) (s : Text) → length (drop n s) ≤ length s
length-drop zero s = omega arith
length-drop (suc n) [] = omega arith
length-drop (suc n) (c ∷ cs) = omega (arith, length-drop n cs)

scan_triple-Leaves : (s : Text) → Leaves (length s) (scan_triple s)
unfolding scan_triple
scan_triple-Leaves [] = tt
scan_triple-Leaves (c ∷ cs) =
    Leaves-if (suc (length cs)) (has_prefix closing (c ∷ cs)) (some (closing, drop 2 cs))
      (onto c (scan_triple cs)) (λ e. omega (arith, length-drop 2 cs))
      (λ e.
        Leaves-cons (length cs) (suc (length cs)) c (scan_triple cs) (omega arith)
          (scan_triple-Leaves cs))

pub scan_token-Leaves :
    (c : ℕ) (cs : Text) → is_space c ≡ false → Leaves (length cs) (scan_token (c ∷ cs))
unfolding scan_token
scan_token-Leaves c cs e =
    Leaves-if (length cs) (has_prefix opening (c ∷ cs)) (with_opening (scan_triple (drop 2 cs))) _
      (λ f. Leaves-opening (length cs) (scan_triple (drop 2 cs)) (
        Leaves-more (length (drop 2 cs)) (length cs) (length-drop 2 cs) (scan_triple (drop 2 cs))
          (scan_triple-Leaves (drop 2 cs))))
      (λ f.
        Leaves-if (length cs) (c == b'\'') (scan_single_quoted cs) _
          (λ g. scan_single_quoted-Leaves cs)
          (λ g.
            Leaves-if (length cs) (c == b'"') (scan_double_quoted cs) _
              (λ h. scan_double_quoted-Leaves cs) (λ h. scan_bare_token_front c cs e)))

-- What is left behind the spaces: nothing, or a text that starts with none.
pub data Skipped (n : ℕ) : Text → Type 0 where
  nothing : Skipped n []
  something : {c : ℕ} → {cs : Text} → is_space c ≡ false → length cs < n → Skipped n (c ∷ cs)

Skipped-more : (n : ℕ) (s : Text) → Skipped n s → Skipped (suc n) s
Skipped-more n [] nothing = nothing
Skipped-more n (c ∷ cs) (something e l) = something e (omega arith)

pub skip_spaces-Skipped : (s : Text) → Skipped (length s) (skip_spaces s)
unfolding skip_spaces
skip_spaces-Skipped [] = nothing
skip_spaces-Skipped (c ∷ cs) = elim (Bool-cases (is_space c)) [
  | inl e ↦ rw e (Skipped-more (length cs) (skip_spaces cs) (skip_spaces-Skipped cs))
  | inr e ↦ rw e (something e (omega arith))
]

more_cong :
    (more more' : Text → Option (List Text)) (n : ℕ) (o : Scan)
    → Leaves n o
    → ((r : Text) → length r ≤ n → more r ≡ more' r)
    → (elim o [ none ↦ none | some scan ↦ onto_tokens scan.0 (more scan.1) ])
      ≡ (elim o [ none ↦ none | some scan ↦ onto_tokens scan.0 (more' scan.1) ])
more_cong more more' n none h k = refl
more_cong more more' n (some scan) h k = ap (onto_tokens scan.0) (k scan.1 h)

-- The rest of the loop runs only on shorter lines.
next_tokens_cong :
    (more more' : Text → Option (List Text)) (n : ℕ) (s : Text)
    → Skipped n s
    → ((r : Text) → length r < n → more r ≡ more' r)
    → next_tokens more s ≡ next_tokens more' s
next_tokens_cong more more' n [] nothing k = refl
next_tokens_cong more more' n (c ∷ cs) (something e l) k =
    more_cong more more' (length cs) (scan_token (c ∷ cs)) (scan_token-Leaves c cs e)
      (λ r h. k r (omega arith))

tokens_from-stable :
    (m n : ℕ) (s : Text) → length s < m → length s < n → tokens_from m s ≡ tokens_from n s
unfolding tokens_from
tokens_from-stable zero n s h k = absurd (omega arith)
tokens_from-stable (suc m) zero s h k = absurd (omega arith)
tokens_from-stable (suc m) (suc n) s h k =
    next_tokens_cong (tokens_from m) (tokens_from n) (length s) (skip_spaces s)
      (skip_spaces-Skipped s) (λ r l. tokens_from-stable m n r (omega arith) (omega arith))

-- The bound on the rounds of tokenizeCommandLine never ends it: behind the spaces it stops if nothing is
-- left, and else it takes a token and does the same with what is behind the token.
pub tokenize_command_line_rounds :
    (s : Text) → tokenize_command_line s ≡ next_tokens tokenize_command_line (skip_spaces s)
unfolding tokenize_command_line tokens_from
tokenize_command_line_rounds s =
    next_tokens_cong (tokens_from (length s)) (λ r. tokens_from (suc (length r)) r) (length s)
      (skip_spaces s) (skip_spaces-Skipped s)
      (λ r l. tokens_from-stable (length s) (suc (length r)) r l (omega arith))
