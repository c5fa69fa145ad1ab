-- ===== src/Base/Fold.antt =====
-- strings.ToLower and strings.EqualFold on UTF-8 bytes, as far as ASCII letters are concerned.
use Prim.Native.Nat.{ℕ, ◌+◌}
use mathlib.Core.Bool.{Bool, ◌&&◌}
use mathlib.Core.List.{[], ◌∷◌}
use satis.Base.Tests.{leb, ◌==◌, if◌then◌else◌}
use satis.Base.Words.{Text, text_eq}
use satis.Base.Lists.{take, drop}

abbrev pub lower_byte : ℕ → ℕ
lower_byte c = if leb 65 c && leb c 90 then c + 32 else c

-- A byte in front of what follows it, which is in lower case. The dotted capital I (bytes 196 176)
-- and the Kelvin sign (bytes 226 132 170) have ASCII letters as lower case.
abbrev pub lower_onto : ℕ → Text → Text
lower_onto c cs =
    if c == 196 && text_eq (take 1 cs) (176 ∷ [])
    then 105 ∷ drop 1 cs
    else if c == 226 && text_eq (take 2 cs) (132 ∷ 170 ∷ [])
    then 107 ∷ drop 2 cs
    else lower_byte c ∷ cs

-- strings.ToLower, up to the letters whose lower case is no ASCII letter: these stay as they are.
unfoldable pub to_lower : Text → Text
unfolding text_eq
to_lower [] = []
to_lower (c ∷ cs) = lower_onto c (to_lower cs)

-- A byte in front of what follows it, which is folded. The Kelvin sign folds to k and the long s
-- (bytes 197 191) to s.
abbrev pub fold_onto : ℕ → Text → Text
fold_onto c cs =
    if c == 197 && text_eq (take 1 cs) (191 ∷ [])
    then 115 ∷ drop 1 cs
    else if c == 226 && text_eq (take 2 cs) (132 ∷ 170 ∷ [])
    then 107 ∷ drop 2 cs
    else lower_byte c ∷ cs

unfoldable pub fold_case : Text → Text
unfolding text_eq
fold_case [] = []
fold_case (c ∷ cs) = fold_onto c (fold_case cs)

-- strings.EqualFold with an ASCII word in lower case.
abbrev pub equal_fold : Text → Text → Bool
equal_fold s word = text_eq (fold_case s) word
