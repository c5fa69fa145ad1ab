-- ===== src/Vfs/Names/Trim.antt =====
-- strings.TrimSpace on a text that has nothing to trim.
use mathlib.Core.List.{reverse-reverse}
use satis.Base.{ℕ, Text, true, false, ◌&&◌, ltb, [], ◌∷◌, reverse, ◌≡◌, refl, arith}
use satis.Base.All.{All, All-reverse}
use satis.Vfs.Names.{is_space, is_space₂, is_space₃, space_front, space_back, trim_from, trim_space}

-- A visible ASCII byte.
abbrev pub IsVisible : ℕ → Type 0
IsVisible c = (ltb 32 c && ltb c 128) ≡ true

no_space : (c : ℕ) → IsVisible c → is_space c ≡ false
unfolding is_space
no_space c h = ground arith

no_front₂ : (c d : ℕ) → IsVisible c → is_space₂ c d ≡ false
unfolding is_space₂
no_front₂ c d h = ground arith

no_front₃ : (c d e : ℕ) → IsVisible c → is_space₃ c d e ≡ false
unfolding is_space₃
no_front₃ c d e h = ground arith

no_back₂ : (c d : ℕ) → IsVisible c → is_space₂ d c ≡ false
unfolding is_space₂
no_back₂ c d h = ground arith

no_back₃ : (c d e : ℕ) → IsVisible c → is_space₃ e d c ≡ false
unfolding is_space₃
no_back₃ c d e h = ground arith

front_visible : (c : ℕ) (cs : Text) → IsVisible c → space_front (c ∷ cs) ≡ 0
unfolding space_front
front_visible c [] h = rw (no_space c h) refl
front_visible c (d ∷ []) h = rw (no_space c h, no_front₂ c d h) refl
front_visible c (d ∷ e ∷ _) h = rw (no_space c h, no_front₂ c d h, no_front₃ c d e h) refl

back_visible : (c : ℕ) (cs : Text) → IsVisible c → space_back (c ∷ cs) ≡ 0
unfolding space_back
back_visible c [] h = rw (no_space c h) refl
back_visible c (d ∷ []) h = rw (no_space c h, no_back₂ c d h) refl
back_visible c (d ∷ e ∷ _) h = rw (no_space c h, no_back₂ c d h, no_back₃ c d e h) refl

trim_kept :
    (space : Text → ℕ)
    → ((c : ℕ) (cs : Text) → IsVisible c → space (c ∷ cs) ≡ 0)
    → (s : Text) → All IsVisible s
    → trim_from space 0 s ≡ s
unfolding trim_from
trim_kept space kept [] h = refl
trim_kept space kept (c ∷ cs) h = rw (kept c cs h.0) refl

-- A text of visible bytes has no space to trim.
pub trim_space_visible : (s : Text) → All IsVisible s → trim_space s ≡ s
unfolding trim_space
trim_space_visible s h = rw (trim_kept space_front front_visible s h) (
    rw (trim_kept space_back back_visible (reverse s) (All-reverse IsVisible s h))
      (reverse-reverse s))
