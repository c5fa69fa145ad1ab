-- ===== src/Vfs/Names/Clean.antt =====
-- What filepath.Clean and normalizeVirtualPath return.
use mathlib.Core.List.{append-nil, append_assoc, reverse-append, reverse-reverse}
use satis.Base.{
  ℕ, Text, bytes, text_eq, Bool, true, false, not, ◌&&◌, ◌||◌, ◌==◌, Bool-cases, inl, inr, List, [],
  ◌∷◌, ◌++◌, reverse, ◌≡◌, refl, ap, sym, ◌∙◌, arith,
}
use satis.Base.All.{All, All-reverse}
use satis.Vfs.Names.{
  split, join, onto_first, slash, pop, resolve_dots, clean, rooted, has_slash, cleaned_path,
  normalize_virtual_path, trim_space,
}

-- A text without a byte.
unfoldable pub free : ℕ → Text → Bool
free sep [] = true
free sep (c ∷ cs) = not (c == sep) && free sep cs

abbrev pub IsFree : ℕ → Text → Type 0
IsFree sep w = free sep w ≡ true

onto_first-IsFree :
    (sep c : ℕ) (ws : List Text)
    → c == sep ≡ false
    → All (IsFree sep) ws
    → All (IsFree sep) (onto_first c ws)
unfolding free
onto_first-IsFree sep c [] e h = (rw e, tt)
onto_first-IsFree sep c (w ∷ ws) e h = (rw e h.0, h.1)

split-IsFree : (sep : ℕ) (s : Text) → All (IsFree sep) (split sep s)
unfolding split free
split-IsFree sep [] = (refl, tt)
split-IsFree sep (c ∷ cs) = elim (Bool-cases (c == sep)) [
  | inl e ↦ rw e (refl, split-IsFree sep cs)
  | inr e ↦ rw e (onto_first-IsFree sep c (split sep cs) e (split-IsFree sep cs))
]

split_of_free : (sep : ℕ) (w : Text) → IsFree sep w → split sep w ≡ w ∷ []
unfolding split free
split_of_free sep [] h = refl
split_of_free sep (c ∷ cs) h = ground (arith, split_of_free sep cs)

split-append :
    (sep : ℕ) (w rest : Text) → IsFree sep w → split sep (w ++ sep ∷ rest) ≡ w ∷ split sep rest
unfolding split free
split-append sep [] rest h = ground arith
split-append sep (c ∷ cs) rest h = ground (arith, split-append sep cs rest)

-- strings.Split undoes strings.Join.
pub split-join :
    (sep : ℕ) (w : Text) (ws : List Text)
    → All (IsFree sep) (w ∷ ws)
    → split sep (join sep (w ∷ ws)) ≡ w ∷ ws
unfolding join
split-join sep w [] h = split_of_free sep w h.0
split-join sep w (v ∷ vs) h =
    split-append sep w (join sep (v ∷ vs)) h.0 ∙ ap (◌∷◌ w) (split-join sep v vs h.1)

-- An element that filepath.Clean keeps as it is.
abbrev skipped : Text → Bool
skipped w = text_eq w [] || text_eq w (bytes ".")

pub record IsPlain (w : Text) : Type 0 where
  pub kept : skipped w ≡ false
  pub down : text_eq w (bytes "..") ≡ false
  pub unslashed : IsFree slash w

pop-IsPlain : (ws : List Text) → All IsPlain ws → All IsPlain (pop ws)
pop-IsPlain [] h = tt
pop-IsPlain (w ∷ ws) h = h.1

resolve_dots-IsPlain :
    (done ws : List Text)
    → All IsPlain done
    → All (IsFree slash) ws
    → All IsPlain (resolve_dots done ws)
unfolding resolve_dots
resolve_dots-IsPlain done [] h k = h
resolve_dots-IsPlain done (w ∷ ws) h k = elim (Bool-cases (skipped w)) [
  | inl e ↦ rw e (resolve_dots-IsPlain done ws h k.1)
  | inr e ↦ elim (Bool-cases (text_eq w (bytes ".."))) [
    | inl d ↦ rw (e, d) (resolve_dots-IsPlain (pop done) ws (pop-IsPlain done h) k.1)
    | inr d ↦
        rw (e, d)
          (resolve_dots-IsPlain (w ∷ done) ws (record { kept = e; down = d; unslashed = k.0 }, h)
            k.1)
  ]
]

resolve_dots_of_plain :
    (done ws : List Text) → All IsPlain ws → resolve_dots done ws ≡ reverse ws ++ done
unfolding resolve_dots
resolve_dots_of_plain done [] h = refl
resolve_dots_of_plain done (w ∷ ws) h =
    rw (h.0.kept, h.0.down)
      (resolve_dots_of_plain (w ∷ done) ws h.1 ∙ simp (reverse-append (w ∷ []) ws, append_assoc))

-- The elements of the path that `clean` returns.
elements : Text → List Text
elements path = reverse (resolve_dots [] (split slash path))

elements-IsPlain : (path : Text) → All IsPlain (elements path)
unfolding elements
elements-IsPlain path =
    All-reverse IsPlain (resolve_dots [] (split slash path))
      (resolve_dots-IsPlain [] (split slash path) tt (split-IsFree slash path))

All-unslashed : (ws : List Text) → All IsPlain ws → All (IsFree slash) ws
All-unslashed [] h = tt
All-unslashed (w ∷ ws) h = (h.0.unslashed, All-unslashed ws h.1)

elements_of_plain : (ws : List Text) → All IsPlain ws → elements (slash ∷ join slash ws) ≡ ws
unfolding elements split join resolve_dots text_eq
elements_of_plain [] h = refl
elements_of_plain (w ∷ ws) h = rw (split-join slash w ws (All-unslashed (w ∷ ws) h)) (
    ap reverse (resolve_dots_of_plain [] (w ∷ ws) h ∙ append-nil (reverse (w ∷ ws)))
    ∙ reverse-reverse (w ∷ ws))

-- filepath.Clean of a rooted path is idempotent.
pub clean-clean : (path : Text) → clean (clean path) ≡ clean path
unfolding clean elements
clean-clean path =
    ap (λ ws. slash ∷ join slash ws) (elements_of_plain (elements path) (elements-IsPlain path))

cleaned_path-clean : (path : Text) → cleaned_path path ≡ clean (rooted path)
unfolding cleaned_path clean text_eq rooted has_slash
cleaned_path-clean path = refl

-- What the function returns is a rooted path in canonical form: its elements are neither empty nor
-- `.` or `..`, and none holds a slash.
pub normalize_virtual_path_canonical :
    (path : Text)
    → (ws : List Text) × (normalize_virtual_path path ≡ slash ∷ join slash ws) × All IsPlain ws
unfolding normalize_virtual_path clean elements join text_eq
normalize_virtual_path_canonical path = elim (Bool-cases (text_eq (trim_space path) [])) [
  | inl e ↦ ([], rw e, tt)
  | inr e ↦ (
    elements (rooted (trim_space path)),
    rw e (cleaned_path-clean (trim_space path)),
    elements-IsPlain (rooted (trim_space path)),
  )
]

normalize_of_plain :
    (ws : List Text)
    → All IsPlain ws
    → trim_space (slash ∷ join slash ws) ≡ slash ∷ join slash ws
    → normalize_virtual_path (slash ∷ join slash ws) ≡ slash ∷ join slash ws
unfolding normalize_virtual_path clean elements
normalize_of_plain ws plain h = rw h (
    cleaned_path-clean (slash ∷ join slash ws)
    ∙ ap (λ vs. slash ∷ join slash vs) (elements_of_plain ws plain))

-- Normalising a normalised path changes nothing, provided that the path has no space at an end.
pub normalize_virtual_path_stable :
    (path : Text)
    → trim_space (normalize_virtual_path path) ≡ normalize_virtual_path path
    → normalize_virtual_path (normalize_virtual_path path) ≡ normalize_virtual_path path
normalize_virtual_path_stable path h =
    let (ws, e, plain) = normalize_virtual_path_canonical path in
    ap normalize_virtual_path e
    ∙ normalize_of_plain ws plain (sym (ap trim_space e) ∙ h ∙ e)
    ∙ sym e
