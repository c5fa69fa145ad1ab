-- ===== src/Vfs/Memory/Listing/Parts.antt =====
-- directChild takes a path below a directory apart.
use satis.Base.{
  Text, text_eq, text_eq_iff, drop, length, Bool, true, false, not, ◌||◌, ◌==◌, ==_iff, Bool-cases,
  inl, inr, some, [], ◌∷◌, ◌++◌, ◌≡◌, ◌≢◌, refl, sym, ap, subst, ◌∙◌, arith,
}
use mathlib.Core.List.{append_assoc}
use satis.Vfs.Names.{slash}
use satis.Vfs.Names.Clean.{IsFree, free}
use satis.Vfs.Memory.Content.{starts_with}
use satis.Vfs.Memory.Content.Patch.{starts_with-append}
use satis.Vfs.Memory.Listing.{Child, first_part, child_at, dir_prefix, direct_child}

-- What is behind the first part.
abbrev pub behind : Bool → Text → Text
behind true rest = slash ∷ rest
behind false rest = []

first_part-whole :
    (s : Text)
    → IsFree slash (first_part s).0
      × (rest : Text) × (s ≡ (first_part s).0 ++ behind (first_part s).1 rest)
unfolding first_part free
first_part-whole [] = (refl, [], refl)
first_part-whole (c ∷ cs) = elim (Bool-cases (c == slash)) [
  | inl e ↦ rw e (refl, cs, ap (λ d. d ∷ cs) ((==_iff c slash).0 e))
  | inr e ↦ let (f, rest, p) = first_part-whole cs in rw e (rw e f, rest, ap (◌∷◌ c) p)
]

-- A child that directChild returns: its name is not empty and holds no slash, its full path is the
-- directory's with the name, and the path that it is of is the full path, or goes on with a slash
-- exactly if the child is said to descend.
pub record IsChild (dir path : Text) (child : Child) : Type 0 where
  pub named : child.name ≢ []
  pub flat : IsFree slash child.name
  pub full : child.full_path ≡ dir_prefix dir ++ child.name
  pub rest : Text
  pub whole : path ≡ child.full_path ++ behind child.descends rest

child_of :
    (dir path name rest : Text) (descends : Bool) (child : Child)
    → path ≡ dir_prefix dir ++ name ++ behind descends rest
    → IsFree slash name
    → text_eq name [] ≡ false
    → record { name = name; full_path = dir_prefix dir ++ name; descends = descends } ≡ child
    → IsChild dir path child
child_of dir path name rest descends child p f n e = subst (IsChild dir path) e (record {
  named = λ z. cc (sym n ∙ (text_eq_iff name []).1 z);
  flat = f;
  full = refl;
  rest = rest;
  whole = p;
})

child_at-IsChild :
    (dir path s : Text) (child : Child)
    → path ≡ dir_prefix dir ++ s
    → child_at (dir_prefix dir) (first_part s) ≡ some child
    → IsChild dir path child
child_at-IsChild dir path s child p h = elim (Bool-cases (text_eq (first_part s).0 [])) [
  | inl e ↦ absurd (cc (rw e at h))
  | inr e ↦
      let (f, rest, w) = first_part-whole s in
      child_of dir path (first_part s).0 rest (first_part s).1 child
        (p
          ∙ ap (λ x. dir_prefix dir ++ x) w
          ∙ sym (append_assoc (dir_prefix dir) (first_part s).0 (behind (first_part s).1 rest)))
        f e (cc (rw e at h))
]

-- directChild finds a path to be below a directory only if the path starts with the directory: it
-- returns the next name, and whether the path goes on behind it.
pub direct_child-IsChild :
    (dir path : Text) (child : Child) → direct_child dir path ≡ some child → IsChild dir path child
unfolding direct_child
direct_child-IsChild dir path child h =
    elim (Bool-cases (text_eq path dir || not (starts_with (dir_prefix dir) path))) [
      | inl e ↦ absurd (cc (rw e at h))
      | inr e ↦
          child_at-IsChild dir path (drop (length (dir_prefix dir)) path) child
            (starts_with-append (dir_prefix dir) path (ground arith)) (rw e at h)
    ]
