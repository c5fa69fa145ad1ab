-- ===== src/Vfs/Names/Keys.antt =====
-- The keys of the path index tell paths and kinds apart, and are taken apart again.
use satis.Base.{
  ℕ, zero, suc, ◌<◌, ◌⊎◌, ◌-◌, Text, text_eq_iff, true, false, length, take, drop, length-append,
  Bool-cases, inl, inr, List, [], ◌∷◌, ◌++◌, ◌≡◌, refl, ap, subst, sym, ◌∙◌, arith, Option, some,
}
use satis.Base.All.{All}
use satis.Vfs.Types.{FileKind}
use satis.Vfs.Names.{
  separator, path_kind_key, normalize_virtual_path, has_suffix, split_by_kinds, split_path_kind_key,
  indexed_file_kinds,
}
use satis.Vfs.Names.Clean.{free, IsFree, normalize_virtual_path_canonical}

-- Membership in a list, by recursion.
abbrev pub OneOf : Text → List Text → Type 0
OneOf k [] = ⊥
OneOf k (j ∷ js) = (k ≡ j) ⊎ OneOf k js

not_free : (a b : Text) → IsFree separator (a ++ separator ∷ b) → ⊥
unfolding free
not_free [] b h = ground arith
not_free (c ∷ a) b h = not_free a b (ground arith)

-- The last separator takes a text apart in one way.
separator_unique :
    (a b k j : Text)
    → IsFree separator k
    → IsFree separator j
    → a ++ separator ∷ k ≡ b ++ separator ∷ j
    → (a ≡ b) × (k ≡ j)
separator_unique [] [] k j fk fj e = (refl, cc)
separator_unique [] (c ∷ b) k j fk fj e =
    absurd (not_free b j (subst_free k (b ++ separator ∷ j) (cc) fk))
  where
    subst_free : (x y : Text) → x ≡ y → IsFree separator x → IsFree separator y
    subst_free x y p h = rw (← p) h
separator_unique (c ∷ a) [] k j fk fj e =
    absurd (not_free a k (subst_free j (a ++ separator ∷ k) (cc) fj))
  where
    subst_free : (x y : Text) → x ≡ y → IsFree separator x → IsFree separator y
    subst_free x y p h = rw (← p) h
separator_unique (c ∷ a) (d ∷ b) k j fk fj e =
    let (p, q) = separator_unique a b k j fk fj (cc) in (cc, q)

-- Two keys of kinds that hold no separator are equal only for one normalised path and one kind.
pub path_kind_key_injective :
    (p q : Text) (k j : FileKind)
    → IsFree separator k
    → IsFree separator j
    → path_kind_key p k ≡ path_kind_key q j
    → (normalize_virtual_path p ≡ normalize_virtual_path q) × (k ≡ j)
unfolding path_kind_key
path_kind_key_injective p q k j fk fj e =
    separator_unique (normalize_virtual_path p) (normalize_virtual_path q) k j fk fj e

drop-append : (a s : Text) → drop (length a) (a ++ s) ≡ s
drop-append [] s = refl
drop-append (c ∷ a) s = drop-append a s

take-append : (a s : Text) → take (length a) (a ++ s) ≡ a
take-append [] s = refl
take-append (c ∷ a) s = ap (◌∷◌ c) (take-append a s)

take-drop : (n : ℕ) (s : Text) → take n s ++ drop n s ≡ s
take-drop zero s = refl
take-drop (suc n) [] = refl
take-drop (suc n) (c ∷ s) = ap (◌∷◌ c) (take-drop n s)

prefix_length : (a s : Text) → length (a ++ s) - length s ≡ length a
prefix_length a s = omega (arith, length-append a s)

pub indexed-IsFree : (kind : FileKind) → OneOf kind indexed_file_kinds → IsFree separator kind
unfolding free
indexed-IsFree kind (inl e) = rw e
indexed-IsFree kind (inr (inl e)) = rw e
indexed-IsFree kind (inr (inr (inl e))) = rw e
indexed-IsFree kind (inr (inr (inr (inl e)))) = rw e
indexed-IsFree kind (inr (inr (inr (inr (inl e))))) = rw e
indexed-IsFree kind (inr (inr (inr (inr (inr m))))) = absurd m

module _ (a : Text) (k : FileKind) (fk : IsFree separator k) (nonempty : 0 < length a) where
  has_suffix_self : has_suffix (a ++ separator ∷ k) (separator ∷ k) ≡ true
  has_suffix_self =
      rw (prefix_length a (separator ∷ k), drop-append a (separator ∷ k))
        (ground
          (arith, length-append a (separator ∷ k), text_eq_iff (separator ∷ k) (separator ∷ k)))

  kind_of_suffix :
      (j : FileKind)
      → IsFree separator j
      → has_suffix (a ++ separator ∷ k) (separator ∷ j) ≡ true
      → k ≡ j
  kind_of_suffix j fj h =
      let key : Text = a ++ separator ∷ k in
      let n : ℕ = length key - length (separator ∷ j) in
      let e : drop n key ≡ separator ∷ j =
        (text_eq_iff (drop n key) (separator ∷ j)).0 (ground arith) in
      (separator_unique a (take n key) k j fk fj
        (sym (take-drop n key) ∙ ap (λ s. take n key ++ s) e)).1

  split_by_kinds-key :
      (kinds : List FileKind)
      → All (IsFree separator) kinds
      → OneOf k kinds
      → split_by_kinds kinds (a ++ separator ∷ k) ≡ some (a, k)
  unfolding split_by_kinds
  split_by_kinds-key [] f m = absurd m
  split_by_kinds-key (j ∷ js) f m =
      elim (Bool-cases (has_suffix (a ++ separator ∷ k) (separator ∷ j))) [
        | inl hit ↦ rw hit (
            subst
              (λ x.
                ◌≡◌ {A = Option (Text × FileKind)}
                  (some (
                    take (length (a ++ separator ∷ k) - length (separator ∷ x))
                        (a ++ separator ∷ k),
                    x,
                  ))
                  (some (a, k)))
              (kind_of_suffix j f.0 hit)
              (rw (prefix_length a (separator ∷ k), take-append a (separator ∷ k))))
        | inr miss ↦ rw miss (split_by_kinds-key js f.1 (later m miss))
      ]
    where
      later :
          OneOf k (j ∷ js) → has_suffix (a ++ separator ∷ k) (separator ∷ j) ≡ false → OneOf k js
      later (inl e) miss =
          let hit : has_suffix (a ++ separator ∷ k) (separator ∷ j) ≡ true =
            subst (λ x. has_suffix (a ++ separator ∷ k) (separator ∷ x) ≡ true) e has_suffix_self in
          absurd (cc (sym hit ∙ miss))
      later (inr m) miss = m

-- splitPathKindKey takes the key of an indexed kind apart into the normalised path and the kind.
pub split_path_kind_key-path_kind_key :
    (path : Text) (kind : FileKind)
    → OneOf kind indexed_file_kinds
    → split_path_kind_key (path_kind_key path kind) ≡ some (normalize_virtual_path path, kind)
unfolding split_path_kind_key path_kind_key free
split_path_kind_key-path_kind_key path kind m =
    let (ws, e, plain) = normalize_virtual_path_canonical path in
    split_by_kinds-key (normalize_virtual_path path) kind (indexed-IsFree kind m)
      (rw e (omega arith)) indexed_file_kinds (refl, (refl, (refl, (refl, (refl, tt))))) m
